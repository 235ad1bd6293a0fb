-- ===== src/Devices.antt =====
-- Devices in files of their own: the interrupt multiplexer (imux.c), the timer (timer.c), the small
-- MMU (mmu.c), the disk (disk.c) and the I/O expander (ioexpand.c).
pub mod Imux
pub mod Timer
pub mod SmallMmu
pub mod Disk
pub mod IoExpand
