-- ===== src/Core.antt =====
-- The processor core of 6809.c over the rest of the simulator.
pub mod Board
pub mod Flat
pub mod Memory
pub mod Indexed
pub mod Stack
pub mod Interrupt
pub mod Transfer
pub mod Branch
pub mod Operand
pub mod Execute
pub mod Loop
