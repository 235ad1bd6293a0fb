-- ===== src/Tests.antt =====
-- The theorems at concrete inputs.
mod Registers
mod Symbols
mod Pages
mod Debugger
mod Commands
mod Stacks
mod Buses
mod Lines
use exec.Base.{ℕ}
use exec.Base.Int.{pos}
use exec.Cpu.{Cpu}

-- A machine in use: Z clear, C set, N and V clear, the interrupts masked.
abbrev start : Cpu
start = record {
  x = 0x1234;
  y = 0x5678;
  s = 0x2000;
  u = 0x3000;
  pc = 0x4321;
  a = 0x55;
  b = 0xaa;
  dp = 0x1000;
  h = 0;
  n = 1;
  z = 1;
  ov = 0;
  c = 1;
  efi = 0x50;
  ipc = 0x431f;
  ea = 0x4567;
  clk = pos 100;
  period = pos 200;
  total = 1000;
  irq_start_time = 0;
  irqs_pending = 1;
  firqs_pending = 0;
  cc_changed = 0;
}
