-- ===== src/Core/Board.antt =====
-- What the core calls of the rest of the simulator: the bus of machine.c, `sim_error`, and the
-- hooks of monitor.c and command.c. Each may change any part of the state, the registers included
-- (a write to an interrupt multiplexer raises an interrupt), hence the whole state on both sides.
use exec.Base.{ℕ}
use exec.Base.Run.{M, done}
use exec.Cpu.{Cpu}

pub record Sys (E : Type 0) : Type 0 where
  pub cpu : Cpu
  pub env : E

pub record Board (E : Type 0) : Type 0 where
  -- cpu_read8, cpu_read16 and cpu_write8
  pub read8 : ℕ → M (Sys E) ℕ
  pub read16 : ℕ → M (Sys E) ℕ
  pub write8 : ℕ → ℕ → M (Sys E) (Unit {0})
  pub sim_error : M (Sys E) (Unit {0})
  pub monitor_call : ℕ → M (Sys E) (Unit {0})
  pub monitor_return : M (Sys E) (Unit {0})
  pub exit_irq_hook : ℕ → M (Sys E) (Unit {0})

abbrev pub on_cpu : {E : Type 0} → (Cpu → Cpu) → M (Sys E) (Unit {0})
on_cpu f s = done tt (record s { cpu = f s.cpu })

abbrev pub get_cpu : {E : Type 0} → M (Sys E) Cpu
get_cpu s = done s.cpu s
