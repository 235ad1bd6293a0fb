-- ===== src/Command/Session.antt =====
-- The state of the debugger (command.c, its globals), and what it uses of the simulated machine.
use exec.Base.{ℕ, Bool, List, Option, none, some}
use exec.Base.Int.{ℤ}
use exec.Base.Run.{M, Outcome, done, exited, undefined}
use exec.Symtab.{Symbols, Symtab}
use exec.Command.{Breaks}

-- The values of `auto_symtab` are pointers to the handlers of the virtual registers.
pub record Debugger : Type 0 where
  pub heap : Symbols
  pub program_symtab : Symtab
  pub internal_symtab : Symtab
  pub auto_symtab : Symtab
  pub breaks : Breaks
  pub history_count : ℕ
  pub historytab : List ℕ
  pub thread_id_size : ℕ
  pub thread_current : ℕ
  pub thread_id : ℕ
  pub trace_buffer : List ℕ
  pub trace_offset : ℕ
  pub stop_after_ms : ℤ
  pub monitor_on : Bool
  pub irq_cycle_tab : List ℕ
  pub irq_cycle_entry : ℕ
  pub irq_cycles : ℕ

-- The machine, and the flag of the debugger that it sets where it reports an error (6809.c,
-- `sim_error`).
pub record Simulated (T : Type 0) : Type 0 where
  pub machine : T
  pub monitor_on : Bool

-- `abs_read8`, `abs_write8`, `to_absolute`, `get_pc`, the handlers of the virtual registers, and
-- `dump_thread` of the machine in use, `none` where it is NULL.
pub record Target (T : Type 0) : Type 0 where
  pub abs_read8 : ℕ → M (Simulated T) ℕ
  pub abs_write8 : ℕ → ℕ → M (Simulated T) (Unit {0})
  pub to_absolute : ℕ → M (Simulated T) ℕ
  pub get_pc : M (Simulated T) ℕ
  pub read_virtual : ℕ → M (Simulated T) ℕ
  pub write_virtual : ℕ → ℕ → M (Simulated T) (Unit {0})
  pub dump_thread : Option (ℕ → M (Simulated T) (Unit {0}))

pub record Session (T : Type 0) : Type 0 where
  pub dbg : Debugger
  pub target : T

abbrev pub joined : {T : Type 0} → Debugger → Simulated T → Session T
joined dbg sim = record { dbg = record dbg { monitor_on = sim.monitor_on }; target = sim.machine }

abbrev pub lifted : {T A : Type 0} → Debugger → Outcome (Simulated T) A → Outcome (Session T) A
lifted dbg (done a sim) = done a (joined dbg sim)
lifted dbg (exited k sim) = exited k (joined dbg sim)
lifted dbg undefined = undefined

abbrev pub on_target : {T A : Type 0} → M (Simulated T) A → M (Session T) A
on_target m s = lifted s.dbg (m (record { machine = s.target; monitor_on = s.dbg.monitor_on }))

abbrev pub get_dbg : {T : Type 0} → M (Session T) Debugger
get_dbg s = done s.dbg s

abbrev pub on_dbg : {T : Type 0} → (Debugger → Debugger) → M (Session T) (Unit {0})
on_dbg f s = done tt (record s { dbg = f s.dbg })

-- Undefined where there is no value.
abbrev pub must : {S A : Type 0} → Option A → M S A
must none s = undefined
must (some a) s = done a s
