-- ===== src/Command/Eval/Returns.antt =====
-- The evaluation of an expression returns (command.c, `eval`).
use exec.Base.{ℕ, ◌<◌, ◌≤◌, ◌≡◌, Option, none, some, [], length, if◌then◌else◌}
use mathlib.Core.Option
use exec.Base.Run.{M, Outcome, ◌>>=◌}
use exec.Base.Returning.{Returns, Total}
use exec.Symtab.{CString, Symtab, sym_set, max_stringspace, str_eq}
use exec.Command.Session.{Debugger, Simulated, Target, Session, on_target, on_dbg, must}
use exec.Command.Eval.{max_history, thread_current_name}
use exec.Command.Eval.NoDivide.{NoDivide}

abbrev Returned : {S A : Type 0} → Outcome S A → Type 0
Returned r = Returns (λ _. Unit {0}) r

-- The machine answers: no access of it exits or is undefined.
pub record Answers {T : Type 0} (ops : Target T) : Type 0 where
  pub reads : (addr : ℕ) (sim : Simulated T) → Returned (ops.abs_read8 addr sim)
  pub writes : (addr val : ℕ) (sim : Simulated T) → Returned (ops.abs_write8 addr val sim)
  pub maps : (addr : ℕ) (sim : Simulated T) → Returned (ops.to_absolute addr sim)
  pub read_registers : (handler : ℕ) (sim : Simulated T) → Returned (ops.read_virtual handler sim)
  pub write_registers :
      (handler val : ℕ) (sim : Simulated T) → Returned (ops.write_virtual handler val sim)

-- The history has its size, and no more than a stringspace is used.
pub record IsReady {T : Type 0} (s : Session T) : Type 0 where
  pub history : length s.dbg.historytab ≡ max_history
  pub names : s.dbg.heap.strings.used ≤ max_stringspace

module _ {T : Type 0} (ops : Target T) (answers : Answers ops) where
  abbrev Ready : {A : Type 0} → M (Session T) A → Type 0
  Ready m = Total IsReady m

  -- `assign_virtual`, once it has looked for a handler.
  abbrev assigned : CString → ℕ → Debugger → Option ℕ → M (Session T) (Unit {0})
  assigned name val d handler = elim handler [
    | some handler ↦ on_target (ops.write_virtual handler val)
    | none ↦ do
      (table, heap) ← must (sym_set d.internal_symtab [] name val 0 d.heap)
      on_dbg λ d. record d {
        internal_symtab = table;
        heap = heap;
        thread_current = if str_eq name thread_current_name then val else d.thread_current;
      }
  ]

  module _ (e : CString → M (Session T) (ℕ × CString)) where
    -- It returns on the parts of a string.
    abbrev Below : ℕ → Type 0
    Below n = (t : CString) → length t < n → NoDivide t → Ready (e t)
