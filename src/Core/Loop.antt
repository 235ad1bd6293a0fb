-- ===== src/Core/Loop.antt =====
-- The loop of `cpu_execute` (6809.c). It need not end, since an instruction may call for the monitor,
-- so that it is a relation between its states.
use exec.Base.{ℕ, Bool, true, false, ◌≡◌, sym, ◌∙◌, ap, subst}
use exec.Base.Int.{ℤ, pos, ◌-ℤ◌, ltb_ℤ}
use exec.Base.Run.{M, Outcome, done, exited, undefined}
use exec.Core.Board.{Sys, Board}
use exec.Core.Execute.{execute_one}

-- `stops` is what the loop does before an instruction: `command_insn_hook`, `check_break`, and
-- `monitor6809` where the monitor is on; true where `monitor6809` ends the loop.
module _ {E : Type 0} (board : Board E) (stops : M (Sys E) Bool) where
  abbrev pub cycles_left : Sys E → Bool
  cycles_left s = ltb_ℤ (pos 0) s.cpu.clk

  pub data Executes : Sys E → Sys E → Type 0 where
    stopped : {s s' : Sys E} → stops s ≡ done true s' → Executes s s'
    last :
        {s s1 s2 : Sys E}
        → stops s ≡ done false s1
        → execute_one board s1 ≡ done tt s2
        → cycles_left s2 ≡ false
        → Executes s s2
    next :
        {s s1 s2 s3 : Sys E}
        → stops s ≡ done false s1
        → execute_one board s1 ≡ done tt s2
        → cycles_left s2 ≡ true
        → Executes s2 s3
        → Executes s s3

  abbrev pub with_cycles : ℕ → Sys E → Sys E
  with_cycles cycles s = record s { cpu = record (s.cpu) { clk = pos cycles; period = pos cycles } }

  abbrev pub after_exit : Sys E → Sys E
  after_exit s = record s {
    cpu = record (s.cpu) { clk = s.cpu.period -ℤ s.cpu.clk; period = s.cpu.period -ℤ s.cpu.clk };
  }

  -- `cpu_execute (cycles)` returns, with the value and the state.
  pub record CpuExecute (cycles : ℕ) (s : Sys E) (result : ℤ) (s' : Sys E) : Type 0 where
    pub ended : Sys E
    pub ran : Executes (with_cycles cycles s) ended
    pub returns : result ≡ ended.cpu.period -ℤ ended.cpu.clk
    pub leaves : s' ≡ after_exit ended

  abbrev state_of : {A : Type 0} → Sys E → Outcome (Sys E) A → Sys E
  state_of s (done a s') = s'
  state_of s (exited k s') = s
  state_of s undefined = s

  same_state : {A : Type 0} {a b : A} {s s' : Sys E} → done a s ≡ done b s' → s ≡ s'
  same_state {s = s} e = ap (state_of s) e

  same_step :
      {s s1 s1' s2 s2' : Sys E}
      → stops s ≡ done false s1
      → stops s ≡ done false s1'
      → execute_one board s1 ≡ done tt s2
      → execute_one board s1' ≡ done tt s2'
      → s2 ≡ s2'
  same_step e e' r r' = same_state (sym r ∙ ap (execute_one board) (same_state (sym e ∙ e')) ∙ r')

  -- The state that the loop ends in is determined.
  pub Executes_unique : {s a b : Sys E} → Executes s a → Executes s b → a ≡ b
  Executes_unique (stopped e) (stopped e') = same_state (sym e ∙ e')
  Executes_unique (stopped e) (last e' r h) = cc
  Executes_unique (stopped e) (next e' r h k) = cc
  Executes_unique (last e r h) (stopped e') = cc
  Executes_unique (last e r h) (last e' r' h') = same_step e e' r r'
  Executes_unique (last e r h) (next e' r' h' k) = cc (ap cycles_left (same_step e e' r r'))
  Executes_unique (next e r h k) (stopped e') = cc
  Executes_unique (next e r h k) (last e' r' h') = cc (ap cycles_left (same_step e e' r r'))
  Executes_unique {b = b} (next e r h k) (next e' r' h' k') =
      Executes_unique k (subst (λ s. Executes s b) (same_step e' e r' r) k')
