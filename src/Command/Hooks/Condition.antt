-- ===== src/Command/Hooks/Condition.antt =====
-- The condition of a breakpoint is evaluated in its own buffer (command.c, `breakpoint_hit`).
use exec.Base.{
  ℕ, ◌≡◌, ◌≢◌, refl, ◌∙◌, ap, arith, true, false, some, ◌∷◌, ◌++◌, get_elem?, get_elem?-set_self,
  get_elem?-lt, ◌==◌,
}
use exec.Base.Word.{nonzero, of_bool}
use exec.Base.Run.{done, go_on}
use exec.Symtab.{CString}
use exec.Command.{Breakpoint, write_break}
use exec.Command.Session.{Target, Session}
use exec.Command.Eval.{eval}
use exec.Command.Eval.Split.{contains, eval-equal}
use exec.Command.Hooks.{breakpoint_hit, condition_holds}
use exec.Command.Hooks.Stops.{unchosen}

module _ {T : Type 0} (ops : Target T) (n : ℕ) (br : Breakpoint) where
  abbrev pub left_over : CString → Session T → Session T
  left_over rest s = record s {
    dbg = record (s.dbg) {
      breaks = write_break n (λ br. record br { condition = rest }) s.dbg.breaks;
    };
  }

  -- The condition is the one that the entry holds.
  condition_holds-eval :
      (s s' : Session T) (val : ℕ) (rest : CString)
      → eval ops br.condition s ≡ done (val, rest) s'
      → condition_holds ops n br s ≡ done (nonzero val) (left_over rest s')
  unfolding condition_holds
  condition_holds-eval s s' val rest e = go_on _ _ e refl

  -- For a conditional breakpoint for every thread whose condition is two texts around `==`, the
  -- first without an equals sign, which evaluate one after the other to different values and leave
  -- the entry as it is: `breakpoint_hit` returns, leaves the monitor as the evaluation left it,
  -- and the entry then holds as its condition only what is left of the first text.
  pub breakpoint_hit-condition :
      (s s1 s2 : Session T) (l r l' r' : CString) (a b : ℕ)
      → br.threaded ≡ false
      → br.conditional ≡ true
      → br.condition ≡ l ++ b'=' ∷ b'=' ∷ r
      → contains b'=' l ≡ false
      → eval ops l s ≡ done (a, l') s1
      → eval ops r s1 ≡ done (b, r') s2
      → a ≢ b
      → get_elem? s2.dbg.breaks.breaktab n ≡ some br
      → (s' : Session T) × (breakpoint_hit ops n br s ≡ done tt s')
        × (s'.dbg.monitor_on ≡ s2.dbg.monitor_on)
        × (get_elem? s'.dbg.breaks.breaktab n ≡ some (record br { condition = l' }))
  unfolding breakpoint_hit write_break
  breakpoint_hit-condition s s1 s2 l r l' r' a b every conditional text no_eq left right differ
        here =
      (
        left_over l' s2,
        rw (every, conditional)
            (go_on _ _
              (condition_holds-eval s s2 (of_bool (a == b)) l' (
                ap (λ c. eval ops c s) text
                ∙ eval-equal ops l r l' r' a b s s1 s2 no_eq left right))
              (unchosen (nonzero (of_bool (a == b))) _ _ _ (ground arith))),
        refl,
        ground (
          arith,
          here,
          get_elem?-set_self s2.dbg.breaks.breaktab n (record br { condition = l' })
              (get_elem?-lt s2.dbg.breaks.breaktab n br here),
        ),
      )
