-- ===== src/Command/Hooks/Load.antt =====
-- The rolling sum of the cycles spent in interrupts (command.c, `command_exit_irq_hook`).
use exec.Base.{
  ℕ, zero, suc, ◌+◌, ◌-◌, ◌*◌, ◌<◌, ◌≤◌, ◌^◌, ◌%◌, ◌≡◌, refl, ◌∙◌, arith, some, List, [], ◌∷◌,
  length, length-set, get_elem?, get_elem?-some, get_elem?-set_self, ap, set,
}
use exec.Base.Word.{low}
use exec.Base.Run.{done}
use exec.Command.Session.{Debugger, Target, Session}
use exec.Command.Hooks.{command_exit_irq_hook, irq_cycle_counts}

unfoldable pub sum : List ℕ → ℕ
sum [] = 0
sum (x ∷ xs) = x + sum xs

abbrev pub Words : List ℕ → Type 0
Words [] = Unit {0}
Words (x ∷ xs) = (x < 2 ^ 32) × Words xs

sum-le : (xs : List ℕ) → Words xs → sum xs ≤ length xs * 2 ^ 32
unfolding sum
sum-le [] h = omega arith
sum-le (x ∷ xs) h = omega (arith, sum-le xs h.1)

sum-set :
    (xs : List ℕ) (i old v : ℕ) → get_elem? xs i ≡ some old → sum (set xs i v) + old ≡ sum xs + v
unfolding sum
sum-set [] i old v e = ground (arith, e)
sum-set (x ∷ xs) zero old v e = ground (arith, e)
sum-set (x ∷ xs) (suc i) old v e = omega (arith, sum-set xs i old v e)

Words-set : (xs : List ℕ) (i v : ℕ) → Words xs → v < 2 ^ 32 → Words (set xs i v)
Words-set [] i v h lt = tt
Words-set (x ∷ xs) zero v h lt = (lt, h.1)
Words-set (x ∷ xs) (suc i) v h lt = (h.0, Words-set xs i v h.1 lt)

pub record IsRolling (d : Debugger) : Type 0 where
  pub size : length d.irq_cycle_tab ≡ irq_cycle_counts
  pub entry : d.irq_cycle_entry < irq_cycle_counts
  pub words : Words d.irq_cycle_tab
  pub total : d.irq_cycles ≡ sum d.irq_cycle_tab

-- The debugger after an interrupt of `cycles`, in the place of one of `old`.
abbrev counted : ℕ → ℕ → Debugger → Debugger
counted cycles old d = record d {
  irq_cycles = (d.irq_cycles + (2 ^ 64 - old) + cycles) % 2 ^ 64;
  irq_cycle_tab = set d.irq_cycle_tab d.irq_cycle_entry (low cycles 32);
  irq_cycle_entry = (d.irq_cycle_entry + 1) % irq_cycle_counts;
}

module _ {T : Type 0} (ops : Target T) where
  -- When `irq_cycles` is the sum of the 128 words of `irq_cycle_tab` and the current entry is one
  -- of them, and the interrupt took fewer than 2 ^ 32 cycles: `command_exit_irq_hook` returns, has
  -- put the cycles in what was the current entry, `irq_cycles` is the sum of the 128 words again,
  -- and the entry after it, modulo 128, is the current one.
  pub command_exit_irq_hook-IsRolling :
      (cycles : ℕ) (s : Session T)
      → cycles < 2 ^ 32
      → IsRolling s.dbg
      → (d : Debugger) × (command_exit_irq_hook ops cycles s ≡ done tt (record s { dbg = d }))
        × IsRolling d
        × (get_elem? d.irq_cycle_tab s.dbg.irq_cycle_entry ≡ some cycles)
        × (d.irq_cycle_entry ≡ (s.dbg.irq_cycle_entry + 1) % irq_cycle_counts)
  unfolding command_exit_irq_hook
  command_exit_irq_hook-IsRolling cycles s lt r =
      let d = s.dbg in
      let tab = d.irq_cycle_tab in
      let (old, here) = get_elem?-some tab d.irq_cycle_entry (omega (arith, r.size, r.entry)) in
      let same : low cycles 32 ≡ cycles = omega arith in
      (
        counted cycles old d,
        rw here refl,
        record {
          size = length-set tab d.irq_cycle_entry (low cycles 32) ∙ r.size;
          entry = omega arith;
          words = Words-set tab d.irq_cycle_entry (low cycles 32) r.words (omega arith);
          total = omega (
            arith,
            sum-set tab d.irq_cycle_entry old (low cycles 32) here,
            sum-le tab r.words,
            r.total,
            r.size,
          );
        },
        get_elem?-set_self tab d.irq_cycle_entry (low cycles 32) (omega (arith, r.size, r.entry))
            ∙ ap some same,
        refl,
      )
