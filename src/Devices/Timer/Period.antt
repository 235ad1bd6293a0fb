-- ===== src/Devices/Timer/Period.antt =====
-- A running timer over a span of cycles (timer.c, `hwtimer_decrement`).
use exec.Base.{
  ℕ, ◌+◌, ◌-◌, ◌^◌, ◌<◌, ◌≤◌, ◌≡◌, ◌⊎◌, fun_ext, arith, ap, true, false, ltb, leb, ◌==◌, ◌&&◌,
  if◌then◌else◌, inl, inr,
}
use exec.Base.Word.{add32, sub32, test_bit}
use exec.Base.Run.{M, Outcome, done, bind_outcome, pure}
use exec.Devices.Timer.{HwTimer, negative, hwtimer_wrap, hwtimer_decrement}

-- The count after a span, without C's arithmetic.
abbrev pub remaining : ℕ → HwTimer → ℕ
remaining cycles timer =
    if leb cycles timer.count then timer.count - cycles else timer.count + timer.reload - cycles

module _ {S : Type 0} (imux_assert : ℕ → M S (Unit {0})) (sim_error : M S (Unit {0})) where
  span-cases : (c n : ℕ) → (c < n) ⊎ ((c ≡ n) ⊎ (n < c))
  span-cases c n = omega arith

  wrapped :
      (cycles : ℕ) (timer : HwTimer) (s : S)
      → timer.count < 2 ^ 31
      → 0 < timer.reload
      → timer.reload < 2 ^ 31
      → cycles ≤ timer.count + timer.reload
      → timer.count < cycles
      → cycles < 2 ^ 31
      → hwtimer_wrap imux_assert sim_error (sub32 timer.count cycles) timer s
        ≡ done (record timer { count = remaining cycles timer }) s
  unfolding hwtimer_wrap
  wrapped cycles timer s c r r' fit past small =
      let reloads : ltb 0 timer.reload ≡ true = ground arith in
      let no_sign : negative (add32 (sub32 timer.count cycles) timer.reload) ≡ false =
        ground arith in
      rw (reloads, no_sign) (ap (λ (n : ℕ). done (record timer { count = n }) s) (ground arith))

  -- For a count and a nonzero reload value below 2 ^ 31 and a span of cycles below 2 ^ 31 that is
  -- at most their sum: `hwtimer_decrement` asserts the interrupt, if there is a multiplexer and it
  -- is enabled, exactly when the span is at least the count, and leaves the count less the span,
  -- plus the reload value when the span exceeds the count.
  pub hwtimer_decrement-remaining :
      (cycles : ℕ) (timer : HwTimer) (s : S)
      → timer.count < 2 ^ 31
      → 0 < timer.reload
      → timer.reload < 2 ^ 31
      → cycles ≤ timer.count + timer.reload
      → cycles < 2 ^ 31
      → hwtimer_decrement imux_assert sim_error cycles timer s
        ≡ bind_outcome
            ((if leb timer.count cycles && (timer.int_dev && test_bit timer.flags 7)
                then imux_assert timer.int_line
                else pure tt)
              s)
            (λ v s'. done (record timer { count = remaining cycles timer }) s')
  unfolding hwtimer_decrement
  hwtimer_decrement-remaining cycles timer s c r r' fit small =
      let stopped : (timer.count == 0 && (timer.reload == 0)) ≡ false = ground arith in
      let dec = sub32 timer.count cycles in
      let raised : Outcome S (Unit {0}) =
        (if timer.int_dev && test_bit timer.flags 7 then imux_assert timer.int_line else pure tt)
          s in
      elim (span-cases cycles timer.count) [
        | inl before ↦
            let no_zero : (dec == 0) ≡ false = ground arith in
            let no_sign : negative dec ≡ false = ground arith in
            let early : leb timer.count cycles ≡ false = ground arith in
            rw (stopped, no_zero, no_sign, early)
              (ap (λ (n : ℕ). done (record timer { count = n }) s) (ground arith))
        | inr (inl here) ↦
            let is_zero : (dec == 0) ≡ true = ground arith in
            let no_sign : negative dec ≡ false = ground arith in
            let due : leb timer.count cycles ≡ true = ground arith in
            rw (stopped, is_zero, no_sign, due)
              (ap (λ (n : ℕ). bind_outcome raised (λ v s'. done (record timer { count = n }) s'))
                (ground arith))
        | inr (inr past) ↦
            let no_zero : (dec == 0) ≡ false = ground arith in
            let sign : negative dec ≡ true = ground arith in
            let due : leb timer.count cycles ≡ true = ground arith in
            rw (stopped, no_zero, sign, due)
              (ap (λ k. bind_outcome raised (λ v. k))
                (fun_ext (λ s'. wrapped cycles timer s' c r r' fit past small)))
      ]
