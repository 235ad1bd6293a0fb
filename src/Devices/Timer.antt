-- ===== src/Devices/Timer.antt =====
-- The timer (timer.c). `count` is a C `int`, kept as its 32-bit pattern.
pub mod Period
use exec.Base.{
  ℕ, ◌+◌, ◌-◌, ◌*◌, ◌/◌, ◌%◌, ◌^◌, Bool, Option, none, some, ltb, leb, ◌==◌, ◌&&◌, ◌||◌,
  if◌then◌else◌, bit_or,
}
use exec.Base.Word.{add32, sub32, low, test_bit}
use exec.Base.Run.{M, ◌>>=◌, ◌>>◌, pure}

pub record HwTimer : Type 0 where
  pub count : ℕ
  pub reload : ℕ
  pub resolution : ℕ
  pub flags : ℕ
  pub prev_cycles : ℕ
  -- whether there is an interrupt multiplexer
  pub int_dev : Bool
  pub int_line : ℕ

abbrev pub negative : ℕ → Bool
negative count = leb (2 ^ 31) count

module _ {S : Type 0} (imux_assert : ℕ → M S (Unit {0})) (sim_error : M S (Unit {0})) where
  -- What is left of a negative count.
  unfoldable pub hwtimer_wrap : ℕ → HwTimer → M S HwTimer
  hwtimer_wrap count timer =
      if ltb 0 timer.reload
      then (do
        if negative (add32 count timer.reload) then sim_error else pure tt
        pure (record timer { count = add32 count timer.reload }))
      else pure (record timer { count = 0 })

  unfoldable pub hwtimer_decrement : ℕ → HwTimer → M S HwTimer
  hwtimer_decrement cycles timer =
      let count = sub32 timer.count cycles in
      if timer.count == 0 && (timer.reload == 0)
      then pure timer
      else if count == 0 || negative count
      then (do
        if timer.int_dev && test_bit timer.flags 7 then imux_assert timer.int_line else pure tt
        if negative count then hwtimer_wrap count timer else pure (record timer { count = count }))
      else pure (record timer { count = count })

  -- `cycles` is `get_cycles ()`; the difference is taken modulo 2 ^ 64 and passed as an `unsigned`.
  unfoldable pub hwtimer_update : ℕ → HwTimer → M S HwTimer
  hwtimer_update cycles timer = do
    after ← hwtimer_decrement ((cycles + (2 ^ 64 - timer.prev_cycles)) % 2 ^ 64 % 2 ^ 32) timer
    pure (record after { prev_cycles = cycles })

-- Undefined at another address, or with a resolution of 0.
unfoldable pub hwtimer_read : ℕ → HwTimer → Option ℕ
hwtimer_read addr timer =
    if addr == 2
    then some (low timer.flags 8)
    else if timer.resolution == 0
    then none
    else if addr == 0
    then some (low (timer.count / timer.resolution) 8)
    else if addr == 1
    then some (low (timer.reload / timer.resolution) 8)
    else none

unfoldable pub hwtimer_write : ℕ → ℕ → HwTimer → HwTimer
hwtimer_write addr val timer =
    if addr == 0
    then record timer { count = val * timer.resolution % 2 ^ 32 }
    else if addr == 1
    then record timer { reload = val * timer.resolution % 2 ^ 32 }
    else if addr == 2
    then record timer { flags = val }
    else timer

unfoldable pub hwtimer_reset : ℕ → HwTimer → HwTimer
hwtimer_reset cycles timer = record timer {
  count = 0;
  flags = 0;
  resolution = 128;
  prev_cycles = cycles;
}

unfoldable pub oscillator_reset : ℕ → HwTimer → HwTimer
unfolding hwtimer_reset
oscillator_reset cycles timer =
    let cleared = hwtimer_reset cycles timer in
    record cleared {
      count = cleared.reload;
      flags = if cleared.int_dev then bit_or cleared.flags 0x80 else cleared.flags;
    }
