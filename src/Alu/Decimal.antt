-- ===== src/Alu/Decimal.antt =====
-- `daa` after an addition of two packed decimal bytes.
use exec.Base.{
  ℕ, ◌+◌, ◌*◌, ◌/◌, ◌%◌, ◌≤◌, ◌<◌, ◌≡◌, refl, arith, ap, ◌∙◌, ltb, leb, ◌&&◌, ◌||◌, Bool, bit_and,
  bit_or, if◌then◌else◌,
}
use exec.Base.Word.{nonzero, of_bool, low, bit_value, add32, test_bit}
use exec.Base.Bits.{bit_or_between}
use exec.Base.Table.{all_below, eq_of_table}
use exec.Cpu.{Cpu}
use exec.Cpu.Flags.{cond_lo, half_carry}
use exec.Alu.{adc, daa}
use exec.Alu.Add.{adc-IsSum}

-- Two decimal digits in a byte.
abbrev pub bcd : ℕ → ℕ → ℕ
bcd tens units = 16 * tens + units

-- `A = adc (A, val)` followed by `DAA`, with `arg` in A.
abbrev pub adc_daa : ℕ → ℕ → Cpu → Cpu
adc_daa arg val cpu = let (res, summed) = adc arg val cpu in daa (record summed { a = res })

high_digit : (x : ℕ) → x < 256 → bit_and x 0xf0 ≡ x / 16 * 16
high_digit = eq_of_table 256 (λ x. bit_and x 0xf0) (λ x. x / 16 * 16) (unfold all_below in refl)

-- What `daa` adds to A, from A and the flags H and C.
abbrev fix : ℕ → Bool → Bool → ℕ
fix a half carry =
    (if ltb 9 (a % 16) || half then 6 else 0)
    + (if ltb 8 (a / 16) && ltb 9 (a % 16) then 96 else 0)
    + (if ltb 9 (a / 16) || carry then 96 else 0)

daa_total :
    (cpu : Cpu)
    → cpu.a < 256
    → (let msn = bit_and cpu.a 0xf0 in
        let lsn = low cpu.a 4 in
        let r1 = if ltb 0x09 lsn || test_bit cpu.h 4 then add32 cpu.a 0x06 else cpu.a in
        let r2 = if ltb 0x80 msn && ltb 0x09 lsn then add32 r1 0x60 else r1 in
        if ltb 0x90 msn || nonzero cpu.c then add32 r2 0x60 else r2)
      ≡ cpu.a + fix cpu.a (test_bit cpu.h 4) (nonzero cpu.c)
daa_total cpu p = ground (arith, high_digit cpu.a p)

or_carry : (c r : ℕ) → r < 512 → nonzero (bit_or c (bit_value r 8)) ≡ (nonzero c || leb 256 r)
or_carry c r h = ground (arith, bit_or_between c (bit_value r 8))

-- `daa` on any byte: the result and the carry.
daa_adds :
    (cpu : Cpu)
    → cpu.a < 256
    → ((daa cpu).a ≡ (cpu.a + fix cpu.a (test_bit cpu.h 4) (nonzero cpu.c)) % 256)
      × (cond_lo (daa cpu)
          ≡ (nonzero cpu.c || leb 256 (cpu.a + fix cpu.a (test_bit cpu.h 4) (nonzero cpu.c))))
unfolding daa cond_lo
daa_adds cpu p = (
  rw (daa_total cpu p) refl,
  rw (daa_total cpu p)
      (or_carry cpu.c (cpu.a + fix cpu.a (test_bit cpu.h 4) (nonzero cpu.c)) (ground arith)),
)

-- Both digits of the binary sum exceed nine and neither carries: the tens are corrected twice.
abbrev pub corrected_twice : ℕ → ℕ → Bool
corrected_twice tens units = leb 10 units && ltb units 16 && leb 10 tens && ltb tens 16

-- What the second correction leaves in the result.
abbrev pub extra : ℕ → ℕ → ℕ
extra t u = if corrected_twice t u then 96 else 0

-- The digit sums `t` of the tens and `u` of the units, carry included, through `daa`.
module _ (t u : ℕ) (p : t ≤ 18) (q : u ≤ 19) where
  abbrev sum : ℕ
  sum = 16 * t + u

  abbrev adjusted : ℕ
  adjusted = sum % 256 + fix (sum % 256) (leb 16 u) (leb 256 sum)

  adjusted_byte : adjusted % 256 ≡ bcd ((10 * t + u) / 10 % 10) ((10 * t + u) % 10) + extra t u
  adjusted_byte = ground arith

  adjusted_carry : (leb 256 sum || leb 256 adjusted) ≡ leb 100 (10 * t + u)
  adjusted_carry = ground arith

-- `daa` after any addition that left the digit sums and their carries in the machine.
daa_decimal :
    (t u : ℕ) (cpu : Cpu)
    → t ≤ 18
    → u ≤ 19
    → cpu.a ≡ (16 * t + u) % 256
    → half_carry cpu ≡ leb 16 u
    → cond_lo cpu ≡ leb 256 (16 * t + u)
    → ((daa cpu).a ≡ bcd ((10 * t + u) / 10 % 10) ((10 * t + u) % 10) + extra t u)
      × (cond_lo (daa cpu) ≡ leb 100 (10 * t + u))
daa_decimal t u cpu p q ea eh ec =
    let d = daa_adds cpu (omega arith) in
    let eh' : test_bit cpu.h 4 ≡ leb 16 u = unfold half_carry in eh in
    let ec' : nonzero cpu.c ≡ leb 256 (16 * t + u) = unfold cond_lo in ec in
    (
      rw (d.0, ea, eh', ec') (adjusted_byte t u p q),
      rw (d.1, ea, eh', ec') (adjusted_carry t u p q),
    )

module _ (tens units tens' units' : ℕ) (cpu : Cpu) (p : tens < 10) (q : units < 10)
    (p' : tens' < 10) (q' : units' < 10) where
  abbrev carry_in : ℕ
  carry_in = of_bool (cond_lo cpu)

  -- For two bytes of two decimal digits each: `adc` and then `daa` leave in the carry flag that
  -- the decimal sum, carry in included, is at least 100, and in A its last two digits, to which
  -- 0x60 is added when the sums of the tens and of the units both lie between 10 and 15.
  pub adc_daa_decimal :
      let decimal = 10 * (tens + tens') + (units + units' + carry_in) in
      let after = adc_daa (bcd tens units) (bcd tens' units') cpu in
      (after.a
        ≡ bcd (decimal / 10 % 10) (decimal % 10) + extra (tens + tens') (units + units' + carry_in))
      × (cond_lo after ≡ leb 100 decimal)
  adc_daa_decimal =
      let s = adc-IsSum (bcd tens units) (bcd tens' units') cpu (omega arith) (omega arith) in
      let (res, after) = adc (bcd tens units) (bcd tens' units') cpu in
      let digits : bcd tens units % 16 + bcd tens' units' % 16 + carry_in
          ≡ units + units' + carry_in =
        omega arith in
      let sums : bcd tens units + bcd tens' units' + carry_in
          ≡ 16 * (tens + tens') + (units + units' + carry_in) =
        omega arith in
      daa_decimal (tens + tens') (units + units' + carry_in) (record after { a = res })
        (omega arith) (ground arith) (omega (arith, s.result))
        (unfold half_carry in s.half ∙ ap (leb 16) digits)
        (unfold cond_lo in s.carry_out ∙ ap (leb 256) sums)
