-- ===== src/Alu/Add.antt =====
-- `add` and `adc`: the result and the five condition codes against exact arithmetic.
use exec.Base.{ℕ, ◌+◌, ◌%◌, ◌≤◌, ◌<◌, ◌≡◌, arith, leb, ◌==◌, not, bit_xor}
use exec.Base.Int.{pos, ◌+ℤ◌, signed8, fits8}
use exec.Base.Word.{nonzero, of_bool, add32, low, shr, bit_value, test_bit}
use exec.Base.Bits.{bit_xor_bit_four}
use exec.Cpu.{Cpu}
use exec.Cpu.Flags.{cond_lo, cond_eq, cond_mi, cond_vs, half_carry}
use exec.Alu.{add, adc}

-- What an 8-bit addition with a carry in must report.
pub record IsSum (arg val carry : ℕ) (res : ℕ) (cpu : Cpu) : Type 0 where
  pub result : res ≡ (arg + val + carry) % 256
  pub carry_out : cond_lo cpu ≡ leb 256 (arg + val + carry)
  pub overflow : cond_vs cpu ≡ not (fits8 (signed8 arg +ℤ signed8 val +ℤ pos carry))
  pub negative : cond_mi cpu ≡ leb 128 res
  pub zero_flag : cond_eq cpu ≡ (res == 0)
  pub half : half_carry cpu ≡ leb 16 (arg % 16 + val % 16 + carry)

module _ (arg val carry : ℕ) (p : arg < 256) (q : val < 256) (r : carry ≤ 1) (sum : ℕ)
    (e : sum ≡ arg + val + carry) where
  -- The value that `add` and `adc` keep for both H and OV.
  abbrev carries : ℕ
  carries = bit_xor (bit_xor (bit_xor arg val) (low sum 8)) (bit_value (shr sum 1) 7)

  -- Its bit 7 is the signed overflow.
  carries_overflow : test_bit carries 7 ≡ not (fits8 (signed8 arg +ℤ signed8 val +ℤ pos carry))
  unfolding ◌+ℤ◌
  carries_overflow =
      ground (arith, bit_xor_bit_four 7 arg val (low sum 8) (bit_value (shr sum 1) 7))

  -- Its bit 4 is the carry out of the low digit.
  carries_half : test_bit carries 4 ≡ leb 16 (arg % 16 + val % 16 + carry)
  carries_half = ground (arith, bit_xor_bit_four 4 arg val (low sum 8) (bit_value (shr sum 1) 7))

-- For two bytes, `adc` gives the sum with the carry flag modulo 256, C, V and H are the carry,
-- the signed overflow and the carry out of the low digit of the exact sum, and N and Z the sign
-- and the zero test of the byte that results.
pub adc-IsSum :
    (arg val : ℕ) (cpu : Cpu)
    → arg < 256
    → val < 256
    → IsSum arg val (of_bool (cond_lo cpu)) (adc arg val cpu).0 (adc arg val cpu).1
unfolding cond_lo
adc-IsSum arg val cpu p q = record {
  result = unfold adc in ground arith;
  carry_out = unfold adc in ground arith;
  overflow =
      unfold adc cond_vs in
      carries_overflow arg val (of_bool (nonzero cpu.c)) p q (ground arith)
        (add32 (add32 arg val) (of_bool (nonzero cpu.c))) (ground arith);
  negative = unfold adc cond_mi in ground arith;
  zero_flag = unfold adc cond_eq in ground arith;
  half =
      unfold adc half_carry in
      carries_half arg val (of_bool (nonzero cpu.c)) p q (ground arith)
        (add32 (add32 arg val) (of_bool (nonzero cpu.c))) (ground arith);
}

-- For two bytes, `add` gives the sum modulo 256, whatever the carry flag, C, V and H are the carry,
-- the signed overflow and the carry out of the low digit of the exact sum, and N and Z the sign
-- and the zero test of the byte that results.
pub add-IsSum :
    (arg val : ℕ) (cpu : Cpu)
    → arg < 256
    → val < 256
    → IsSum arg val 0 (add arg val cpu).0 (add arg val cpu).1
add-IsSum arg val cpu p q = record {
  result = unfold add in omega arith;
  carry_out = unfold add cond_lo in ground arith;
  overflow =
      unfold add cond_vs in
      carries_overflow arg val 0 p q (omega arith) (add32 arg val) (omega arith);
  negative = unfold add cond_mi in ground arith;
  zero_flag = unfold add cond_eq in ground arith;
  half =
      unfold add half_carry in
      carries_half arg val 0 p q (omega arith) (add32 arg val) (omega arith);
}
