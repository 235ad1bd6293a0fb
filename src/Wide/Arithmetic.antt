-- ===== src/Wide/Arithmetic.antt =====
-- `addd`, `subd`, `ldd` and `abx`: D as one 16-bit number, against exact arithmetic.
use exec.Base.{
  ℕ, ◌+◌, ◌-◌, ◌*◌, ◌/◌, ◌%◌, ◌<◌, ◌≡◌, arith, ◌∙◌, leb, ltb, ◌==◌, not, bit_and, bit_xor, Bool,
}
use exec.Base.Int.{◌+ℤ◌, ◌-ℤ◌, signed16, fits16}
use exec.Base.Word.{low, shr, add32, sub32, test_bit}
use exec.Base.Bits.{bit_and_bit, bit_xor_bit}
use exec.Cpu.{Cpu, get_d}
use exec.Cpu.Flags.{cond_lo, cond_eq, cond_mi, cond_vs}
use exec.Alu.Product.{get_d-sum}
use exec.Wide.{addd, subd, ldd}

-- A 16-bit value in D is read back from its two bytes.
split_word : (w : ℕ) → w < 65536 → w / 256 * 256 + w % 256 ≡ w
split_word w h = omega arith

pub get_d-ldd : (w : ℕ) (cpu : Cpu) → w < 65536 → get_d (ldd w cpu) ≡ w
get_d-ldd w cpu h =
    get_d-sum (ldd w cpu) (unfold ldd in omega arith) (unfold ldd in omega arith)
    ∙ unfold ldd in split_word w h

-- What a 16-bit addition or subtraction must leave in D and the condition codes.
pub record IsWordResult (exact : ℕ) (carry fits : Bool) (cpu : Cpu) : Type 0 where
  pub result : get_d cpu ≡ exact % 65536
  pub carry_out : cond_lo cpu ≡ carry
  pub overflow : cond_vs cpu ≡ not fits
  pub negative : cond_mi cpu ≡ leb 32768 (exact % 65536)
  pub zero_flag : cond_eq cpu ≡ (exact % 65536 == 0)

module _ (arg val : ℕ) (p : arg < 65536) (q : val < 65536) where
  sum_overflow :
      test_bit
        (shr
          (bit_and (bit_xor arg (low (add32 arg val) 16)) (bit_xor val (low (add32 arg val) 16)))
          8)
        7
      ≡ not (fits16 (signed16 arg +ℤ signed16 val))
  unfolding ◌+ℤ◌
  sum_overflow = ground (
    arith,
    bit_and_bit 15 (bit_xor arg (low (add32 arg val) 16)) (bit_xor val (low (add32 arg val) 16)),
    bit_xor_bit 15 arg (low (add32 arg val) 16),
    bit_xor_bit 15 val (low (add32 arg val) 16),
  )

  pub difference_overflow :
      test_bit (shr (bit_and (bit_xor arg val) (bit_xor arg (low (sub32 arg val) 16))) 8) 7
      ≡ not (fits16 (signed16 arg -ℤ signed16 val))
  unfolding ◌-ℤ◌
  difference_overflow = ground (
    arith,
    bit_and_bit 15 (bit_xor arg val) (bit_xor arg (low (sub32 arg val) 16)),
    bit_xor_bit 15 arg val,
    bit_xor_bit 15 arg (low (sub32 arg val) 16),
  )

-- For a 16-bit word and D in range, `addd` leaves the sum modulo 65536 in D, C and V are the
-- carry and the signed overflow of the exact sum, and N and Z the sign and the zero test of D.
pub addd-IsWordResult :
    (val : ℕ) (cpu : Cpu)
    → val < 65536
    → get_d cpu < 65536
    → IsWordResult
        (get_d cpu + val)
        (leb 65536 (get_d cpu + val))
        (fits16 (signed16 (get_d cpu) +ℤ signed16 val))
        (addd val cpu)
unfolding get_d
addd-IsWordResult val cpu q p = record {
  result =
      get_d-sum (addd val cpu) (unfold addd in omega arith) (unfold addd in omega arith)
      ∙ unfold addd in omega arith;
  carry_out = unfold addd cond_lo in ground arith;
  overflow = unfold addd cond_vs in sum_overflow (get_d cpu) val p q;
  negative = unfold addd cond_mi in ground arith;
  zero_flag = unfold addd cond_eq in ground arith;
}

-- For a 16-bit word and D in range, `subd` leaves the difference modulo 65536 in D, C and V are
-- the borrow and the signed overflow of the exact difference, and N and Z the sign and the zero
-- test of D.
pub subd-IsWordResult :
    (val : ℕ) (cpu : Cpu)
    → val < 65536
    → get_d cpu < 65536
    → IsWordResult
        (get_d cpu + 65536 - val)
        (ltb (get_d cpu) val)
        (fits16 (signed16 (get_d cpu) -ℤ signed16 val))
        (subd val cpu)
unfolding get_d
subd-IsWordResult val cpu q p = record {
  result =
      get_d-sum (subd val cpu) (unfold subd in omega arith) (unfold subd in omega arith)
      ∙ unfold subd in omega arith;
  carry_out = unfold subd cond_lo in ground arith;
  overflow = unfold subd cond_vs in difference_overflow (get_d cpu) val p q;
  negative = unfold subd cond_mi in ground arith;
  zero_flag = unfold subd cond_eq in ground arith;
}

-- For a 16-bit word and D in range, `addd` and `subd` leave the sum and the difference modulo
-- 65536 in D, with C and V the carry or borrow and the signed overflow of the exact sum or
-- difference, and N and Z the sign and the zero test of the word that is left in D.
pub arithmetic_exact16 :
    (val : ℕ) (cpu : Cpu)
    → val < 65536
    → get_d cpu < 65536
    → IsWordResult
        (get_d cpu + val)
        (leb 65536 (get_d cpu + val))
        (fits16 (signed16 (get_d cpu) +ℤ signed16 val))
        (addd val cpu)
      × IsWordResult
          (get_d cpu + 65536 - val)
          (ltb (get_d cpu) val)
          (fits16 (signed16 (get_d cpu) -ℤ signed16 val))
          (subd val cpu)
arithmetic_exact16 val cpu q p = (addd-IsWordResult val cpu q p, subd-IsWordResult val cpu q p)
