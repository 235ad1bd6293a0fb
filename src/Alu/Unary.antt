-- ===== src/Alu/Unary.antt =====
-- `neg`, `com`, `inc` and `dec`: the result and the condition codes against exact arithmetic.
use exec.Base.{ℕ, ◌+◌, ◌-◌, ◌%◌, ◌<◌, ◌≡◌, refl, arith, leb, ◌==◌, not, Bool, bit_xor}
use exec.Base.Int.{pos, ◌+ℤ◌, ◌-ℤ◌, signed8, fits8}
use exec.Base.Word.{low, sub32, add32, not32}
use exec.Base.Bits.{bit_and_bit}
use exec.Base.Table.{all_below, eq_of_table}
use exec.Cpu.{Cpu}
use exec.Cpu.Flags.{cond_lo, cond_eq, cond_mi, cond_vs}
use exec.Alu.{neg, complement, inc, dec}
use exec.Alu.Subtract.{IsDifference}

-- For a byte, `neg` gives the difference from 0 modulo 256, C and V are the borrow and the signed
-- overflow of the exact difference, and N and Z the sign and the zero test of the byte that results.
pub neg-IsDifference :
    (arg : ℕ) (cpu : Cpu) → arg < 256 → IsDifference 0 arg 0 (neg arg cpu).0 (neg arg cpu).1
neg-IsDifference arg cpu p = record {
  result = unfold neg in omega arith;
  borrow_out = unfold neg cond_lo in ground arith;
  overflow = unfold neg cond_vs ◌-ℤ◌ in ground (arith, bit_and_bit 7 (low (sub32 0 arg) 8) arg);
  negative = unfold neg cond_mi in ground arith;
  zero_flag = unfold neg cond_eq in ground arith;
}

-- What a step of a counter by one must report: N, Z and the signed overflow, and an unchanged carry.
pub record IsCount (exact : ℕ) (fits : Bool) (res : ℕ) (before after : Cpu) : Type 0 where
  pub result : res ≡ exact % 256
  pub overflow : cond_vs after ≡ not fits
  pub negative : cond_mi after ≡ leb 128 res
  pub zero_flag : cond_eq after ≡ (res == 0)
  pub carry_kept : cond_lo after ≡ cond_lo before

-- For a byte, `inc` gives the next byte modulo 256, V, N and Z are the signed overflow, the sign
-- and the zero test, and C is unchanged.
pub inc-IsCount :
    (arg : ℕ) (cpu : Cpu)
    → arg < 256
    → IsCount (arg + 1) (fits8 (signed8 arg +ℤ pos 1)) (inc arg cpu).0 cpu (inc arg cpu).1
inc-IsCount arg cpu p = record {
  result = unfold inc in omega arith;
  overflow =
      unfold inc cond_vs ◌+ℤ◌ in ground (arith, bit_and_bit 7 (not32 arg) (low (add32 arg 1) 8));
  negative = unfold inc cond_mi in ground arith;
  zero_flag = unfold inc cond_eq in ground arith;
  carry_kept = unfold inc cond_lo in refl;
}

-- For a byte, `dec` gives the byte before modulo 256, V, N and Z are the signed overflow, the sign
-- and the zero test, and C is unchanged.
pub dec-IsCount :
    (arg : ℕ) (cpu : Cpu)
    → arg < 256
    → IsCount (arg + 255) (fits8 (signed8 arg -ℤ pos 1)) (dec arg cpu).0 cpu (dec arg cpu).1
dec-IsCount arg cpu p = record {
  result = unfold dec in omega arith;
  overflow =
      unfold dec cond_vs ◌-ℤ◌ in ground (arith, bit_and_bit 7 arg (not32 (low (sub32 arg 1) 8)));
  negative = unfold dec cond_mi in ground arith;
  zero_flag = unfold dec cond_eq in ground arith;
  carry_kept = unfold dec cond_lo in refl;
}

complement_byte : (arg : ℕ) → arg < 256 → bit_xor arg 0xff ≡ 255 - arg
complement_byte = eq_of_table 256 (λ x. bit_xor x 0xff) (λ x. 255 - x) (unfold all_below in refl)

-- `com` and `neg` differ by one: the two's complement is the one's complement plus one.
pub neg-complement :
    (arg : ℕ) (cpu : Cpu) → arg < 256 → (neg arg cpu).0 ≡ (inc (complement arg cpu).0 cpu).0
unfolding neg inc complement
neg-complement arg cpu p = omega (arith, complement_byte arg p)
