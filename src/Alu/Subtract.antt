-- ===== src/Alu/Subtract.antt =====
-- `sub`, `sbc`, `cmp` and `neg`: the result and the condition codes against exact arithmetic, and
-- the order that the branch conditions read after a comparison.
use exec.Base.{ℕ, ◌+◌, ◌-◌, ◌%◌, ◌≤◌, ◌<◌, ◌≡◌, refl, arith, ltb, leb, ◌==◌, not, bit_xor, bit_and}
use exec.Base.Int.{pos, ◌-ℤ◌, signed8, fits8, ltb_ℤ, leb_ℤ}
use exec.Base.Word.{nonzero, of_bool, sub32, low, test_bit}
use exec.Base.Bits.{bit_xor_bit, bit_and_bit}
use exec.Cpu.{Cpu}
use exec.Cpu.Flags.{
  cond_lo, cond_eq, cond_mi, cond_vs, cond_hi, cond_ls, cond_hs, cond_ne, cond_ge, cond_lt, cond_gt,
  cond_le,
}
use exec.Alu.{sub, sbc, cmp}

-- What an 8-bit subtraction with a borrow in must report; `res` is its result.
pub record IsDifference (arg val borrow : ℕ) (res : ℕ) (cpu : Cpu) : Type 0 where
  pub result : res ≡ (arg + 512 - val - borrow) % 256
  pub borrow_out : cond_lo cpu ≡ ltb arg (val + borrow)
  pub overflow : cond_vs cpu ≡ not (fits8 (signed8 arg -ℤ signed8 val -ℤ pos borrow))
  pub negative : cond_mi cpu ≡ leb 128 res
  pub zero_flag : cond_eq cpu ≡ (res == 0)

module _ (arg val borrow : ℕ) (p : arg < 256) (q : val < 256) (r : borrow ≤ 1) (res : ℕ)
    (e : res ≡ (arg + 512 - val - borrow) % 256) where
  -- Bit 7 of the value kept for OV is the signed overflow.
  difference_overflow :
      test_bit (bit_and (bit_xor arg val) (bit_xor arg res)) 7
      ≡ not (fits8 (signed8 arg -ℤ signed8 val -ℤ pos borrow))
  unfolding ◌-ℤ◌
  difference_overflow = ground (
    arith,
    bit_and_bit 7 (bit_xor arg val) (bit_xor arg res),
    bit_xor_bit 7 arg val,
    bit_xor_bit 7 arg res,
  )

-- For two bytes, `sbc` gives the difference less the carry flag modulo 256, C and V are the
-- borrow and the signed overflow of the exact difference, and N and Z the sign and the zero test
-- of the byte that results.
pub sbc-IsDifference :
    (arg val : ℕ) (cpu : Cpu)
    → arg < 256
    → val < 256
    → IsDifference arg val (of_bool (cond_lo cpu)) (sbc arg val cpu).0 (sbc arg val cpu).1
unfolding cond_lo
sbc-IsDifference arg val cpu p q = record {
  result = unfold sbc in ground arith;
  borrow_out = unfold sbc in ground arith;
  overflow =
      unfold sbc cond_vs in
      difference_overflow arg val (of_bool (nonzero cpu.c)) p q (ground arith)
        (low (sub32 (sub32 arg val) (of_bool (nonzero cpu.c))) 8) (ground arith);
  negative = unfold sbc cond_mi in ground arith;
  zero_flag = unfold sbc cond_eq in ground arith;
}

-- For two bytes, `sub` gives the difference modulo 256, whatever the carry flag, C and V are
-- the borrow and the signed overflow of the exact difference, and N and Z the sign and the zero
-- test of the byte that results.
pub sub-IsDifference :
    (arg val : ℕ) (cpu : Cpu)
    → arg < 256
    → val < 256
    → IsDifference arg val 0 (sub arg val cpu).0 (sub arg val cpu).1
sub-IsDifference arg val cpu p q = record {
  result = unfold sub in omega arith;
  borrow_out = unfold sub cond_lo in ground arith;
  overflow =
      unfold sub cond_vs in
      difference_overflow arg val 0 p q (omega arith) (low (sub32 arg val) 8) (omega arith);
  negative = unfold sub cond_mi in ground arith;
  zero_flag = unfold sub cond_eq in ground arith;
}

-- `cmp` sets the condition codes as `sub` does.
cmp-sub : (arg val : ℕ) (cpu : Cpu) → cmp arg val cpu ≡ (sub arg val cpu).1
unfolding cmp sub
cmp-sub arg val cpu = refl

-- After `cmp arg val`, each condition of a branch instruction reads the order of the two bytes, as
-- numbers or as signed numbers.
pub record Orders (arg val : ℕ) (cpu : Cpu) : Type 0 where
  pub hi : cond_hi cpu ≡ ltb val arg
  pub ls : cond_ls cpu ≡ leb arg val
  pub hs : cond_hs cpu ≡ leb val arg
  pub lo : cond_lo cpu ≡ ltb arg val
  pub ne : cond_ne cpu ≡ not (arg == val)
  pub eq : cond_eq cpu ≡ (arg == val)
  pub ge : cond_ge cpu ≡ leb_ℤ (signed8 val) (signed8 arg)
  pub lt : cond_lt cpu ≡ ltb_ℤ (signed8 arg) (signed8 val)
  pub gt : cond_gt cpu ≡ ltb_ℤ (signed8 val) (signed8 arg)
  pub le : cond_le cpu ≡ leb_ℤ (signed8 arg) (signed8 val)

module _ (arg val : ℕ) (p : arg < 256) (q : val < 256) where
  cmp_sign :
      test_bit
        (bit_xor
          (low (sub32 arg val) 8)
          (bit_and (bit_xor arg val) (bit_xor arg (low (sub32 arg val) 8))))
        7
      ≡ ltb_ℤ (signed8 arg) (signed8 val)
  cmp_sign = ground (
    arith,
    bit_xor_bit 7 (low (sub32 arg val) 8)
        (bit_and (bit_xor arg val) (bit_xor arg (low (sub32 arg val) 8))),
    bit_and_bit 7 (bit_xor arg val) (bit_xor arg (low (sub32 arg val) 8)),
    bit_xor_bit 7 arg val,
    bit_xor_bit 7 arg (low (sub32 arg val) 8),
  )

-- After `cmp` of two bytes, each of the ten conditions of the branch instructions reads the order
-- of the bytes: HI, LS, HS, LO, NE and EQ as unsigned numbers, GE, LT, GT and LE as signed ones.
pub cmp-Orders :
    (arg val : ℕ) (cpu : Cpu) → arg < 256 → val < 256 → Orders arg val (cmp arg val cpu)
cmp-Orders arg val cpu p q = record {
  hi = unfold cmp cond_hi in ground arith;
  ls = unfold cmp cond_ls in ground arith;
  hs = unfold cmp cond_hs in ground arith;
  lo = unfold cmp cond_lo in ground arith;
  ne = unfold cmp cond_ne in ground arith;
  eq = unfold cmp cond_eq in ground arith;
  ge = unfold cmp cond_ge in rw (cmp_sign arg val p q) (ground arith);
  lt = unfold cmp cond_lt in cmp_sign arg val p q;
  gt = unfold cmp cond_gt in rw (cmp_sign arg val p q) (ground arith);
  le = unfold cmp cond_le in rw (cmp_sign arg val p q) (ground arith);
}
