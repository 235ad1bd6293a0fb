-- ===== src/Wide/Compare.antt =====
-- The order that the branch conditions read after a 16-bit comparison.
use exec.Base.{ℕ, ◌<◌, ◌≡◌, arith, leb, ltb, ◌==◌, not, bit_and, bit_xor}
use exec.Base.Int.{signed16, ltb_ℤ, leb_ℤ}
use exec.Base.Word.{low, shr, sub32, test_bit}
use exec.Base.Bits.{bit_and_bit, bit_xor_bit}
use exec.Cpu.{Cpu}
use exec.Cpu.Flags.{
  cond_lo, cond_eq, cond_hi, cond_ls, cond_hs, cond_ne, cond_ge, cond_lt, cond_gt, cond_le,
}
use exec.Wide.{cmp16}

-- After `cmp16 arg val`, each condition of a branch instruction reads the order of the two words, as
-- numbers or as signed numbers.
pub record Orders16 (arg val : ℕ) (cpu : Cpu) : Type 0 where
  pub hi : cond_hi cpu ≡ ltb val arg
  pub ls : cond_ls cpu ≡ leb arg val
  pub hs : cond_hs cpu ≡ leb val arg
  pub lo : cond_lo cpu ≡ ltb arg val
  pub ne : cond_ne cpu ≡ not (arg == val)
  pub eq : cond_eq cpu ≡ (arg == val)
  pub ge : cond_ge cpu ≡ leb_ℤ (signed16 val) (signed16 arg)
  pub lt : cond_lt cpu ≡ ltb_ℤ (signed16 arg) (signed16 val)
  pub gt : cond_gt cpu ≡ ltb_ℤ (signed16 val) (signed16 arg)
  pub le : cond_le cpu ≡ leb_ℤ (signed16 arg) (signed16 val)

module _ (arg val : ℕ) (p : arg < 65536) (q : val < 65536) where
  abbrev res : ℕ
  res = low (sub32 arg val) 16

  abbrev ov : ℕ
  ov = bit_and (bit_xor arg val) (bit_xor arg res)

  cmp16_sign : test_bit (bit_xor (shr res 8) (shr ov 8)) 7 ≡ ltb_ℤ (signed16 arg) (signed16 val)
  cmp16_sign = ground (
    arith,
    bit_xor_bit 7 (shr res 8) (shr ov 8),
    bit_and_bit 15 (bit_xor arg val) (bit_xor arg res),
    bit_xor_bit 15 arg val,
    bit_xor_bit 15 arg res,
  )

-- After `cmp16` of two 16-bit words, each of the ten conditions of the branch instructions reads
-- the order of the words: HI, LS, HS, LO, NE and EQ as unsigned numbers, GE, LT, GT and LE as
-- signed ones.
pub cmp16-Orders16 :
    (arg val : ℕ) (cpu : Cpu) → arg < 65536 → val < 65536 → Orders16 arg val (cmp16 arg val cpu)
cmp16-Orders16 arg val cpu p q = record {
  hi = unfold cmp16 cond_hi in ground arith;
  ls = unfold cmp16 cond_ls in ground arith;
  hs = unfold cmp16 cond_hs in ground arith;
  lo = unfold cmp16 cond_lo in ground arith;
  ne = unfold cmp16 cond_ne in ground arith;
  eq = unfold cmp16 cond_eq in ground arith;
  ge = unfold cmp16 cond_ge in rw (cmp16_sign arg val p q) (ground arith);
  lt = unfold cmp16 cond_lt in cmp16_sign arg val p q;
  gt = unfold cmp16 cond_gt in rw (cmp16_sign arg val p q) (ground arith);
  le = unfold cmp16 cond_le in rw (cmp16_sign arg val p q) (ground arith);
}
