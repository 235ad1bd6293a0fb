-- ===== src/Alu/Shift.antt =====
-- The shifts and rotations `asl`, `asr`, `lsr`, `rol` and `ror`.
use exec.Base.{ℕ, ◌+◌, ◌*◌, ◌<◌, ◌≡◌, refl, arith, leb, ◌==◌, not, false, bit_or}
use exec.Base.Int.{pos, ◌+ℤ◌, signed8, fits8}
use exec.Base.Word.{nonzero, low, of_bool, shl32, add32}
use exec.Base.Bits.{bit_xor_bit}
use exec.Base.Table.{all_below, eq_of_table}
use exec.Cpu.{Cpu}
use exec.Cpu.Flags.{cond_lo, cond_eq, cond_mi, cond_vs}
use exec.Alu.{asl, asr, lsr, rol, ror}

-- The carry enters `ror` as bit 8.
carry_in : (arg : ℕ) → arg < 256 → bit_or arg 0x100 ≡ arg + 256
carry_in = eq_of_table 256 (λ x. bit_or x 0x100) (λ x. x + 256) (unfold all_below in refl)

-- For a byte, twice it is the result of `asl` and 256 times the carry flag; V, N and Z are the
-- signed overflow of the doubling, the sign and the zero test.
pub asl-doubles :
    (arg : ℕ) (cpu : Cpu)
    → arg < 256
    → ((asl arg cpu).0 + 256 * of_bool (cond_lo (asl arg cpu).1) ≡ 2 * arg)
      × (cond_vs (asl arg cpu).1 ≡ not (fits8 (signed8 arg +ℤ signed8 arg)))
      × (cond_mi (asl arg cpu).1 ≡ leb 128 (asl arg cpu).0)
      × (cond_eq (asl arg cpu).1 ≡ ((asl arg cpu).0 == 0))
unfolding asl cond_lo cond_vs cond_mi cond_eq
asl-doubles arg cpu p = (
  ground arith,
  unfold ◌+ℤ◌ in ground (arith, bit_xor_bit 7 arg (low (shl32 arg 1) 8)),
  ground arith,
  ground arith,
)

-- For a byte, it is twice the result of `lsr` and the carry flag; N is clear and Z is the zero
-- test of the result.
pub lsr-halves :
    (arg : ℕ) (cpu : Cpu)
    → arg < 256
    → (2 * (lsr arg cpu).0 + of_bool (cond_lo (lsr arg cpu).1) ≡ arg)
      × (cond_mi (lsr arg cpu).1 ≡ false)
      × (cond_eq (lsr arg cpu).1 ≡ ((lsr arg cpu).0 == 0))
unfolding lsr cond_lo cond_mi cond_eq
lsr-halves arg cpu p = (ground arith, ground arith, ground arith)

-- For a byte, the signed value is twice the signed result of `asr` and the carry flag; N and Z are
-- the sign and the zero test of the result.
pub asr-halves :
    (arg : ℕ) (cpu : Cpu)
    → arg < 256
    → (signed8 (asr arg cpu).0 +ℤ signed8 (asr arg cpu).0 +ℤ pos (of_bool (cond_lo (asr arg cpu).1))
        ≡ signed8 arg)
      × (cond_mi (asr arg cpu).1 ≡ leb 128 (asr arg cpu).0)
      × (cond_eq (asr arg cpu).1 ≡ ((asr arg cpu).0 == 0))
unfolding asr cond_lo cond_mi cond_eq
asr-halves arg cpu p = (unfold ◌+ℤ◌ in ground arith, ground arith, ground arith)

-- `ror` after `rol` gives the byte and the carry flag back.
pub ror-rol :
    (arg : ℕ) (cpu : Cpu)
    → arg < 256
    → let (res, rotated) = rol arg cpu in
      ((ror res rotated).0 ≡ arg) × (cond_lo (ror res rotated).1 ≡ cond_lo cpu)
unfolding rol ror cond_lo
ror-rol arg cpu p =
    ground (arith, carry_in (low (add32 (shl32 arg 1) (of_bool (nonzero cpu.c))) 8) (omega arith))

-- `rol` after `ror` gives the byte and the carry flag back.
pub rol-ror :
    (arg : ℕ) (cpu : Cpu)
    → arg < 256
    → let (res, rotated) = ror arg cpu in
      ((rol res rotated).0 ≡ arg) × (cond_lo (rol res rotated).1 ≡ cond_lo cpu)
unfolding rol ror cond_lo
rol-ror arg cpu p = ground (arith, carry_in arg p)
