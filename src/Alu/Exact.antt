-- ===== src/Alu/Exact.antt =====
-- The 8-bit instructions together (6809.c).
use exec.Base.{ℕ, ◌+◌, ◌*◌, ◌<◌, ◌≡◌, not}
use exec.Base.Int.{pos, ◌+ℤ◌, ◌-ℤ◌, signed8, fits8}
use exec.Base.Word.{of_bool}
use exec.Cpu.{Cpu}
use exec.Cpu.Flags.{cond_lo, cond_vs}
use exec.Alu.{adc, add, sbc, sub, neg, inc, dec, asl, lsr, asr, rol, ror}
use exec.Alu.Add.{IsSum, adc-IsSum, add-IsSum}
use exec.Alu.Subtract.{IsDifference, sbc-IsDifference, sub-IsDifference}
use exec.Alu.Unary.{IsCount, neg-IsDifference, inc-IsCount, dec-IsCount}
use exec.Alu.Shift.{asl-doubles, lsr-halves, asr-halves, ror-rol}

-- For two bytes: `adc` and `add` give the sum modulo 256, with and without the carry flag, with C,
-- V and H the carry, the signed overflow and the carry out of the low digit of the exact sum, and
-- N and Z the sign and the zero test of the byte that results; `sbc` and `sub` give the
-- difference, with and without the carry flag, and `neg` that from 0, with C and V the borrow and
-- the signed overflow of the exact difference, and N and Z the sign and the zero test of the byte
-- that results; `inc` and `dec` give the next and the previous byte modulo 256, with V the signed
-- overflow of the exact result, and N and Z the sign and the zero test of the byte that results,
-- and keep C.
pub arithmetic_exact :
    (arg val : ℕ) (cpu : Cpu)
    → arg < 256
    → val < 256
    → IsSum arg val (of_bool (cond_lo cpu)) (adc arg val cpu).0 (adc arg val cpu).1
      × IsSum arg val 0 (add arg val cpu).0 (add arg val cpu).1
      × IsDifference arg val (of_bool (cond_lo cpu)) (sbc arg val cpu).0 (sbc arg val cpu).1
      × IsDifference arg val 0 (sub arg val cpu).0 (sub arg val cpu).1
      × IsDifference 0 arg 0 (neg arg cpu).0 (neg arg cpu).1
      × IsCount (arg + 1) (fits8 (signed8 arg +ℤ pos 1)) (inc arg cpu).0 cpu (inc arg cpu).1
      × IsCount (arg + 255) (fits8 (signed8 arg -ℤ pos 1)) (dec arg cpu).0 cpu (dec arg cpu).1
arithmetic_exact arg val cpu p q = (
  adc-IsSum arg val cpu p q,
  add-IsSum arg val cpu p q,
  sbc-IsDifference arg val cpu p q,
  sub-IsDifference arg val cpu p q,
  neg-IsDifference arg cpu p,
  inc-IsCount arg cpu p,
  dec-IsCount arg cpu p,
)

-- For a byte: twice it is the result of `asl` and 256 times the carry flag, with V the signed
-- overflow of the doubling; it is twice the result of `lsr` and the carry flag; its signed value
-- is twice the signed result of `asr` and the carry flag; and `ror` after `rol` gives the byte and
-- the carry flag back.
pub shifts_exact :
    (arg : ℕ) (cpu : Cpu)
    → arg < 256
    → ((asl arg cpu).0 + 256 * of_bool (cond_lo (asl arg cpu).1) ≡ 2 * arg)
      × (cond_vs (asl arg cpu).1 ≡ not (fits8 (signed8 arg +ℤ signed8 arg)))
      × (2 * (lsr arg cpu).0 + of_bool (cond_lo (lsr arg cpu).1) ≡ arg)
      × (signed8 (asr arg cpu).0
            +ℤ signed8 (asr arg cpu).0
            +ℤ pos (of_bool (cond_lo (asr arg cpu).1))
          ≡ signed8 arg)
      × ((ror (rol arg cpu).0 (rol arg cpu).1).0 ≡ arg)
      × (cond_lo (ror (rol arg cpu).0 (rol arg cpu).1).1 ≡ cond_lo cpu)
shifts_exact arg cpu p =
    let (doubled, overflow, _, _) = asl-doubles arg cpu p in
    let (restored, carried) = ror-rol arg cpu p in
    (doubled, overflow, (lsr-halves arg cpu p).0, (asr-halves arg cpu p).0, restored, carried)
