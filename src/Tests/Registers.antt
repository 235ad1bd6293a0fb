-- ===== src/Tests/Registers.antt =====
-- The arithmetic and the register transfers (6809.c).
use exec.Base.{◌+◌, ◌-◌, ◌*◌, ◌≡◌, refl, arith, leb, ltb, not, true}
use exec.Base.Int.{pos, ◌+ℤ◌, ◌-ℤ◌, signed8, signed16, fits8, fits16}
use exec.Base.Word.{of_bool}
use exec.Cpu.{get_cc, set_cc, get_d}
use exec.Cpu.Cc
use exec.Cpu.Cc.{IsCc}
use exec.Cpu.Flags.{cond_lo, cond_vs}
use exec.Cpu.Registers.{InRange}
use exec.Alu.{adc, add, sbc, sub, cmp, neg, inc, dec, asl, lsr, asr, rol, ror}
use exec.Alu.Exact
use exec.Alu.Add.{IsSum}
use exec.Alu.Subtract
use exec.Alu.Subtract.{IsDifference, Orders}
use exec.Alu.Unary.{IsCount}
use exec.Alu.Decimal
use exec.Alu.Decimal.{adc_daa, bcd}
use exec.Wide.{addd, subd, cmp16}
use exec.Wide.Arithmetic
use exec.Wide.Arithmetic.{IsWordResult}
use exec.Wide.Compare
use exec.Wide.Compare.{Orders16}
use exec.Core.Transfer.{exchange, transfer}
use exec.Core.Transfer.Ranges
use exec.Core.Transfer.Ranges.{AllInRange}
use exec.Tests.{start}

pub start-InRange : InRange start
start-InRange = record {
  x_range = omega arith;
  y_range = omega arith;
  s_range = omega arith;
  u_range = omega arith;
  a_range = omega arith;
  b_range = omega arith;
  dp_range = omega arith;
  dp_page = refl;
  efi_range = omega arith;
}

get_cc-set_cc_example : get_cc (set_cc 0xa5 start) ≡ 0xa5
get_cc-set_cc_example = Cc.get_cc-set_cc 0xa5 start (omega arith)

cmp-Orders_example : Orders 0x80 0x7f (cmp 0x80 0x7f start)
cmp-Orders_example = Subtract.cmp-Orders 0x80 0x7f start (omega arith) (omega arith)

cmp16-Orders16_example : Orders16 0x8000 0x7fff (cmp16 0x8000 0x7fff start)
cmp16-Orders16_example = Compare.cmp16-Orders16 0x8000 0x7fff start (omega arith) (omega arith)

-- 55 + 55 and the carry: 111 in decimal, and 0x71 in A instead of 0x11.
adc_daa_decimal_example :
    ((adc_daa (bcd 5 5) (bcd 5 5) start).a ≡ 0x71)
    × (cond_lo (adc_daa (bcd 5 5) (bcd 5 5) start) ≡ true)
unfolding cond_lo
adc_daa_decimal_example =
    Decimal.adc_daa_decimal 5 5 5 5 start (omega arith) (omega arith) (omega arith) (omega arith)

arithmetic_exact_example :
    IsSum 0x7f 0x01 (of_bool (cond_lo start)) (adc 0x7f 0x01 start).0 (adc 0x7f 0x01 start).1
    × IsSum 0x7f 0x01 0 (add 0x7f 0x01 start).0 (add 0x7f 0x01 start).1
    × IsDifference 0x7f 0x01
        (of_bool (cond_lo start))
        (sbc 0x7f 0x01 start).0
        (sbc 0x7f 0x01 start).1
    × IsDifference 0x7f 0x01 0 (sub 0x7f 0x01 start).0 (sub 0x7f 0x01 start).1
    × IsDifference 0 0x7f 0 (neg 0x7f start).0 (neg 0x7f start).1
    × IsCount (0x7f + 1) (fits8 (signed8 0x7f +ℤ pos 1)) (inc 0x7f start).0 start (inc 0x7f start).1
    × IsCount
        (0x7f + 255)
        (fits8 (signed8 0x7f -ℤ pos 1))
        (dec 0x7f start).0
        start
        (dec 0x7f start).1
arithmetic_exact_example = Exact.arithmetic_exact 0x7f 0x01 start (omega arith) (omega arith)

shifts_exact_example :
    ((asl 0xc1 start).0 + 256 * of_bool (cond_lo (asl 0xc1 start).1) ≡ 2 * 0xc1)
    × (cond_vs (asl 0xc1 start).1 ≡ not (fits8 (signed8 0xc1 +ℤ signed8 0xc1)))
    × (2 * (lsr 0xc1 start).0 + of_bool (cond_lo (lsr 0xc1 start).1) ≡ 0xc1)
    × (signed8 (asr 0xc1 start).0
          +ℤ signed8 (asr 0xc1 start).0
          +ℤ pos (of_bool (cond_lo (asr 0xc1 start).1))
        ≡ signed8 0xc1)
    × ((ror (rol 0xc1 start).0 (rol 0xc1 start).1).0 ≡ 0xc1)
    × (cond_lo (ror (rol 0xc1 start).0 (rol 0xc1 start).1).1 ≡ cond_lo start)
shifts_exact_example = Exact.shifts_exact 0xc1 start (omega arith)

arithmetic_exact16_example :
    IsWordResult
      (get_d start + 0x8000)
      (leb 65536 (get_d start + 0x8000))
      (fits16 (signed16 (get_d start) +ℤ signed16 0x8000))
      (addd 0x8000 start)
    × IsWordResult
        (get_d start + 65536 - 0x8000)
        (ltb (get_d start) 0x8000)
        (fits16 (signed16 (get_d start) -ℤ signed16 0x8000))
        (subd 0x8000 start)
arithmetic_exact16_example =
    Arithmetic.arithmetic_exact16 0x8000 start (omega arith) (unfold get_d in omega arith)

-- A 16-bit number and an 8-bit number that name no register.
exchange-transfer-InRange_example :
    AllInRange (exchange 0x6f start) × AllInRange (transfer 0x6f start)
exchange-transfer-InRange_example =
    Ranges.exchange-transfer-InRange 0x6f start (omega arith)
      (record { registers = start-InRange; pc_range = omega arith })
