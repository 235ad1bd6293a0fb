-- ===== src/Alu.antt =====
-- The 8-bit accumulator and memory instructions (6809.c, `adc` to `tst`, `daa`, `mul` and `sex`).
-- `com` is spelled `complement`, since the former is a reserved word.
-- Each returns its result and the register file with the new condition codes. Arguments are
-- `unsigned`; every chained assignment `N = Z = res &= 0xff` is written out.
pub mod Exact
pub mod Add
pub mod Subtract
pub mod Unary
pub mod Shift
pub mod Decimal
pub mod Product
use exec.Base.{
  ℕ, ◌+◌, ◌-◌, ◌*◌, ◌/◌, ◌%◌, ◌^◌, Bool, bit_and, bit_or, bit_xor, if◌then◌else◌, ltb, ◌==◌, ◌&&◌,
  ◌||◌,
}
use exec.Base.Word.{
  add32, sub32, shl32, shr, low, bit_value, test_bit, nonzero, of_bool, not32, sext8,
}
use exec.Cpu.{Cpu, tick}

unfoldable pub adc : ℕ → ℕ → Cpu → ℕ × Cpu
adc arg val cpu =
    let sum = add32 (add32 arg val) (of_bool (nonzero cpu.c)) in
    let carry = bit_value (shr sum 1) 7 in
    let res = low sum 8 in
    let ov = bit_xor (bit_xor (bit_xor arg val) res) carry in
    (res, record cpu { c = carry; n = res; z = res; h = ov; ov = ov })

unfoldable pub add : ℕ → ℕ → Cpu → ℕ × Cpu
add arg val cpu =
    let sum = add32 arg val in
    let carry = bit_value (shr sum 1) 7 in
    let res = low sum 8 in
    let ov = bit_xor (bit_xor (bit_xor arg val) res) carry in
    (res, record cpu { c = carry; n = res; z = res; h = ov; ov = ov })

unfoldable pub and : ℕ → ℕ → Cpu → ℕ × Cpu
and arg val cpu = let res = bit_and arg val in (res, record cpu { n = res; z = res; ov = 0 })

unfoldable pub asl : ℕ → Cpu → ℕ × Cpu
asl arg cpu =
    let wide = shl32 arg 1 in
    let res = low wide 8 in
    (res, tick 2 (record cpu { c = bit_value wide 8; n = res; z = res; ov = bit_xor arg res }))

unfoldable pub asr : ℕ → Cpu → ℕ × Cpu
asr arg cpu =
    let wide = sext8 arg in
    let res = low (shr wide 1) 8 in
    (res, tick 2 (record cpu { c = bit_value wide 0; n = res; z = res }))

unfoldable pub bit : ℕ → ℕ → Cpu → Cpu
bit arg val cpu = let res = bit_and arg val in record cpu { n = res; z = res; ov = 0 }

unfoldable pub clr : ℕ → Cpu → ℕ × Cpu
clr arg cpu = (0, tick 2 (record cpu { c = 0; n = 0; z = 0; ov = 0 }))

unfoldable pub cmp : ℕ → ℕ → Cpu → Cpu
cmp arg val cpu =
    let diff = sub32 arg val in
    let res = low diff 8 in
    record cpu {
      c = bit_value diff 8;
      n = res;
      z = res;
      ov = bit_and (bit_xor arg val) (bit_xor arg res);
    }

unfoldable pub complement : ℕ → Cpu → ℕ × Cpu
complement arg cpu =
    let res = bit_xor arg 0xff in (res, tick 2 (record cpu { n = res; z = res; ov = 0; c = 1 }))

-- The three corrections are added one after the other; `C |= (res & 0x100)`.
unfoldable pub daa : Cpu → Cpu
daa cpu =
    let msn = bit_and cpu.a 0xf0 in
    let lsn = low cpu.a 4 in
    let r1 = if ltb 0x09 lsn || test_bit cpu.h 4 then add32 cpu.a 0x06 else cpu.a in
    let r2 = if ltb 0x80 msn && ltb 0x09 lsn then add32 r1 0x60 else r1 in
    let r3 = if ltb 0x90 msn || nonzero cpu.c then add32 r2 0x60 else r2 in
    let res = low r3 8 in
    tick 2 (record cpu { c = bit_or cpu.c (bit_value r3 8); a = res; n = res; z = res; ov = 0 })

unfoldable pub dec : ℕ → Cpu → ℕ × Cpu
dec arg cpu =
    let res = low (sub32 arg 1) 8 in
    (res, tick 2 (record cpu { n = res; z = res; ov = bit_and arg (not32 res) }))

unfoldable pub eor : ℕ → ℕ → Cpu → ℕ × Cpu
eor arg val cpu = let res = bit_xor arg val in (res, record cpu { n = res; z = res; ov = 0 })

unfoldable pub inc : ℕ → Cpu → ℕ × Cpu
inc arg cpu =
    let res = low (add32 arg 1) 8 in
    (res, tick 2 (record cpu { n = res; z = res; ov = bit_and (not32 arg) res }))

unfoldable pub ld : ℕ → Cpu → ℕ × Cpu
ld arg cpu = (arg, record cpu { n = arg; z = arg; ov = 0 })

unfoldable pub lsr : ℕ → Cpu → ℕ × Cpu
lsr arg cpu =
    let res = shr arg 1 in (res, tick 2 (record cpu { n = 0; z = res; c = bit_value arg 0 }))

unfoldable pub mul : Cpu → Cpu
mul cpu =
    let res = low (cpu.a * cpu.b % 2 ^ 32) 16 in
    tick 11 (record cpu { z = res; c = bit_value res 7; a = shr res 8; b = low res 8 })

-- The parameter of `neg` is an `int`; `-arg` is taken modulo 2 ^ 32.
unfoldable pub neg : ℕ → Cpu → ℕ × Cpu
neg arg cpu =
    let res = low (sub32 0 arg) 8 in
    (res, tick 2 (record cpu { c = res; n = res; z = res; ov = bit_and res arg }))

unfoldable pub or : ℕ → ℕ → Cpu → ℕ × Cpu
or arg val cpu = let res = bit_or arg val in (res, record cpu { n = res; z = res; ov = 0 })

unfoldable pub rol : ℕ → Cpu → ℕ × Cpu
rol arg cpu =
    let wide = add32 (shl32 arg 1) (of_bool (nonzero cpu.c)) in
    let res = low wide 8 in
    (res, tick 2 (record cpu { c = bit_value wide 8; n = res; z = res; ov = bit_xor arg res }))

unfoldable pub ror : ℕ → Cpu → ℕ × Cpu
ror arg cpu =
    let wide = if nonzero cpu.c then bit_or arg 0x100 else arg in
    let res = shr wide 1 in (res, tick 2 (record cpu { c = bit_value wide 0; n = res; z = res }))

unfoldable pub sbc : ℕ → ℕ → Cpu → ℕ × Cpu
sbc arg val cpu =
    let diff = sub32 (sub32 arg val) (of_bool (nonzero cpu.c)) in
    let res = low diff 8 in
    (
      res,
      record cpu {
        c = bit_value diff 8;
        n = res;
        z = res;
        ov = bit_and (bit_xor arg val) (bit_xor arg res);
      },
    )

unfoldable pub sub : ℕ → ℕ → Cpu → ℕ × Cpu
sub arg val cpu =
    let diff = sub32 arg val in
    let res = low diff 8 in
    (
      res,
      record cpu {
        c = bit_value diff 8;
        n = res;
        z = res;
        ov = bit_and (bit_xor arg val) (bit_xor arg res);
      },
    )

unfoldable pub tst : ℕ → Cpu → Cpu
tst arg cpu = tick 2 (record cpu { n = arg; z = arg; ov = 0 })

unfoldable pub sex : Cpu → Cpu
sex cpu =
    let sign = bit_value cpu.b 7 in
    tick 2 (record cpu { z = cpu.b; n = sign; a = if nonzero sign then 0xff else sign })
