-- ===== src/Wide.antt =====
-- The 16-bit accumulator instructions that do not touch memory (6809.c, `abx` to `subd`).
pub mod Arithmetic
pub mod Compare
use exec.Base.{ℕ, ◌+◌, ◌*◌, ◌/◌, ◌%◌, ◌^◌, bit_and, bit_or, bit_xor}
use exec.Base.Word.{add32, sub32, shl32, shr, low, bit_value}
use exec.Cpu.{Cpu, tick}

unfoldable pub abx : Cpu → Cpu
abx cpu = tick 3 (record cpu { x = low (add32 cpu.x cpu.b) 16 })

unfoldable pub addd : ℕ → Cpu → Cpu
addd val cpu =
    let arg = bit_or (shl32 cpu.a 8) cpu.b in
    let sum = add32 arg val in
    let res = low sum 16 in
    record cpu {
      c = bit_value sum 16;
      z = res;
      ov = shr (bit_and (bit_xor arg res) (bit_xor val res)) 8;
      a = shr res 8;
      n = shr res 8;
      b = low res 8;
    }

unfoldable pub cmp16 : ℕ → ℕ → Cpu → Cpu
cmp16 arg val cpu =
    let diff = sub32 arg val in
    let res = low diff 16 in
    record cpu {
      c = bit_value diff 16;
      z = res;
      n = shr res 8;
      ov = shr (bit_and (bit_xor arg val) (bit_xor arg res)) 8;
    }

unfoldable pub ldd : ℕ → Cpu → Cpu
ldd arg cpu = record cpu { z = arg; a = shr arg 8; n = shr arg 8; b = low arg 8; ov = 0 }

unfoldable pub ld16 : ℕ → Cpu → ℕ × Cpu
ld16 arg cpu = (arg, record cpu { z = arg; n = shr arg 8; ov = 0 })

unfoldable pub subd : ℕ → Cpu → Cpu
subd val cpu =
    let arg = bit_or (shl32 cpu.a 8) cpu.b in
    let diff = sub32 arg val in
    let res = low diff 16 in
    record cpu {
      c = bit_value diff 16;
      z = res;
      ov = shr (bit_and (bit_xor arg val) (bit_xor arg res)) 8;
      a = shr res 8;
      n = shr res 8;
      b = low res 8;
    }
