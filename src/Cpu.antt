-- ===== src/Cpu.antt =====
-- The register file and the condition codes (6809.c: the globals `X` to `firqs_pending`, the
-- `get_` and `set_` functions, `get_cc`, `set_cc`, `get_reg`, `set_reg`), in the build without H6309.
-- A register is the `unsigned` that the source keeps, so its range is an invariant, not a type.
pub mod Cc
pub mod Flags
pub mod Registers
use exec.Base.{
  ℕ, ◌+◌, ◌-◌, ◌*◌, ◌/◌, ◌%◌, ◌^◌, ◌<◌, ◌≤◌, ◌≡◌, Bool, bit_and, bit_or, bit_xor, if◌then◌else◌,
  ◌==◌, ◌&&◌, ◌||◌, not,
}
use exec.Base.Int.{ℤ, pos, negsuc, ◌+ℤ◌, ◌-ℤ◌}
use exec.Base.Word.{shl32, shr, low, bit_value, test_bit, nonzero, not32}

pub record Cpu : Type 0 where
  pub x : ℕ
  pub y : ℕ
  pub s : ℕ
  pub u : ℕ
  pub pc : ℕ
  pub a : ℕ
  pub b : ℕ
  -- the direct page, already shifted to the high byte
  pub dp : ℕ
  -- the condition codes are kept as values that are tested on demand: H by bit 4, N and OV by
  -- bit 7, Z is set when `z` is zero, C when `c` is not
  pub h : ℕ
  pub n : ℕ
  pub z : ℕ
  pub ov : ℕ
  pub c : ℕ
  -- the E, F and I flags at their places
  pub efi : ℕ
  pub ipc : ℕ
  pub ea : ℕ
  pub clk : ℤ
  pub period : ℤ
  pub total : ℕ
  pub irq_start_time : ℕ
  pub irqs_pending : ℕ
  pub firqs_pending : ℕ
  pub cc_changed : ℕ

-- `cpu_clk -= k`.
abbrev pub tick : ℕ → Cpu → Cpu
tick k cpu = record cpu { clk = cpu.clk -ℤ pos k }

-- The conversion of a signed sum to `unsigned long`.
abbrev pub wrap64 : ℤ → ℕ
wrap64 (pos k) = k % 2 ^ 64
wrap64 (negsuc k) = 2 ^ 64 - 1 - k % 2 ^ 64

unfoldable pub get_cycles : Cpu → ℕ
get_cycles cpu = wrap64 (pos cpu.total +ℤ cpu.period -ℤ cpu.clk)

unfoldable pub get_d : Cpu → ℕ
get_d cpu = bit_or (shl32 cpu.a 8) cpu.b

unfoldable pub get_dp : Cpu → ℕ
get_dp cpu = shr cpu.dp 8

unfoldable pub get_pc : Cpu → ℕ
get_pc cpu = low cpu.pc 16

unfoldable pub set_a : ℕ → Cpu → Cpu
set_a val cpu = record cpu { a = low val 8 }

unfoldable pub set_b : ℕ → Cpu → Cpu
set_b val cpu = record cpu { b = low val 8 }

unfoldable pub set_dp : ℕ → Cpu → Cpu
set_dp val cpu = record cpu { dp = low val 8 * 2 ^ 8 }

unfoldable pub set_x : ℕ → Cpu → Cpu
set_x val cpu = record cpu { x = low val 16 }

unfoldable pub set_y : ℕ → Cpu → Cpu
set_y val cpu = record cpu { y = low val 16 }

unfoldable pub set_s : ℕ → Cpu → Cpu
set_s val cpu = record cpu { s = low val 16 }

unfoldable pub set_u : ℕ → Cpu → Cpu
set_u val cpu = record cpu { u = low val 16 }

unfoldable pub set_pc : ℕ → Cpu → Cpu
set_pc val cpu = record cpu { pc = low val 16 }

unfoldable pub set_d : ℕ → Cpu → Cpu
set_d val cpu = record cpu { a = low (shr val 8) 8; b = low val 8 }

-- E_FLAG | F_FLAG | I_FLAG.
abbrev pub efi_mask : ℕ
efi_mask = 0xd0

-- The five `if (...) res |= FLAG` of `get_cc`, one after the other.
unfoldable pub get_cc : Cpu → ℕ
get_cc cpu =
    let r0 = bit_and cpu.efi efi_mask in
    let r1 = if test_bit cpu.h 4 then bit_or r0 0x20 else r0 in
    let r2 = if test_bit cpu.n 7 then bit_or r1 0x08 else r1 in
    let r3 = if cpu.z == 0 then bit_or r2 0x04 else r2 in
    let r4 = if test_bit cpu.ov 7 then bit_or r3 0x02 else r3 in
    if nonzero cpu.c then bit_or r4 0x01 else r4

unfoldable pub set_cc : ℕ → Cpu → Cpu
set_cc arg cpu = record cpu {
  efi = bit_and arg efi_mask;
  h = if test_bit arg 5 then 0x10 else 0;
  n = if test_bit arg 3 then 0x80 else 0;
  z = bit_and (not32 arg) 0x04;
  ov = if test_bit arg 1 then 0x80 else 0;
  c = bit_value arg 0;
  cc_changed = 1;
}

-- A register number that is not listed reads 0xff.
unfoldable pub get_reg : ℕ → Cpu → ℕ
get_reg nro cpu =
    if nro == 0
    then bit_or (shl32 cpu.a 8) cpu.b
    else if nro == 1
    then cpu.x
    else if nro == 2
    then cpu.y
    else if nro == 3
    then cpu.u
    else if nro == 4
    then cpu.s
    else if nro == 5
    then low cpu.pc 16
    else if nro == 8
    then cpu.a
    else if nro == 9
    then cpu.b
    else if nro == 10
    then get_cc cpu
    else if nro == 11
    then shr cpu.dp 8
    else 0xff

-- A register number that is not listed is ignored.
unfoldable pub set_reg : ℕ → ℕ → Cpu → Cpu
set_reg nro val cpu =
    if nro == 0
    then record cpu { a = shr val 8; b = low val 8 }
    else if nro == 1
    then record cpu { x = val }
    else if nro == 2
    then record cpu { y = val }
    else if nro == 3
    then record cpu { u = val }
    else if nro == 4
    then record cpu { s = val }
    else if nro == 5
    then record cpu { pc = val }
    else if nro == 8
    then record cpu { a = val }
    else if nro == 9
    then record cpu { b = val }
    else if nro == 10
    then set_cc val cpu
    else if nro == 11
    then record cpu { dp = shl32 val 8 }
    else cpu
