-- ===== src/Cpu/Flags.antt =====
-- The condition tests of the branch instructions (6809.c, the `cond_` macros), and the half carry
-- that `get_cc` and `daa` test.
use exec.Base.{Bool, ◌==◌, ◌&&◌, ◌||◌, not, bit_xor}
use exec.Base.Word.{test_bit, nonzero}
use exec.Cpu.{Cpu}

unfoldable pub cond_hi : Cpu → Bool
cond_hi cpu = nonzero cpu.z && (cpu.c == 0)

unfoldable pub cond_ls : Cpu → Bool
cond_ls cpu = (cpu.z == 0) || nonzero cpu.c

unfoldable pub cond_hs : Cpu → Bool
cond_hs cpu = cpu.c == 0

unfoldable pub cond_lo : Cpu → Bool
cond_lo cpu = nonzero cpu.c

unfoldable pub cond_ne : Cpu → Bool
cond_ne cpu = nonzero cpu.z

unfoldable pub cond_eq : Cpu → Bool
cond_eq cpu = cpu.z == 0

unfoldable pub cond_vc : Cpu → Bool
cond_vc cpu = not (test_bit cpu.ov 7)

unfoldable pub cond_vs : Cpu → Bool
cond_vs cpu = test_bit cpu.ov 7

unfoldable pub cond_pl : Cpu → Bool
cond_pl cpu = not (test_bit cpu.n 7)

unfoldable pub cond_mi : Cpu → Bool
cond_mi cpu = test_bit cpu.n 7

unfoldable pub cond_ge : Cpu → Bool
cond_ge cpu = not (test_bit (bit_xor cpu.n cpu.ov) 7)

unfoldable pub cond_lt : Cpu → Bool
cond_lt cpu = test_bit (bit_xor cpu.n cpu.ov) 7

unfoldable pub cond_gt : Cpu → Bool
cond_gt cpu = not (test_bit (bit_xor cpu.n cpu.ov) 7) && nonzero cpu.z

unfoldable pub cond_le : Cpu → Bool
cond_le cpu = test_bit (bit_xor cpu.n cpu.ov) 7 || (cpu.z == 0)

-- `H & 0x10`, as `get_cc` and `daa` test it.
unfoldable pub half_carry : Cpu → Bool
half_carry cpu = test_bit cpu.h 4
