-- ===== src/Core/Execute/AccB.antt =====
-- The opcodes from 0xc0 (6809.c, `cpu_execute`): B, D and U.
use exec.Base.{ℕ, if◌then◌else◌, ◌==◌}
use exec.Base.Run.{M, ◌>>◌}
use exec.Alu.{adc, add, and, bit, cmp, eor, ld, or, sbc, sub}
use exec.Wide.{addd, ldd, ld16}
use exec.Core.Board.{Board, Sys}
use exec.Core.Memory.{spend, imm_byte, imm_word, direct, extended}
use exec.Core.Indexed.{indexed}
use exec.Core.Stack.{to_b}
use exec.Core.Interrupt.{to_u}
use exec.Core.Transfer.{st, std, st16}
use exec.Core.Operand.{binary, load, compare_with, apply, store, at_ea, at_ea16}

module _ {E : Type 0} (board : Board E) (illegal : M (Sys E) (Unit {0})) where
  -- The opcodes 0xc0 to 0xcf.
  unfoldable pub row_c : ℕ → M (Sys E) (Unit {0})
  row_c opcode =
      if opcode == 0xc0
      then (do spend 2; binary (λ c. c.b) to_b sub (imm_byte board))
      else if opcode == 0xc1
      then (do spend 2; compare_with (λ c. c.b) cmp (imm_byte board))
      else if opcode == 0xc2
      then (do spend 2; binary (λ c. c.b) to_b sbc (imm_byte board))
      else if opcode == 0xc3
      then (do spend 4; apply addd (imm_word board))
      else if opcode == 0xc4
      then (do spend 2; binary (λ c. c.b) to_b and (imm_byte board))
      else if opcode == 0xc5
      then (do spend 2; compare_with (λ c. c.b) bit (imm_byte board))
      else if opcode == 0xc6
      then (do spend 2; load to_b ld (imm_byte board))
      else if opcode == 0xc8
      then (do spend 2; binary (λ c. c.b) to_b eor (imm_byte board))
      else if opcode == 0xc9
      then (do spend 2; binary (λ c. c.b) to_b adc (imm_byte board))
      else if opcode == 0xca
      then (do spend 2; binary (λ c. c.b) to_b or (imm_byte board))
      else if opcode == 0xcb
      then (do spend 2; binary (λ c. c.b) to_b add (imm_byte board))
      else if opcode == 0xcc
      then (do spend 3; apply ldd (imm_word board))
      else if opcode == 0xce
      then (do spend 3; load to_u ld16 (imm_word board))
      else illegal

  -- The opcodes 0xd0 to 0xdf.
  unfoldable pub row_d : ℕ → M (Sys E) (Unit {0})
  row_d opcode =
      if opcode == 0xd0
      then (do direct board; spend 4; binary (λ c. c.b) to_b sub (at_ea board))
      else if opcode == 0xd1
      then (do direct board; spend 4; compare_with (λ c. c.b) cmp (at_ea board))
      else if opcode == 0xd2
      then (do direct board; spend 4; binary (λ c. c.b) to_b sbc (at_ea board))
      else if opcode == 0xd3
      then (do direct board; spend 4; apply addd (at_ea16 board); spend 1)
      else if opcode == 0xd4
      then (do direct board; spend 4; binary (λ c. c.b) to_b and (at_ea board))
      else if opcode == 0xd5
      then (do direct board; spend 4; compare_with (λ c. c.b) bit (at_ea board))
      else if opcode == 0xd6
      then (do direct board; spend 4; load to_b ld (at_ea board))
      else if opcode == 0xd7
      then (do direct board; spend 4; store (λ c. c.b) (st board))
      else if opcode == 0xd8
      then (do direct board; spend 4; binary (λ c. c.b) to_b eor (at_ea board))
      else if opcode == 0xd9
      then (do direct board; spend 4; binary (λ c. c.b) to_b adc (at_ea board))
      else if opcode == 0xda
      then (do direct board; spend 4; binary (λ c. c.b) to_b or (at_ea board))
      else if opcode == 0xdb
      then (do direct board; spend 4; binary (λ c. c.b) to_b add (at_ea board))
      else if opcode == 0xdc
      then (do direct board; spend 4; apply ldd (at_ea16 board))
      else if opcode == 0xdd
      then (do direct board; spend 4; std board)
      else if opcode == 0xde
      then (do direct board; spend 4; load to_u ld16 (at_ea16 board))
      else if opcode == 0xdf
      then (do direct board; spend 4; store (λ c. c.u) (st16 board))
      else illegal

  -- The opcodes 0xe0 to 0xef.
  unfoldable pub row_e : ℕ → M (Sys E) (Unit {0})
  row_e opcode =
      if opcode == 0xe0
      then (do indexed board; binary (λ c. c.b) to_b sub (at_ea board))
      else if opcode == 0xe1
      then (do indexed board; compare_with (λ c. c.b) cmp (at_ea board))
      else if opcode == 0xe2
      then (do indexed board; binary (λ c. c.b) to_b sbc (at_ea board))
      else if opcode == 0xe3
      then (do indexed board; apply addd (at_ea16 board); spend 1)
      else if opcode == 0xe4
      then (do indexed board; binary (λ c. c.b) to_b and (at_ea board))
      else if opcode == 0xe5
      then (do indexed board; compare_with (λ c. c.b) bit (at_ea board))
      else if opcode == 0xe6
      then (do indexed board; load to_b ld (at_ea board))
      else if opcode == 0xe7
      then (do indexed board; store (λ c. c.b) (st board))
      else if opcode == 0xe8
      then (do indexed board; binary (λ c. c.b) to_b eor (at_ea board))
      else if opcode == 0xe9
      then (do indexed board; binary (λ c. c.b) to_b adc (at_ea board))
      else if opcode == 0xea
      then (do indexed board; binary (λ c. c.b) to_b or (at_ea board))
      else if opcode == 0xeb
      then (do indexed board; binary (λ c. c.b) to_b add (at_ea board))
      else if opcode == 0xec
      then (do indexed board; apply ldd (at_ea16 board))
      else if opcode == 0xed
      then (do indexed board; std board)
      else if opcode == 0xee
      then (do indexed board; load to_u ld16 (at_ea16 board))
      else if opcode == 0xef
      then (do indexed board; store (λ c. c.u) (st16 board))
      else illegal

  -- The opcodes 0xf0 to 0xff.
  unfoldable pub row_f : ℕ → M (Sys E) (Unit {0})
  row_f opcode =
      if opcode == 0xf0
      then (do extended board; spend 5; binary (λ c. c.b) to_b sub (at_ea board))
      else if opcode == 0xf1
      then (do extended board; spend 5; compare_with (λ c. c.b) cmp (at_ea board))
      else if opcode == 0xf2
      then (do extended board; spend 5; binary (λ c. c.b) to_b sbc (at_ea board))
      else if opcode == 0xf3
      then (do extended board; spend 5; apply addd (at_ea16 board); spend 1)
      else if opcode == 0xf4
      then (do extended board; spend 5; binary (λ c. c.b) to_b and (at_ea board))
      else if opcode == 0xf5
      then (do extended board; spend 5; compare_with (λ c. c.b) bit (at_ea board))
      else if opcode == 0xf6
      then (do extended board; spend 5; load to_b ld (at_ea board))
      else if opcode == 0xf7
      then (do extended board; spend 5; store (λ c. c.b) (st board))
      else if opcode == 0xf8
      then (do extended board; spend 5; binary (λ c. c.b) to_b eor (at_ea board))
      else if opcode == 0xf9
      then (do extended board; spend 5; binary (λ c. c.b) to_b adc (at_ea board))
      else if opcode == 0xfa
      then (do extended board; spend 5; binary (λ c. c.b) to_b or (at_ea board))
      else if opcode == 0xfb
      then (do extended board; spend 5; binary (λ c. c.b) to_b add (at_ea board))
      else if opcode == 0xfc
      then (do extended board; spend 5; apply ldd (at_ea16 board))
      else if opcode == 0xfd
      then (do extended board; spend 5; std board)
      else if opcode == 0xfe
      then (do extended board; spend 5; load to_u ld16 (at_ea16 board))
      else if opcode == 0xff
      then (do extended board; spend 5; store (λ c. c.u) (st16 board))
      else illegal
