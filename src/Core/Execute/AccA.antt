-- ===== src/Core/Execute/AccA.antt =====
-- The opcodes from 0x80 to 0xbf (6809.c, `cpu_execute`): A, X and the stack pointer.
use exec.Base.{ℕ, if◌then◌else◌, ◌==◌}
use exec.Base.Run.{M, ◌>>◌}
use exec.Alu.{adc, add, and, bit, cmp, eor, ld, or, sbc, sub}
use exec.Wide.{cmp16, ld16, subd}
use exec.Core.Board.{Board, Sys}
use exec.Core.Memory.{spend, imm_byte, imm_word, direct, extended}
use exec.Core.Indexed.{indexed}
use exec.Core.Stack.{to_a, to_x, jsr}
use exec.Core.Transfer.{st, st16}
use exec.Core.Branch.{bsr}
use exec.Core.Operand.{binary, load, compare_with, apply, store, at_ea, at_ea16}

module _ {E : Type 0} (board : Board E) (illegal : M (Sys E) (Unit {0})) where
  -- The opcodes 0x80 to 0x8f.
  unfoldable pub row_8 : ℕ → M (Sys E) (Unit {0})
  row_8 opcode =
      if opcode == 0x80
      then (do spend 2; binary (λ c. c.a) to_a sub (imm_byte board))
      else if opcode == 0x81
      then (do spend 2; compare_with (λ c. c.a) cmp (imm_byte board))
      else if opcode == 0x82
      then (do spend 2; binary (λ c. c.a) to_a sbc (imm_byte board))
      else if opcode == 0x83
      then (do spend 4; apply subd (imm_word board))
      else if opcode == 0x84
      then (do spend 2; binary (λ c. c.a) to_a and (imm_byte board))
      else if opcode == 0x85
      then (do spend 2; compare_with (λ c. c.a) bit (imm_byte board))
      else if opcode == 0x86
      then (do spend 2; load to_a ld (imm_byte board))
      else if opcode == 0x88
      then (do spend 2; binary (λ c. c.a) to_a eor (imm_byte board))
      else if opcode == 0x89
      then (do spend 2; binary (λ c. c.a) to_a adc (imm_byte board))
      else if opcode == 0x8a
      then (do spend 2; binary (λ c. c.a) to_a or (imm_byte board))
      else if opcode == 0x8b
      then (do spend 2; binary (λ c. c.a) to_a add (imm_byte board))
      else if opcode == 0x8c
      then (do spend 4; compare_with (λ c. c.x) cmp16 (imm_word board))
      else if opcode == 0x8d
      then bsr board
      else if opcode == 0x8e
      then (do spend 3; load to_x ld16 (imm_word board))
      else illegal

  -- The opcodes 0x90 to 0x9f.
  unfoldable pub row_9 : ℕ → M (Sys E) (Unit {0})
  row_9 opcode =
      if opcode == 0x90
      then (do direct board; spend 4; binary (λ c. c.a) to_a sub (at_ea board))
      else if opcode == 0x91
      then (do direct board; spend 4; compare_with (λ c. c.a) cmp (at_ea board))
      else if opcode == 0x92
      then (do direct board; spend 4; binary (λ c. c.a) to_a sbc (at_ea board))
      else if opcode == 0x93
      then (do direct board; spend 4; apply subd (at_ea16 board); spend 1)
      else if opcode == 0x94
      then (do direct board; spend 4; binary (λ c. c.a) to_a and (at_ea board))
      else if opcode == 0x95
      then (do direct board; spend 4; compare_with (λ c. c.a) bit (at_ea board))
      else if opcode == 0x96
      then (do direct board; spend 4; load to_a ld (at_ea board))
      else if opcode == 0x97
      then (do direct board; spend 4; store (λ c. c.a) (st board))
      else if opcode == 0x98
      then (do direct board; spend 4; binary (λ c. c.a) to_a eor (at_ea board))
      else if opcode == 0x99
      then (do direct board; spend 4; binary (λ c. c.a) to_a adc (at_ea board))
      else if opcode == 0x9a
      then (do direct board; spend 4; binary (λ c. c.a) to_a or (at_ea board))
      else if opcode == 0x9b
      then (do direct board; spend 4; binary (λ c. c.a) to_a add (at_ea board))
      else if opcode == 0x9c
      then (do direct board; spend 4; compare_with (λ c. c.x) cmp16 (at_ea16 board); spend 1)
      else if opcode == 0x9d
      then (do direct board; spend 7; jsr board)
      else if opcode == 0x9e
      then (do direct board; spend 4; load to_x ld16 (at_ea16 board))
      else if opcode == 0x9f
      then (do direct board; spend 4; store (λ c. c.x) (st16 board))
      else illegal

  -- The opcodes 0xa0 to 0xaf.
  unfoldable pub row_a : ℕ → M (Sys E) (Unit {0})
  row_a opcode =
      if opcode == 0xa0
      then (do indexed board; binary (λ c. c.a) to_a sub (at_ea board))
      else if opcode == 0xa1
      then (do indexed board; compare_with (λ c. c.a) cmp (at_ea board))
      else if opcode == 0xa2
      then (do indexed board; binary (λ c. c.a) to_a sbc (at_ea board))
      else if opcode == 0xa3
      then (do indexed board; apply subd (at_ea16 board); spend 1)
      else if opcode == 0xa4
      then (do indexed board; binary (λ c. c.a) to_a and (at_ea board))
      else if opcode == 0xa5
      then (do indexed board; compare_with (λ c. c.a) bit (at_ea board))
      else if opcode == 0xa6
      then (do indexed board; load to_a ld (at_ea board))
      else if opcode == 0xa7
      then (do indexed board; store (λ c. c.a) (st board))
      else if opcode == 0xa8
      then (do indexed board; binary (λ c. c.a) to_a eor (at_ea board))
      else if opcode == 0xa9
      then (do indexed board; binary (λ c. c.a) to_a adc (at_ea board))
      else if opcode == 0xaa
      then (do indexed board; binary (λ c. c.a) to_a or (at_ea board))
      else if opcode == 0xab
      then (do indexed board; binary (λ c. c.a) to_a add (at_ea board))
      else if opcode == 0xac
      then (do indexed board; compare_with (λ c. c.x) cmp16 (at_ea16 board); spend 1)
      else if opcode == 0xad
      then (do indexed board; spend 3; jsr board)
      else if opcode == 0xae
      then (do indexed board; load to_x ld16 (at_ea16 board))
      else if opcode == 0xaf
      then (do indexed board; store (λ c. c.x) (st16 board))
      else illegal

  -- The opcodes 0xb0 to 0xbf.
  unfoldable pub row_b : ℕ → M (Sys E) (Unit {0})
  row_b opcode =
      if opcode == 0xb0
      then (do extended board; spend 5; binary (λ c. c.a) to_a sub (at_ea board))
      else if opcode == 0xb1
      then (do extended board; spend 5; compare_with (λ c. c.a) cmp (at_ea board))
      else if opcode == 0xb2
      then (do extended board; spend 5; binary (λ c. c.a) to_a sbc (at_ea board))
      else if opcode == 0xb3
      then (do extended board; spend 5; apply subd (at_ea16 board); spend 1)
      else if opcode == 0xb4
      then (do extended board; spend 5; binary (λ c. c.a) to_a and (at_ea board))
      else if opcode == 0xb5
      then (do extended board; spend 5; compare_with (λ c. c.a) bit (at_ea board))
      else if opcode == 0xb6
      then (do extended board; spend 5; load to_a ld (at_ea board))
      else if opcode == 0xb7
      then (do extended board; spend 5; store (λ c. c.a) (st board))
      else if opcode == 0xb8
      then (do extended board; spend 5; binary (λ c. c.a) to_a eor (at_ea board))
      else if opcode == 0xb9
      then (do extended board; spend 5; binary (λ c. c.a) to_a adc (at_ea board))
      else if opcode == 0xba
      then (do extended board; spend 5; binary (λ c. c.a) to_a or (at_ea board))
      else if opcode == 0xbb
      then (do extended board; spend 5; binary (λ c. c.a) to_a add (at_ea board))
      else if opcode == 0xbc
      then (do extended board; spend 5; compare_with (λ c. c.x) cmp16 (at_ea16 board); spend 1)
      else if opcode == 0xbd
      then (do extended board; spend 8; jsr board)
      else if opcode == 0xbe
      then (do extended board; spend 5; load to_x ld16 (at_ea16 board))
      else if opcode == 0xbf
      then (do extended board; spend 5; store (λ c. c.x) (st16 board))
      else illegal
