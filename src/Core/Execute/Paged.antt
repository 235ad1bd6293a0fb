-- ===== src/Core/Execute/Paged.antt =====
-- The opcodes behind the prefixes 0x10 and 0x11 (6809.c, `cpu_execute`).
use exec.Base.{ℕ, if◌then◌else◌, ◌==◌}
use exec.Base.Word.{add32}
use exec.Base.Run.{M, ◌>>◌}
use exec.Cpu.{get_d}
use exec.Cpu.Flags.{
  cond_hi, cond_ls, cond_hs, cond_lo, cond_ne, cond_eq, cond_vc, cond_vs, cond_pl, cond_mi, cond_ge,
  cond_lt, cond_gt, cond_le,
}
use exec.Wide.{cmp16, ld16}
use exec.Core.Board.{Board, Sys, on_cpu}
use exec.Core.Memory.{spend, imm_word, direct, extended}
use exec.Core.Indexed.{indexed}
use exec.Core.Stack.{to_s, to_y}
use exec.Core.Interrupt.{swi2, swi3}
use exec.Core.Transfer.{st16}
use exec.Core.Branch.{long_branch}
use exec.Core.Operand.{load, compare_with, store, on_condition, at_ea16}

module _ {E : Type 0} (board : Board E) (illegal : M (Sys E) (Unit {0})) where
  -- Behind 0x10, below 0x40.
  unfoldable pub page_2_low : ℕ → M (Sys E) (Unit {0})
  page_2_low opcode =
      if opcode == 0x21
      then (do spend 5; on_cpu (λ cpu. record cpu { pc = add32 cpu.pc 2 }))
      else if opcode == 0x22
      then on_condition cond_hi (long_branch board)
      else if opcode == 0x23
      then on_condition cond_ls (long_branch board)
      else if opcode == 0x24
      then on_condition cond_hs (long_branch board)
      else if opcode == 0x25
      then on_condition cond_lo (long_branch board)
      else if opcode == 0x26
      then on_condition cond_ne (long_branch board)
      else if opcode == 0x27
      then on_condition cond_eq (long_branch board)
      else if opcode == 0x28
      then on_condition cond_vc (long_branch board)
      else if opcode == 0x29
      then on_condition cond_vs (long_branch board)
      else if opcode == 0x2a
      then on_condition cond_pl (long_branch board)
      else if opcode == 0x2b
      then on_condition cond_mi (long_branch board)
      else if opcode == 0x2c
      then on_condition cond_ge (long_branch board)
      else if opcode == 0x2d
      then on_condition cond_lt (long_branch board)
      else if opcode == 0x2e
      then on_condition cond_gt (long_branch board)
      else if opcode == 0x2f
      then on_condition cond_le (long_branch board)
      else if opcode == 0x3f
      then swi2 board
      else illegal

  -- Behind 0x10, from 0x40.
  unfoldable pub page_2_high : ℕ → M (Sys E) (Unit {0})
  page_2_high opcode =
      if opcode == 0x83
      then (do spend 5; compare_with get_d cmp16 (imm_word board))
      else if opcode == 0x8c
      then (do spend 5; compare_with (λ c. c.y) cmp16 (imm_word board))
      else if opcode == 0x8e
      then (do spend 4; load to_y ld16 (imm_word board))
      else if opcode == 0x93
      then (do direct board; spend 5; compare_with get_d cmp16 (at_ea16 board); spend 1)
      else if opcode == 0x9c
      then (do direct board; spend 5; compare_with (λ c. c.y) cmp16 (at_ea16 board); spend 1)
      else if opcode == 0x9e
      then (do direct board; spend 5; load to_y ld16 (at_ea16 board))
      else if opcode == 0x9f
      then (do direct board; spend 5; store (λ c. c.y) (st16 board))
      else if opcode == 0xa3
      then (do spend 1; indexed board; compare_with get_d cmp16 (at_ea16 board); spend 1)
      else if opcode == 0xac
      then (do spend 1; indexed board; compare_with (λ c. c.y) cmp16 (at_ea16 board); spend 1)
      else if opcode == 0xae
      then (do spend 1; indexed board; load to_y ld16 (at_ea16 board))
      else if opcode == 0xaf
      then (do spend 1; indexed board; store (λ c. c.y) (st16 board))
      else if opcode == 0xb3
      then (do extended board; spend 6; compare_with get_d cmp16 (at_ea16 board); spend 1)
      else if opcode == 0xbc
      then (do extended board; spend 6; compare_with (λ c. c.y) cmp16 (at_ea16 board); spend 1)
      else if opcode == 0xbe
      then (do extended board; spend 6; load to_y ld16 (at_ea16 board))
      else if opcode == 0xbf
      then (do extended board; spend 6; store (λ c. c.y) (st16 board))
      else if opcode == 0xce
      then (do spend 4; load to_s ld16 (imm_word board))
      else if opcode == 0xde
      then (do direct board; spend 5; load to_s ld16 (at_ea16 board))
      else if opcode == 0xdf
      then (do direct board; spend 5; store (λ c. c.s) (st16 board))
      else if opcode == 0xee
      then (do spend 1; indexed board; load to_s ld16 (at_ea16 board))
      else if opcode == 0xef
      then (do spend 1; indexed board; store (λ c. c.s) (st16 board))
      else if opcode == 0xfe
      then (do extended board; spend 6; load to_s ld16 (at_ea16 board))
      else if opcode == 0xff
      then (do extended board; spend 6; store (λ c. c.s) (st16 board))
      else illegal

  -- Behind 0x11.
  unfoldable pub page_3 : ℕ → M (Sys E) (Unit {0})
  page_3 opcode =
      if opcode == 0x3f
      then swi3 board
      else if opcode == 0x83
      then (do spend 5; compare_with (λ c. c.u) cmp16 (imm_word board))
      else if opcode == 0x8c
      then (do spend 5; compare_with (λ c. c.s) cmp16 (imm_word board))
      else if opcode == 0x93
      then (do direct board; spend 5; compare_with (λ c. c.u) cmp16 (at_ea16 board); spend 1)
      else if opcode == 0x9c
      then (do direct board; spend 5; compare_with (λ c. c.s) cmp16 (at_ea16 board); spend 1)
      else if opcode == 0xa3
      then (do spend 1; indexed board; compare_with (λ c. c.u) cmp16 (at_ea16 board); spend 1)
      else if opcode == 0xac
      then (do spend 1; indexed board; compare_with (λ c. c.s) cmp16 (at_ea16 board); spend 1)
      else if opcode == 0xb3
      then (do extended board; spend 6; compare_with (λ c. c.u) cmp16 (at_ea16 board); spend 1)
      else if opcode == 0xbc
      then (do extended board; spend 6; compare_with (λ c. c.s) cmp16 (at_ea16 board); spend 1)
      else illegal
