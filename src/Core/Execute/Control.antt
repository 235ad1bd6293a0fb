-- ===== src/Core/Execute/Control.antt =====
-- The opcodes below 0x40 (6809.c, `cpu_execute`). An opcode that is not listed is `illegal`.
use exec.Base.{ℕ, if◌then◌else◌, ◌==◌}
use exec.Base.Word.{add32}
use exec.Base.Run.{M, ◌>>◌}
use exec.Cpu.Flags.{
  cond_hi, cond_ls, cond_hs, cond_lo, cond_ne, cond_eq, cond_vc, cond_vs, cond_pl, cond_mi, cond_ge,
  cond_lt, cond_gt, cond_le,
}
use exec.Alu.{asl, asr, clr, complement, daa, dec, inc, lsr, mul, neg, rol, ror, tst, sex}
use exec.Wide.{abx}
use exec.Core.Board.{Board, Sys, on_cpu}
use exec.Core.Memory.{spend, direct}
use exec.Core.Indexed.{indexed}
use exec.Core.Stack.{pshs, pshu, puls, pulu, rts}
use exec.Core.Interrupt.{rti, swi}
use exec.Core.Transfer.{exg, tfr, orcc, andcc, cwai, sync}
use exec.Core.Branch.{bra, branch, long_bra, long_bsr}
use exec.Core.Operand.{apply, on_condition, at_ea, modify_at_ea, jmp}

module _ {E : Type 0} (board : Board E) (illegal : M (Sys E) (Unit {0})) where
  -- The opcodes 0x00 to 0x0f.
  unfoldable pub row_0 : ℕ → M (Sys E) (Unit {0})
  row_0 opcode =
      if opcode == 0x00
      then (do direct board; spend 4; modify_at_ea board neg)
      else if opcode == 0x03
      then (do direct board; spend 4; modify_at_ea board complement)
      else if opcode == 0x04
      then (do direct board; spend 4; modify_at_ea board lsr)
      else if opcode == 0x06
      then (do direct board; spend 4; modify_at_ea board ror)
      else if opcode == 0x07
      then (do direct board; spend 4; modify_at_ea board asr)
      else if opcode == 0x08
      then (do direct board; spend 4; modify_at_ea board asl)
      else if opcode == 0x09
      then (do direct board; spend 4; modify_at_ea board rol)
      else if opcode == 0x0a
      then (do direct board; spend 4; modify_at_ea board dec)
      else if opcode == 0x0c
      then (do direct board; spend 4; modify_at_ea board inc)
      else if opcode == 0x0d
      then (do direct board; spend 4; apply tst (at_ea board))
      else if opcode == 0x0e
      then (do direct board; spend 3; jmp board)
      else if opcode == 0x0f
      then (do direct board; spend 4; modify_at_ea board clr)
      else illegal

  -- The opcodes 0x10 to 0x1f.
  unfoldable pub row_1 : ℕ → M (Sys E) (Unit {0})
  row_1 opcode =
      if opcode == 0x12
      then spend 2
      else if opcode == 0x13
      then sync board
      else if opcode == 0x16
      then (do long_bra board; spend 5)
      else if opcode == 0x17
      then long_bsr board
      else if opcode == 0x19
      then on_cpu daa
      else if opcode == 0x1a
      then orcc board
      else if opcode == 0x1c
      then andcc board
      else if opcode == 0x1d
      then on_cpu sex
      else if opcode == 0x1e
      then exg board
      else if opcode == 0x1f
      then tfr board
      else illegal

  -- The opcodes 0x20 to 0x2f.
  unfoldable pub row_2 : ℕ → M (Sys E) (Unit {0})
  row_2 opcode =
      if opcode == 0x20
      then (do bra board; spend 3)
      else if opcode == 0x21
      then (do on_cpu (λ cpu. record cpu { pc = add32 cpu.pc 1 }); spend 3)
      else if opcode == 0x22
      then on_condition cond_hi (branch board)
      else if opcode == 0x23
      then on_condition cond_ls (branch board)
      else if opcode == 0x24
      then on_condition cond_hs (branch board)
      else if opcode == 0x25
      then on_condition cond_lo (branch board)
      else if opcode == 0x26
      then on_condition cond_ne (branch board)
      else if opcode == 0x27
      then on_condition cond_eq (branch board)
      else if opcode == 0x28
      then on_condition cond_vc (branch board)
      else if opcode == 0x29
      then on_condition cond_vs (branch board)
      else if opcode == 0x2a
      then on_condition cond_pl (branch board)
      else if opcode == 0x2b
      then on_condition cond_mi (branch board)
      else if opcode == 0x2c
      then on_condition cond_ge (branch board)
      else if opcode == 0x2d
      then on_condition cond_lt (branch board)
      else if opcode == 0x2e
      then on_condition cond_gt (branch board)
      else if opcode == 0x2f
      then on_condition cond_le (branch board)
      else illegal

  -- The opcodes 0x30 to 0x3f.
  unfoldable pub row_3 : ℕ → M (Sys E) (Unit {0})
  row_3 opcode =
      if opcode == 0x30
      then (do indexed board; on_cpu (λ cpu. record cpu { x = cpu.ea; z = cpu.ea }))
      else if opcode == 0x31
      then (do indexed board; on_cpu (λ cpu. record cpu { y = cpu.ea; z = cpu.ea }))
      else if opcode == 0x32
      then (do indexed board; on_cpu (λ cpu. record cpu { s = cpu.ea }))
      else if opcode == 0x33
      then (do indexed board; on_cpu (λ cpu. record cpu { u = cpu.ea }))
      else if opcode == 0x34
      then pshs board
      else if opcode == 0x35
      then puls board
      else if opcode == 0x36
      then pshu board
      else if opcode == 0x37
      then pulu board
      else if opcode == 0x39
      then rts board
      else if opcode == 0x3a
      then on_cpu abx
      else if opcode == 0x3b
      then rti board
      else if opcode == 0x3c
      then cwai board
      else if opcode == 0x3d
      then on_cpu mul
      else if opcode == 0x3f
      then swi board
      else illegal
