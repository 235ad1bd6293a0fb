-- ===== src/Core/Execute/Single.antt =====
-- The opcodes from 0x40 to 0x7f (6809.c, `cpu_execute`): one operand, in A, in B or in memory.
use exec.Base.{ℕ, if◌then◌else◌, ◌==◌}
use exec.Base.Int.{◌+ℤ◌, pos}
use exec.Base.Run.{M, ◌>>◌}
use exec.Alu.{asl, asr, clr, complement, dec, inc, lsr, neg, rol, ror, tst}
use exec.Core.Board.{Board, Sys, on_cpu}
use exec.Core.Memory.{spend, extended}
use exec.Core.Indexed.{indexed}
use exec.Core.Stack.{to_a, to_b}
use exec.Core.Operand.{unary, apply, at_ea, modify_at_ea, jmp}

module _ {E : Type 0} (board : Board E) (illegal : M (Sys E) (Unit {0})) where
  -- The opcodes 0x40 to 0x4f.
  unfoldable pub row_4 : ℕ → M (Sys E) (Unit {0})
  row_4 opcode =
      if opcode == 0x40
      then unary (λ c. c.a) to_a neg
      else if opcode == 0x43
      then unary (λ c. c.a) to_a complement
      else if opcode == 0x44
      then unary (λ c. c.a) to_a lsr
      else if opcode == 0x46
      then unary (λ c. c.a) to_a ror
      else if opcode == 0x47
      then unary (λ c. c.a) to_a asr
      else if opcode == 0x48
      then unary (λ c. c.a) to_a asl
      else if opcode == 0x49
      then unary (λ c. c.a) to_a rol
      else if opcode == 0x4a
      then unary (λ c. c.a) to_a dec
      else if opcode == 0x4c
      then unary (λ c. c.a) to_a inc
      else if opcode == 0x4d
      then on_cpu (λ cpu. tst cpu.a cpu)
      else if opcode == 0x4f
      then unary (λ c. c.a) to_a clr
      else illegal

  -- The opcodes 0x50 to 0x5f.
  unfoldable pub row_5 : ℕ → M (Sys E) (Unit {0})
  row_5 opcode =
      if opcode == 0x50
      then unary (λ c. c.b) to_b neg
      else if opcode == 0x53
      then unary (λ c. c.b) to_b complement
      else if opcode == 0x54
      then unary (λ c. c.b) to_b lsr
      else if opcode == 0x56
      then unary (λ c. c.b) to_b ror
      else if opcode == 0x57
      then unary (λ c. c.b) to_b asr
      else if opcode == 0x58
      then unary (λ c. c.b) to_b asl
      else if opcode == 0x59
      then unary (λ c. c.b) to_b rol
      else if opcode == 0x5a
      then unary (λ c. c.b) to_b dec
      else if opcode == 0x5c
      then unary (λ c. c.b) to_b inc
      else if opcode == 0x5d
      then on_cpu (λ cpu. tst cpu.b cpu)
      else if opcode == 0x5f
      then unary (λ c. c.b) to_b clr
      else illegal

  -- The opcodes 0x60 to 0x6f.
  unfoldable pub row_6 : ℕ → M (Sys E) (Unit {0})
  row_6 opcode =
      if opcode == 0x60
      then (do indexed board; modify_at_ea board neg)
      else if opcode == 0x63
      then (do indexed board; modify_at_ea board complement)
      else if opcode == 0x64
      then (do indexed board; modify_at_ea board lsr)
      else if opcode == 0x66
      then (do indexed board; modify_at_ea board ror)
      else if opcode == 0x67
      then (do indexed board; modify_at_ea board asr)
      else if opcode == 0x68
      then (do indexed board; modify_at_ea board asl)
      else if opcode == 0x69
      then (do indexed board; modify_at_ea board rol)
      else if opcode == 0x6a
      then (do indexed board; modify_at_ea board dec)
      else if opcode == 0x6c
      then (do indexed board; modify_at_ea board inc)
      else if opcode == 0x6d
      then (do indexed board; apply tst (at_ea board))
      else if opcode == 0x6e
      then (do indexed board; on_cpu (λ cpu. record cpu { clk = cpu.clk +ℤ pos 1 }); jmp board)
      else if opcode == 0x6f
      then (do indexed board; modify_at_ea board clr)
      else illegal

  -- The opcodes 0x70 to 0x7f.
  unfoldable pub row_7 : ℕ → M (Sys E) (Unit {0})
  row_7 opcode =
      if opcode == 0x70
      then (do extended board; spend 5; modify_at_ea board neg)
      else if opcode == 0x73
      then (do extended board; spend 5; modify_at_ea board complement)
      else if opcode == 0x74
      then (do extended board; spend 5; modify_at_ea board lsr)
      else if opcode == 0x76
      then (do extended board; spend 5; modify_at_ea board ror)
      else if opcode == 0x77
      then (do extended board; spend 5; modify_at_ea board asr)
      else if opcode == 0x78
      then (do extended board; spend 5; modify_at_ea board asl)
      else if opcode == 0x79
      then (do extended board; spend 5; modify_at_ea board rol)
      else if opcode == 0x7a
      then (do extended board; spend 5; modify_at_ea board dec)
      else if opcode == 0x7c
      then (do extended board; spend 5; modify_at_ea board inc)
      else if opcode == 0x7d
      then (do extended board; spend 5; apply tst (at_ea board))
      else if opcode == 0x7e
      then (do extended board; spend 4; jmp board)
      else if opcode == 0x7f
      then (do extended board; spend 5; modify_at_ea board clr)
      else illegal
