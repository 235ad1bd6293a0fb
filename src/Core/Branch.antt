-- ===== src/Core/Branch.antt =====
-- The branch instructions (6809.c, `bra` to `bsr`). A target is not reduced to 16 bits.
use exec.Base.{Bool, if◌then◌else◌}
use exec.Base.Word.{add32, sext8, sext16}
use exec.Base.Run.{M, ◌>>=◌, ◌>>◌}
use exec.Cpu.{get_pc}
use exec.Core.Board.{Sys, Board, get_cpu}
use exec.Core.Memory.{spend, imm_byte, imm_word, change_pc, set_ea}
use exec.Core.Stack.{sys_ptr, push16}

module _ {E : Type 0} (board : Board E) where
  unfoldable pub bra : M (Sys E) (Unit {0})
  unfolding imm_byte change_pc
  bra = do tmp ← imm_byte board; cpu ← get_cpu; change_pc (add32 cpu.pc (sext8 tmp))

  unfoldable pub branch : Bool → M (Sys E) (Unit {0})
  unfolding bra change_pc
  branch cond = do if cond then bra else (do cpu ← get_cpu; change_pc (add32 cpu.pc 1)); spend 3

  unfoldable pub long_bra : M (Sys E) (Unit {0})
  unfolding imm_word change_pc
  long_bra = do tmp ← imm_word board; cpu ← get_cpu; change_pc (add32 cpu.pc (sext16 tmp))

  unfoldable pub long_branch : Bool → M (Sys E) (Unit {0})
  unfolding long_bra change_pc
  long_branch cond =
      if cond
      then (do long_bra; spend 6)
      else (do cpu ← get_cpu; change_pc (add32 cpu.pc 2); spend 5)

  unfoldable pub long_bsr : M (Sys E) (Unit {0})
  unfolding imm_word push16 change_pc
  long_bsr = do
    tmp ← imm_word board
    cpu ← get_cpu
    set_ea (add32 cpu.pc (sext16 tmp))
    push16 board sys_ptr get_pc
    spend 9
    target ← get_cpu
    change_pc target.ea
    board.monitor_call 0

  unfoldable pub bsr : M (Sys E) (Unit {0})
  unfolding imm_byte push16 change_pc
  bsr = do
    tmp ← imm_byte board
    cpu ← get_cpu
    set_ea (add32 cpu.pc (sext8 tmp))
    push16 board sys_ptr get_pc
    spend 7
    target ← get_cpu
    change_pc target.ea
    board.monitor_call 0
