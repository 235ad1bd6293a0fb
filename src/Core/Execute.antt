-- ===== src/Core/Execute.antt =====
-- One instruction (6809.c, the body of the loop of `cpu_execute`).
pub mod Control
pub mod Single
pub mod AccA
pub mod AccB
pub mod Paged
use exec.Base.{ℕ, ltb, ◌==◌, if◌then◌else◌}
use exec.Base.Word.{shr, nonzero}
use exec.Base.Run.{M, ◌>>=◌, ◌>>◌}
use exec.Cpu.{Cpu}
use exec.Core.Board.{Sys, Board, on_cpu, get_cpu}
use exec.Core.Memory.{spend, imm_byte}
use exec.Core.Stack.{when}
use exec.Core.Interrupt.{cc_modified}
use exec.Core.Execute.Control.{row_0, row_1, row_2, row_3}
use exec.Core.Execute.Single.{row_4, row_5, row_6, row_7}
use exec.Core.Execute.AccA.{row_8, row_9, row_a, row_b}
use exec.Core.Execute.AccB.{row_c, row_d, row_e, row_f}
use exec.Core.Execute.Paged.{page_2_low, page_2_high, page_3}

module _ {E : Type 0} (board : Board E) where
  -- The default case of the `switch`.
  unfoldable pub invalid : M (Sys E) (Unit {0})
  invalid = do spend 2; board.sim_error; on_cpu λ cpu. record cpu { pc = cpu.ipc }

  -- The prefix 0x10: another opcode follows. An invalid one is only reported.
  unfoldable pub prefix_10 : M (Sys E) (Unit {0})
  prefix_10 = do
    opcode ← imm_byte board
    if ltb opcode 0x40
        then page_2_low board board.sim_error opcode
        else page_2_high board board.sim_error opcode

  unfoldable pub prefix_11 : M (Sys E) (Unit {0})
  prefix_11 = do opcode ← imm_byte board; page_3 board board.sim_error opcode

  -- The `switch`, one function for each sixteen opcodes.
  unfoldable pub dispatch : ℕ → M (Sys E) (Unit {0})
  dispatch opcode =
      if ltb opcode 0x10
      then row_0 board invalid opcode
      else if opcode == 0x10
      then prefix_10
      else if opcode == 0x11
      then prefix_11
      else if ltb opcode 0x20
      then row_1 board invalid opcode
      else if ltb opcode 0x30
      then row_2 board invalid opcode
      else if ltb opcode 0x40
      then row_3 board invalid opcode
      else if ltb opcode 0x50
      then row_4 board invalid opcode
      else if ltb opcode 0x60
      then row_5 board invalid opcode
      else if ltb opcode 0x70
      then row_6 board invalid opcode
      else if ltb opcode 0x80
      then row_7 board invalid opcode
      else if ltb opcode 0x90
      then row_8 board invalid opcode
      else if ltb opcode 0xa0
      then row_9 board invalid opcode
      else if ltb opcode 0xb0
      then row_a board invalid opcode
      else if ltb opcode 0xc0
      then row_b board invalid opcode
      else if ltb opcode 0xd0
      then row_c board invalid opcode
      else if ltb opcode 0xe0
      then row_d board invalid opcode
      else if ltb opcode 0xf0
      then row_e board invalid opcode
      else row_f board invalid opcode

  -- Fetch and execute, then look for an interrupt that a change of the masks lets in.
  unfoldable pub execute_one : M (Sys E) (Unit {0})
  execute_one = do
    on_cpu λ cpu. record cpu { ipc = cpu.pc }
    opcode ← imm_byte board
    dispatch opcode
    cpu ← get_cpu
    when (nonzero cpu.cc_changed) (cc_modified board)
