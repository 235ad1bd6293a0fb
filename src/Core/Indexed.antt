-- ===== src/Core/Indexed.antt =====
-- The indexed addressing modes (6809.c, `indexed`).
pub mod Offset
use exec.Base.{ℕ, ◌-◌, bit_or, if◌then◌else◌, ◌==◌, ltb, ◌||◌}
use exec.Base.Word.{add32, sub32, shr, low, sext8, test_bit}
use exec.Base.Run.{M, ◌>>=◌, ◌>>◌}
use exec.Cpu.{Cpu, get_d}
use exec.Core.Board.{Sys, Board, on_cpu, get_cpu}
use exec.Core.Memory.{set_ea, spend, imm_byte, imm_word, rdmem16}

-- `index_regs[k]`: X, Y, U and S.
unfoldable pub index_reg : ℕ → Cpu → ℕ
index_reg k cpu =
    if k == 0 then cpu.x else if k == 1 then cpu.y else if k == 2 then cpu.u else cpu.s

unfoldable pub set_index_reg : ℕ → ℕ → Cpu → Cpu
set_index_reg k val cpu =
    if k == 0
    then record cpu { x = val }
    else if k == 1
    then record cpu { y = val }
    else if k == 2
    then record cpu { u = val }
    else record cpu { s = val }

-- `ea = *R; *R = (*R + step) & 0xffff`.
unfoldable pub post_increment : ℕ → ℕ → Cpu → Cpu
unfolding index_reg set_index_reg
post_increment r step cpu =
    let val = index_reg r cpu in record (set_index_reg r (low (add32 val step) 16) cpu) { ea = val }

-- `*R = (*R - step) & 0xffff; ea = *R`.
unfoldable pub pre_decrement : ℕ → ℕ → Cpu → Cpu
unfolding index_reg set_index_reg
pre_decrement r step cpu =
    let val = low (sub32 (index_reg r cpu) step) 16 in record (set_index_reg r val cpu) { ea = val }

-- `ea = (*R + offset) & 0xffff`.
unfoldable pub offset_from : ℕ → ℕ → Cpu → Cpu
unfolding index_reg
offset_from r offset cpu = record cpu { ea = low (add32 (index_reg r cpu) offset) 16 }

module _ {E : Type 0} (board : Board E) where
  -- The cases below 0x10 of the `switch`; the default case reports the post byte and goes on.
  unfoldable pub index_mode : ℕ → ℕ → M (Sys E) (Unit {0})
  unfolding post_increment pre_decrement offset_from imm_byte imm_word get_d
  index_mode mode r =
      if mode == 0x00
      then (do on_cpu (post_increment r 1); spend 6)
      else if mode == 0x01
      then (do on_cpu (post_increment r 2); spend 7)
      else if mode == 0x02
      then (do on_cpu (pre_decrement r 1); spend 6)
      else if mode == 0x03
      then (do on_cpu (pre_decrement r 2); spend 7)
      else if mode == 0x04
      then (do on_cpu (λ c. record c { ea = index_reg r c }); spend 4)
      else if mode == 0x05
      then (do on_cpu (λ c. offset_from r (sext8 c.b) c); spend 5)
      else if mode == 0x06
      then (do on_cpu (λ c. offset_from r (sext8 c.a) c); spend 5)
      else if mode == 0x08
      then (do k ← imm_byte board; on_cpu (offset_from r (sext8 k)); spend 5)
      else if mode == 0x09
      then (do k ← imm_word board; on_cpu (offset_from r k); spend 8)
      else if mode == 0x0b
      then (do on_cpu (λ c. offset_from r (get_d c) c); spend 8)
      else if mode == 0x0c
      then (do
        k ← imm_byte board
        on_cpu (λ c. record c { ea = low (add32 (sext8 k) c.pc) 16 })
        spend 5)
      else if mode == 0x0d
      then (do k ← imm_word board; on_cpu (λ c. record c { ea = low (add32 k c.pc) 16 }); spend 9)
      else (do set_ea 0; board.sim_error)

  -- `ea = RDMEM16 (ea); cpu_clk -= 2`.
  unfoldable pub indirect : M (Sys E) (Unit {0})
  unfolding rdmem16
  indirect = do cpu ← get_cpu; val ← rdmem16 board cpu.ea; set_ea val; spend 2

  -- The cases from 0x10 on repeat those below, read through memory; 0x10, 0x12 and those that are
  -- missing below fall to the default case.
  unfoldable pub indexed : M (Sys E) (Unit {0})
  unfolding index_mode indirect imm_byte imm_word offset_from
  indexed = do
    post ← imm_byte board
    let r = low (shr post 5) 2
    let mode = low post 5
    if test_bit post 7
        then (if ltb mode 0x10
            then index_mode mode r
            else if mode == 0x1f
            then (do k ← imm_word board; set_ea k; spend 6; indirect)
            else if mode == 0x10 || mode == 0x12 || mode == 0x17 || mode == 0x1a || mode == 0x1e
            then (do set_ea 0; board.sim_error)
            else (do index_mode (mode - 0x10) r; indirect))
        else (do
          on_cpu (offset_from r (if test_bit post 4 then bit_or post 0xfff0 else low post 4))
          spend 5)
