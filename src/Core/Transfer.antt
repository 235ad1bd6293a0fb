-- ===== src/Core/Transfer.antt =====
-- Register transfers, stores and the condition code instructions (6809.c, `exg`, `tfr`, `st`, `std`,
-- `st16`, `orcc`, `andcc`, `cwai`, `sync` and `cpu_reset`).
pub mod Swap
pub mod Ranges
use exec.Base.{ℕ, ◌+◌, ◌-◌, ◌*◌, ◌/◌, ◌%◌, ◌^◌, bit_and, bit_or, bit_xor, Bool, if◌then◌else◌}
use exec.Base.Word.{shl32, shr, low, test_bit}
use exec.Base.Run.{M, ◌>>=◌, ◌>>◌, pure}
use exec.Cpu.{Cpu, tick, get_cc, set_cc, get_reg, set_reg}
use exec.Core.Board.{Sys, Board, on_cpu, get_cpu}
use exec.Core.Memory.{spend, imm_byte, wrmem, wrmem16, change_pc}

-- `((post ^ (post << 4)) & 0x80) == 0`: both register numbers are of 16 bits, or both of 8.
abbrev pub sizes_differ : ℕ → Bool
sizes_differ post = test_bit (bit_xor post (shl32 post 4)) 7

-- The exchange on the registers: two reads, then two writes, the first into the low number.
unfoldable pub exchange : ℕ → Cpu → Cpu
unfolding get_reg set_reg
exchange post cpu =
    let tmp1 = if sizes_differ post then 0xff else get_reg (shr post 4) cpu in
    let tmp2 = if sizes_differ post then 0xff else get_reg (low post 4) cpu in
    set_reg (shr post 4) tmp2 (set_reg (low post 4) tmp1 cpu)

unfoldable pub transfer : ℕ → Cpu → Cpu
unfolding get_reg set_reg
transfer post cpu =
    set_reg (low post 4) (if sizes_differ post then 0xff else get_reg (shr post 4) cpu) cpu

module _ {E : Type 0} (board : Board E) where
  unfoldable pub exg : M (Sys E) (Unit {0})
  unfolding imm_byte exchange
  exg = do post ← imm_byte board; on_cpu (exchange post); spend 8

  unfoldable pub tfr : M (Sys E) (Unit {0})
  unfolding imm_byte transfer
  tfr = do post ← imm_byte board; on_cpu (transfer post); spend 6

  unfoldable pub st : ℕ → M (Sys E) (Unit {0})
  unfolding wrmem
  st arg = do
    on_cpu λ c. record c { n = arg; z = arg; ov = 0 }
    cpu ← get_cpu
    wrmem board cpu.ea arg

  unfoldable pub std : M (Sys E) (Unit {0})
  unfolding wrmem16
  std = do
    before ← get_cpu
    let res = bit_or (shl32 before.a 8) before.b
    on_cpu λ c. record c { z = res; n = c.a; ov = 0 }
    cpu ← get_cpu
    wrmem16 board cpu.ea res

  unfoldable pub st16 : ℕ → M (Sys E) (Unit {0})
  unfolding wrmem16
  st16 arg = do
    on_cpu λ c. record c { z = arg; n = shr arg 8; ov = 0 }
    cpu ← get_cpu
    wrmem16 board cpu.ea arg

  unfoldable pub orcc : M (Sys E) (Unit {0})
  unfolding imm_byte get_cc set_cc
  orcc = do tmp ← imm_byte board; on_cpu λ c. set_cc (bit_or (get_cc c) tmp) c; spend 3

  unfoldable pub andcc : M (Sys E) (Unit {0})
  unfolding imm_byte get_cc set_cc
  andcc = do tmp ← imm_byte board; on_cpu λ c. set_cc (bit_and (get_cc c) tmp) c; spend 3

  unfoldable pub cwai : M (Sys E) (Unit {0})
  cwai = board.sim_error

  unfoldable pub sync : M (Sys E) (Unit {0})
  sync = do spend 4; board.sim_error

  unfoldable pub cpu_reset : M (Sys E) (Unit {0}) → M (Sys E) (Unit {0})
  unfolding change_pc
  cpu_reset cpu_is_running = do
    on_cpu λ c. record c {
      x = 0;
      y = 0;
      s = 0;
      u = 0;
      a = 0;
      b = 0;
      dp = 0;
      h = 0;
      n = 0;
      ov = 0;
      c = 0;
      z = 1;
      efi = 0x50;
    }
    target ← board.read16 0xfffe
    change_pc target
    cpu_is_running
