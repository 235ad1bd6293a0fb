-- ===== src/Core/Memory.antt =====
-- Fetching and memory access (6809.c: `change_pc`, `imm_byte` to `read_stack16`, `direct` and `extended`).
use exec.Base.{ℕ, bit_or}
use exec.Base.Word.{add32, shl32, shr, low}
use exec.Base.Run.{M, ◌>>=◌, ◌>>◌, pure}
use exec.Cpu.{tick}
use exec.Core.Board.{Sys, Board, on_cpu, get_cpu}

abbrev pub set_ea : {E : Type 0} → ℕ → M (Sys E) (Unit {0})
set_ea addr = on_cpu λ cpu. record cpu { ea = addr }

abbrev pub spend : {E : Type 0} → ℕ → M (Sys E) (Unit {0})
spend k = on_cpu (tick k)

unfoldable pub change_pc : {E : Type 0} → ℕ → M (Sys E) (Unit {0})
change_pc new_pc = on_cpu λ cpu. record cpu { pc = new_pc }

module _ {E : Type 0} (board : Board E) where
  unfoldable pub imm_byte : M (Sys E) ℕ
  imm_byte = do
    cpu ← get_cpu
    val ← board.read8 cpu.pc
    on_cpu λ c. record c { pc = add32 c.pc 1 }
    pure val

  unfoldable pub imm_word : M (Sys E) ℕ
  imm_word = do
    cpu ← get_cpu
    val ← board.read16 cpu.pc
    on_cpu λ c. record c { pc = add32 c.pc 2 }
    pure val

  -- `cpu_write8` takes its value as a `U8`.
  unfoldable pub wrmem : ℕ → ℕ → M (Sys E) (Unit {0})
  wrmem addr val = board.write8 addr (low val 8)

  unfoldable pub rdmem : ℕ → M (Sys E) ℕ
  rdmem addr = board.read8 addr

  unfoldable pub wrmem16 : ℕ → ℕ → M (Sys E) (Unit {0})
  unfolding wrmem
  wrmem16 addr val = do wrmem addr (shr val 8); spend 1; wrmem (low (add32 addr 1) 16) (low val 8)

  unfoldable pub rdmem16 : ℕ → M (Sys E) ℕ
  unfolding rdmem
  rdmem16 addr = do
    high ← rdmem addr
    spend 1
    rest ← rdmem (low (add32 addr 1) 16)
    pure (bit_or (shl32 high 8) rest)

  -- The low byte is written first.
  unfoldable pub write_stack16 : ℕ → ℕ → M (Sys E) (Unit {0})
  unfolding wrmem
  write_stack16 addr val = do wrmem (low (add32 addr 1) 16) (low val 8); wrmem addr (shr val 8)

  -- C leaves the order of the two reads open; the left operand is read first here.
  unfoldable pub read_stack16 : ℕ → M (Sys E) ℕ
  unfolding rdmem
  read_stack16 addr = do
    high ← rdmem addr
    rest ← rdmem (low (add32 addr 1) 16)
    pure (bit_or (shl32 high 8) rest)

  unfoldable pub direct : M (Sys E) (Unit {0})
  direct = do
    cpu ← get_cpu
    val ← board.read8 cpu.pc
    on_cpu λ c. record c { pc = add32 c.pc 1; ea = bit_or val cpu.dp }

  unfoldable pub extended : M (Sys E) (Unit {0})
  extended = do
    cpu ← get_cpu
    val ← board.read16 cpu.pc
    on_cpu λ c. record c { pc = add32 c.pc 2; ea = val }
