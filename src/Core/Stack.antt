-- ===== src/Core/Stack.antt =====
-- The stack instructions (6809.c, `pshs`, `pshu`, `puls`, `pulu`, `jsr` and `rts`).
pub mod Push
pub mod Pull
pub mod Call
use exec.Base.{ℕ, ◌+◌, ◌-◌, ◌*◌, ◌/◌, ◌%◌, ◌^◌, if◌then◌else◌, Bool}
use exec.Base.Word.{add32, sub32, shl32, shr, low, test_bit}
use exec.Base.Run.{M, ◌>>=◌, ◌>>◌, pure}
use exec.Cpu.{Cpu, tick, get_cc, set_cc, get_pc}
use exec.Core.Board.{Sys, Board, on_cpu, get_cpu}
use exec.Core.Memory.{spend, imm_byte, wrmem, rdmem, write_stack16, read_stack16, change_pc}

-- Which of the two stack pointers an instruction uses.
pub data StackPtr : Type 0 where
  sys_ptr user_ptr : StackPtr

abbrev pub get_ptr : StackPtr → Cpu → ℕ
get_ptr sys_ptr cpu = cpu.s
get_ptr user_ptr cpu = cpu.u

abbrev pub set_ptr : StackPtr → ℕ → Cpu → Cpu
set_ptr sys_ptr val cpu = record cpu { s = val }
set_ptr user_ptr val cpu = record cpu { u = val }

-- The pointer that the instruction does not use is the one that it pushes and pulls.
abbrev pub other : StackPtr → StackPtr
other sys_ptr = user_ptr
other user_ptr = sys_ptr

-- `S = (S - k) & 0xffff` and `S = (S + k) & 0xffff`.
abbrev pub lower : StackPtr → ℕ → Cpu → Cpu
lower p k cpu = set_ptr p (low (sub32 (get_ptr p cpu) k) 16) cpu

abbrev pub raise : StackPtr → ℕ → Cpu → Cpu
raise p k cpu = set_ptr p (low (add32 (get_ptr p cpu) k) 16) cpu

abbrev pub when : {E : Type 0} → Bool → M (Sys E) (Unit {0}) → M (Sys E) (Unit {0})
when test act = if test then act else pure tt

module _ {E : Type 0} (board : Board E) (p : StackPtr) where
  unfoldable pub push8 : (Cpu → ℕ) → M (Sys E) (Unit {0})
  unfolding wrmem
  push8 value = do on_cpu (lower p 1); cpu ← get_cpu; wrmem board (get_ptr p cpu) (value cpu)

  unfoldable pub push16 : (Cpu → ℕ) → M (Sys E) (Unit {0})
  unfolding write_stack16
  push16 value = do
    on_cpu (lower p 2)
    cpu ← get_cpu
    write_stack16 board (get_ptr p cpu) (value cpu)

  unfoldable pub pull8 : (ℕ → Cpu → Cpu) → M (Sys E) (Unit {0})
  unfolding rdmem
  pull8 assign = do
    cpu ← get_cpu
    val ← rdmem board (get_ptr p cpu)
    on_cpu (assign val)
    on_cpu (raise p 1)

  unfoldable pub pull16 : (ℕ → Cpu → Cpu) → M (Sys E) (Unit {0})
  unfolding read_stack16
  pull16 assign = do
    cpu ← get_cpu
    val ← read_stack16 board (get_ptr p cpu)
    on_cpu (assign val)
    on_cpu (raise p 2)

-- The assignments of the pull instructions.
abbrev pub to_a : ℕ → Cpu → Cpu
to_a val cpu = record cpu { a = val }

abbrev pub to_b : ℕ → Cpu → Cpu
to_b val cpu = record cpu { b = val }

abbrev pub to_dp : ℕ → Cpu → Cpu
to_dp val cpu = record cpu { dp = shl32 val 8 }

abbrev pub to_x : ℕ → Cpu → Cpu
to_x val cpu = record cpu { x = val }

abbrev pub to_y : ℕ → Cpu → Cpu
to_y val cpu = record cpu { y = val }

abbrev pub to_s : ℕ → Cpu → Cpu
to_s val cpu = record cpu { s = val }

abbrev pub to_pc : ℕ → Cpu → Cpu
to_pc val cpu = record cpu { pc = val }

abbrev pub dp_byte : Cpu → ℕ
dp_byte cpu = shr cpu.dp 8

module _ {E : Type 0} (board : Board E) where
  -- The body that `pshs` and `pshu` share, and that of `puls` and `pulu`.
  unfoldable pub psh : StackPtr → M (Sys E) (Unit {0})
  psh p = do
    post ← imm_byte board
    spend 5
    when (test_bit post 7) (do spend 2; push16 board p get_pc)
    when (test_bit post 6) (do spend 2; push16 board p (get_ptr (other p)))
    when (test_bit post 5) (do spend 2; push16 board p (λ c. c.y))
    when (test_bit post 4) (do spend 2; push16 board p (λ c. c.x))
    when (test_bit post 3) (do spend 1; push8 board p dp_byte)
    when (test_bit post 2) (do spend 1; push8 board p (λ c. c.b))
    when (test_bit post 1) (do spend 1; push8 board p (λ c. c.a))
    when (test_bit post 0) (do spend 1; push8 board p get_cc)

  unfoldable pub pul : StackPtr → M (Sys E) (Unit {0})
  pul p = do
    post ← imm_byte board
    spend 5
    when (test_bit post 0) (do spend 1; pull8 board p set_cc)
    when (test_bit post 1) (do spend 1; pull8 board p to_a)
    when (test_bit post 2) (do spend 1; pull8 board p to_b)
    when (test_bit post 3) (do spend 1; pull8 board p to_dp)
    when (test_bit post 4) (do spend 2; pull16 board p to_x)
    when (test_bit post 5) (do spend 2; pull16 board p to_y)
    when (test_bit post 6) (do spend 2; pull16 board p (set_ptr (other p)))
    when (test_bit post 7) (do board.monitor_return; spend 2; pull16 board p to_pc)

  unfoldable pub pshs : M (Sys E) (Unit {0})
  unfolding psh
  pshs = psh sys_ptr

  unfoldable pub pshu : M (Sys E) (Unit {0})
  unfolding psh
  pshu = psh user_ptr

  unfoldable pub puls : M (Sys E) (Unit {0})
  unfolding pul
  puls = pul sys_ptr

  unfoldable pub pulu : M (Sys E) (Unit {0})
  unfolding pul
  pulu = pul user_ptr

  unfoldable pub jsr : M (Sys E) (Unit {0})
  unfolding change_pc
  jsr = do push16 board sys_ptr get_pc; cpu ← get_cpu; change_pc cpu.ea; board.monitor_call 0

  unfoldable pub rts : M (Sys E) (Unit {0})
  rts = do board.monitor_return; spend 5; pull16 board sys_ptr to_pc
