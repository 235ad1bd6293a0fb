-- ===== src/Core/Operand.antt =====
-- The shapes of the statements in `cpu_execute` (6809.c): an operand is fetched, an operation works
-- on it and on the registers, and its result goes to a register or to memory.
use exec.Base.{ℕ}
use exec.Base.Run.{M, done, ◌>>=◌, ◌>>◌}
use exec.Cpu.{Cpu}
use exec.Core.Board.{Sys, Board, on_cpu, get_cpu}
use exec.Core.Memory.{rdmem, rdmem16, wrmem}

-- An operation on the registers, for its result.
abbrev pub alu : {E : Type 0} → (Cpu → ℕ × Cpu) → M (Sys E) ℕ
alu f s = done (f s.cpu).0 (record s { cpu = (f s.cpu).1 })

-- `R = f (R)`.
abbrev pub unary :
    {E : Type 0} → (Cpu → ℕ) → (ℕ → Cpu → Cpu) → (ℕ → Cpu → ℕ × Cpu) → M (Sys E) (Unit {0})
unary reg assign f = do cpu ← get_cpu; res ← alu (f (reg cpu)); on_cpu (assign res)

-- `R = f (R, operand)`.
abbrev pub binary :
    {E : Type 0}
    → (Cpu → ℕ)
    → (ℕ → Cpu → Cpu)
    → (ℕ → ℕ → Cpu → ℕ × Cpu)
    → M (Sys E) ℕ
    → M (Sys E) (Unit {0})
binary reg assign f operand = do
  val ← operand
  cpu ← get_cpu
  res ← alu (f (reg cpu) val)
  on_cpu (assign res)

-- `R = f (operand)`.
abbrev pub load :
    {E : Type 0} → (ℕ → Cpu → Cpu) → (ℕ → Cpu → ℕ × Cpu) → M (Sys E) ℕ → M (Sys E) (Unit {0})
load assign f operand = do val ← operand; res ← alu (f val); on_cpu (assign res)

-- `f (R, operand)`.
abbrev pub compare_with :
    {E : Type 0} → (Cpu → ℕ) → (ℕ → ℕ → Cpu → Cpu) → M (Sys E) ℕ → M (Sys E) (Unit {0})
compare_with reg f operand = do val ← operand; on_cpu λ cpu. f (reg cpu) val cpu

-- `f (operand)`.
abbrev pub apply : {E : Type 0} → (ℕ → Cpu → Cpu) → M (Sys E) ℕ → M (Sys E) (Unit {0})
apply f operand = do val ← operand; on_cpu (f val)

-- A store of a register.
abbrev pub store : {E : Type 0} → (Cpu → ℕ) → (ℕ → M (Sys E) (Unit {0})) → M (Sys E) (Unit {0})
store reg f = do cpu ← get_cpu; f (reg cpu)

-- A branch on a condition of the registers.
abbrev pub on_condition :
    {E : Type 0} {C : Type 0} → (Cpu → C) → (C → M (Sys E) (Unit {0})) → M (Sys E) (Unit {0})
on_condition cond f = do cpu ← get_cpu; f (cond cpu)

module _ {E : Type 0} (board : Board E) where
  -- `RDMEM (ea)` and `RDMEM16 (ea)`.
  unfoldable pub at_ea : M (Sys E) ℕ
  at_ea = do cpu ← get_cpu; rdmem board cpu.ea

  unfoldable pub at_ea16 : M (Sys E) ℕ
  at_ea16 = do cpu ← get_cpu; rdmem16 board cpu.ea

  -- `WRMEM (ea, f (RDMEM (ea)))`.
  unfoldable pub modify_at_ea : (ℕ → Cpu → ℕ × Cpu) → M (Sys E) (Unit {0})
  modify_at_ea f = do val ← at_ea; res ← alu (f val); cpu ← get_cpu; wrmem board cpu.ea res

  -- `PC = ea; check_pc (); monitor_call (FC_TAIL_CALL);`
  unfoldable pub jmp : M (Sys E) (Unit {0})
  jmp = do on_cpu (λ cpu. record cpu { pc = cpu.ea }); board.monitor_call 1
