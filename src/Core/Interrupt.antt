-- ===== src/Core/Interrupt.antt =====
-- Interrupts (6809.c, `request_irq` to `release_firq`, `cc_modified`, `rti`, `irq`, `firq`, `swi`,
-- `swi2`, `swi3` and `cpu_reset`).
pub mod Frame
pub mod Return
pub mod Enter
pub mod RoundTrip
pub mod Pending
use exec.Base.{ℕ, ◌+◌, ◌-◌, ◌*◌, ◌/◌, ◌%◌, ◌^◌, bit_and, bit_or, if◌then◌else◌, not, ◌&&◌}
use exec.Base.Int.{ℤ}
use exec.Base.Word.{shl32, not32, test_bit, nonzero}
use exec.Base.Run.{M, ◌>>=◌, ◌>>◌, pure}
use exec.Cpu.{Cpu, tick, get_cc, set_cc, get_pc, get_cycles}
use exec.Core.Board.{Sys, Board, on_cpu, get_cpu}
use exec.Core.Memory.{spend, change_pc}
use exec.Core.Stack.{
  sys_ptr, push8, push16, pull8, pull16, to_a, to_b, to_dp, to_x, to_y, to_pc, dp_byte, when,
}

abbrev pub to_u : ℕ → Cpu → Cpu
to_u val cpu = record cpu { u = val }

-- `EFI |= flags`.
abbrev pub or_efi : ℕ → Cpu → Cpu
or_efi flags cpu = record cpu { efi = bit_or cpu.efi flags }

module _ {E : Type 0} (board : Board E) where
  -- All registers but S, the last one first, as `irq`, `swi`, `swi2` and `swi3` push them.
  unfoldable pub push_state : M (Sys E) (Unit {0})
  push_state = do
    push16 board sys_ptr get_pc
    push16 board sys_ptr (λ c. c.u)
    push16 board sys_ptr (λ c. c.y)
    push16 board sys_ptr (λ c. c.x)
    push8 board sys_ptr dp_byte
    push8 board sys_ptr (λ c. c.b)
    push8 board sys_ptr (λ c. c.a)
    push8 board sys_ptr get_cc

  -- `change_pc (read16 (addr))`.
  unfoldable pub vector : ℕ → M (Sys E) (Unit {0})
  unfolding change_pc
  vector addr = do target ← board.read16 addr; change_pc target

  unfoldable pub irq : M (Sys E) (Unit {0})
  irq = do
    on_cpu (or_efi 0x80)
    push_state
    on_cpu (or_efi 0x10)
    on_cpu λ c. record c { irq_start_time = get_cycles c }
    vector 0xfff8
    on_cpu λ c. record c { irqs_pending = 0 }

  unfoldable pub firq : M (Sys E) (Unit {0})
  firq = do
    on_cpu λ c. record c { efi = bit_and c.efi (not32 0x80) }
    push16 board sys_ptr get_pc
    push8 board sys_ptr get_cc
    on_cpu (or_efi 0x50)
    vector 0xfff6
    on_cpu λ c. record c { firqs_pending = 0 }

  unfoldable pub swi : M (Sys E) (Unit {0})
  swi = do spend 19; on_cpu (or_efi 0x80); push_state; on_cpu (or_efi 0x50); vector 0xfffa

  unfoldable pub swi2 : M (Sys E) (Unit {0})
  swi2 = do spend 20; on_cpu (or_efi 0x80); push_state; vector 0xfff4

  unfoldable pub swi3 : M (Sys E) (Unit {0})
  swi3 = do spend 20; on_cpu (or_efi 0x80); push_state; vector 0xfff2

  -- The registers that `rti` pulls when the E flag came off the stack set.
  unfoldable pub pull_state : M (Sys E) (Unit {0})
  pull_state = do
    spend 9
    pull8 board sys_ptr to_a
    pull8 board sys_ptr to_b
    pull8 board sys_ptr to_dp
    pull16 board sys_ptr to_x
    pull16 board sys_ptr to_y
    pull16 board sys_ptr to_u

  -- `get_cycles () - irq_start_time` is taken modulo 2 ^ 64.
  unfoldable pub rti : M (Sys E) (Unit {0})
  rti = do
    board.monitor_return
    spend 6
    cpu ← get_cpu
    board.exit_irq_hook ((get_cycles cpu + (2 ^ 64 - cpu.irq_start_time)) % 2 ^ 64)
    pull8 board sys_ptr set_cc
    flags ← get_cpu
    when (test_bit flags.efi 7) pull_state
    pull16 board sys_ptr to_pc

  -- `request_irq (source)`, for a source below 32.
  unfoldable pub request_irq : ℕ → M (Sys E) (Unit {0})
  request_irq source = do
    on_cpu λ c. record c { irqs_pending = bit_or c.irqs_pending (shl32 1 source) }
    cpu ← get_cpu
    when (not (test_bit cpu.efi 4)) irq

  unfoldable pub request_firq : ℕ → M (Sys E) (Unit {0})
  request_firq source = do
    on_cpu λ c. record c { firqs_pending = bit_or c.firqs_pending (shl32 1 source) }
    cpu ← get_cpu
    when (not (test_bit cpu.efi 6)) firq

  unfoldable pub release_irq : ℕ → M (Sys E) (Unit {0})
  release_irq source =
      on_cpu λ c. record c { irqs_pending = bit_and c.irqs_pending (not32 (shl32 1 source)) }

  unfoldable pub release_firq : ℕ → M (Sys E) (Unit {0})
  release_firq source =
      on_cpu λ c. record c { firqs_pending = bit_and c.firqs_pending (not32 (shl32 1 source)) }

  -- A pending fast interrupt goes first; the mask of each kind is tested.
  unfoldable pub cc_modified : M (Sys E) (Unit {0})
  cc_modified = do
    cpu ← get_cpu
    if nonzero cpu.firqs_pending && not (test_bit cpu.efi 6)
        then firq
        else when (nonzero cpu.irqs_pending && not (test_bit cpu.efi 4)) irq
    on_cpu λ c. record c { cc_changed = 0 }
