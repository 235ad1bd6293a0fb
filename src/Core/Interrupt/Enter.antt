-- ===== src/Core/Interrupt/Enter.antt =====
-- Taking an interrupt (6809.c, `irq`), and its return.
use exec.Base.{arith, ℕ, ◌-◌, ◌≤◌, ◌≡◌, refl, bit_or}
use exec.Base.Run.{done, go_on}
use exec.Cpu.{Cpu, get_cycles}
use exec.Core.Board.{Sys, Board}
use exec.Core.Flat.{IsFlat}
use exec.Core.Stack.Push.{pushes-Ok, pushes}
use exec.Core.Interrupt.{irq, vector, or_efi}
use exec.Core.Interrupt.Frame.{frame, push_state_flat}

-- The machine with the E flag set, as it is stacked.
abbrev pub entire : Cpu → Cpu
entire cpu = or_efi 0x80 cpu

-- The registers in the handler, entered at `target`.
abbrev pub handler_cpu : ℕ → Cpu → Cpu
handler_cpu target cpu = record cpu {
  s = cpu.s - 12;
  efi = bit_or (bit_or cpu.efi 0x80) 0x10;
  irq_start_time = get_cycles cpu;
  pc = target;
  irqs_pending = 0;
}

module _ {E : Type 0} (board : Board E) (Ok : E → Type 0) (peek : E → ℕ → ℕ) (poke : ℕ → ℕ → E → E)
    (top : ℕ) (flat : IsFlat board Ok peek poke top) where
  abbrev pub stacked : Sys E → E
  stacked s = pushes poke s.cpu.s (frame (entire s.cpu)) s.env

  stacked-Ok : (s : Sys E) → Ok s.env → 12 ≤ s.cpu.s → s.cpu.s ≤ top → Ok (stacked s)
  stacked-Ok s ok lo hi =
      pushes-Ok board Ok peek poke top flat s.cpu.s (frame (entire s.cpu)) s.env ok hi (omega arith)

  -- On a board that, in its good states, serves the addresses below `top` as plain memory, from
  -- such states, with S between 12 and `top`: `irq` returns, has stored the twelve bytes of the
  -- register frame, E flag set, downwards from S, lowered S by 12, set the E and I flags and the
  -- start time, cleared the pending interrupts, and gone to the word at 0xfff8.
  pub irq_flat :
      (s : Sys E)
      → Ok s.env
      → 12 ≤ s.cpu.s
      → s.cpu.s ≤ top
      → irq board s
        ≡ done tt
            (record { cpu = handler_cpu (flat.word_at (stacked s) 0xfff8) s.cpu; env = stacked s })
  unfolding irq
  irq_flat s ok lo hi =
      go_on _ _
        (push_state_flat board Ok peek poke top flat (record { cpu = entire s.cpu; env = s.env }) ok
          lo hi)
        (unfold vector get_cycles in
          go_on _ _
            (go_on _ _ (flat.read_word 0xfff8 _ (stacked-Ok s ok lo hi) (omega arith) (omega arith))
              refl)
            refl)
