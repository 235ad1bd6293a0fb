-- ===== src/Core/Interrupt/RoundTrip.antt =====
-- An interrupt and its return (6809.c, `irq` and `rti`).
use exec.Base.{
  ℕ, ◌+◌, ◌-◌, ◌<◌, ◌≤◌, ◌≡◌, refl, sym, arith, ap, ◌∙◌, subst, get_elem?-lt, true, bit_and, bit_or,
}
use exec.Base.Word.{low, test_bit}
use exec.Base.Run.{done, done_injective}
use exec.Base.Bits.{bit_and_bit, bit_or_bit, bit_or-lt}
use exec.Cpu.{Cpu, tick, get_cc, set_cc, get_pc, efi_mask}
use exec.Cpu.Cc.{get_cc-set_cc, get_cc-IsCc}
use exec.Cpu.Registers.{InRange}
use exec.Core.Board.{Sys, Board}
use exec.Core.Flat.{IsFlat}
use exec.Core.Stack.Push.{peek-pushes}
use exec.Core.Interrupt.{irq, rti}
use exec.Core.Interrupt.Frame.{frame}
use exec.Core.Interrupt.Return.{Holds, rti_flat, rti_cpu, again_same}
use exec.Core.Interrupt.Enter.{entire, handler_cpu, stacked, irq_flat}

-- The registers of `before` again, the E flag set.
pub record IsReturned (before after : Cpu) : Type 0 where
  pub a_same : after.a ≡ before.a
  pub b_same : after.b ≡ before.b
  pub dp_same : after.dp ≡ before.dp
  pub x_same : after.x ≡ before.x
  pub y_same : after.y ≡ before.y
  pub u_same : after.u ≡ before.u
  pub s_same : after.s ≡ before.s
  pub pc_same : after.pc ≡ get_pc before
  pub cc_same : get_cc after ≡ get_cc (entire before)

entire-lt : (efi : ℕ) → efi < 256 → bit_or efi 0x80 < 256
entire-lt efi h = bit_or-lt 8 efi 0x80 h (omega arith)

entire_flag :
    (r efi : ℕ)
    → bit_and r efi_mask ≡ bit_and (bit_or efi 0x80) efi_mask
    → test_bit (bit_and r efi_mask) 7 ≡ true
entire_flag r efi e =
    rw e (ground (arith, bit_and_bit 7 (bit_or efi 0x80) efi_mask, bit_or_bit 7 efi 0x80))

entire_set :
    (cpu : Cpu) → InRange cpu → test_bit (bit_and (low (get_cc (entire cpu)) 8) efi_mask) 7 ≡ true
entire_set cpu v =
    let cc = get_cc-IsCc (entire cpu) (entire-lt cpu.efi v.efi_range) in
    let whole : low (get_cc (entire cpu)) 8 ≡ get_cc (entire cpu) = omega (arith, cc.byte) in
    entire_flag (low (get_cc (entire cpu)) 8) cpu.efi
      (ap (λ (r : ℕ). bit_and r efi_mask) whole ∙ cc.efi_flags)

module _ {E : Type 0} (board : Board E) (Ok : E → Type 0) (peek : E → ℕ → ℕ) (poke : ℕ → ℕ → E → E)
    (top : ℕ) (flat : IsFlat board Ok peek poke top) where
  -- The condition codes are those that `set_cc` stored.
  flags_only :
      (before now : Cpu) (t : ℕ) (fit : t + 12 ≤ top)
      → get_cc (rti_cpu board Ok peek poke top flat (entire before) t fit now)
        ≡ get_cc (set_cc (low (get_cc (entire before)) 8) (tick 6 now))
  flags_only before now t fit = unfold get_cc in refl

  IsReturned-rti_cpu :
      (before now : Cpu) (t : ℕ) (fit : t + 12 ≤ top)
      → InRange before
      → before.s ≡ t + 12
      → IsReturned before (rti_cpu board Ok peek poke top flat (entire before) t fit now)
  IsReturned-rti_cpu before now t fit v at =
      let efi_lt : bit_or before.efi 0x80 < 256 = entire-lt before.efi v.efi_range in
      let cc = get_cc-IsCc (entire before) efi_lt in
      record {
        a_same = omega (arith, v.a_range);
        b_same = omega (arith, v.b_range);
        dp_same = omega (arith, v.dp_range, v.dp_page);
        x_same = again_same before.x v.x_range;
        y_same = again_same before.y v.y_range;
        u_same = again_same before.u v.u_range;
        s_same = omega arith;
        pc_same = unfold get_pc in again_same (low before.pc 16) (omega arith);
        cc_same =
            flags_only before now t fit
            ∙ get_cc-set_cc (low (get_cc (entire before)) 8) (tick 6 now) (omega arith)
            ∙ omega (arith, cc.byte);
      }

  frame_held :
      (s : Sys E) (e : E)
      → Ok s.env
      → 12 ≤ s.cpu.s
      → s.cpu.s ≤ top
      → ((at : ℕ)
          → s.cpu.s - 12 ≤ at
          → at < s.cpu.s
          → peek e at ≡ peek (stacked board Ok peek poke top flat s) at)
      → Holds peek e s.cpu.s (entire s.cpu)
  frame_held s e ok lo hi same i b at =
      same (s.cpu.s - 1 - i) (omega (arith, get_elem?-lt (frame (entire s.cpu)) i b at))
        (omega arith)
      ∙ peek-pushes board Ok peek poke top flat s.cpu.s (frame (entire s.cpu)) s.env i b ok hi lo at

  -- On a board that, in its good states, serves the addresses below `top` as plain memory, from
  -- such states, with the registers in range and S between 12 and `top`: after `irq`, from any
  -- state in which S and the stacked bytes are as `irq` left them, `rti` returns, gives A, B, DP,
  -- X, Y, U, S and the 16-bit PC their values from before the interrupt and the condition codes
  -- that value with the E flag set, and changes no memory.
  pub rti-irq :
      (s s1 s2 : Sys E)
      → Ok s.env
      → Ok s2.env
      → 12 ≤ s.cpu.s
      → s.cpu.s ≤ top
      → InRange s.cpu
      → irq board s ≡ done tt s1
      → s2.cpu.s ≡ s1.cpu.s
      → ((at : ℕ) → s1.cpu.s ≤ at → at < s.cpu.s → peek s2.env at ≡ peek s1.env at)
      → (s3 : Sys E) × (rti board s2 ≡ done tt s3)
        × IsReturned s.cpu s3.cpu
        × ((at : ℕ) → peek s3.env at ≡ peek s2.env at)
  rti-irq s s1 s2 ok ok2 lo hi v run sp same =
      let left : Sys E = record {
        cpu = handler_cpu (flat.word_at (stacked board Ok peek poke top flat s) 0xfff8) s.cpu;
        env = stacked board Ok peek poke top flat s;
      } in
      let entered : left ≡ s1 =
        done_injective left s1 (sym (irq_flat board Ok peek poke top flat s ok lo hi) ∙ run) in
      let sp_same : s.cpu.s - 12 ≡ s1.cpu.s = ap (λ s. s.cpu.s) entered in
      let held =
        frame_held s s2.env ok lo hi
          (λ at p q. same at (omega arith) q ∙ sym (ap (λ s. peek s.env at) entered)) in
      let fit : s.cpu.s - 12 + 12 ≤ top = omega arith in
      let back : s.cpu.s ≡ s.cpu.s - 12 + 12 = omega arith in
      let run_rti =
        rti_flat board Ok peek poke top flat (entire s.cpu) (s.cpu.s - 12) fit s2 (omega arith) ok2
          (subst (λ n. Holds peek s2.env n (entire s.cpu)) back held) (entire_set s.cpu v) in
      (
        record {
          cpu = rti_cpu board Ok peek poke top flat (entire s.cpu) (s.cpu.s - 12) fit s2.cpu;
          env = run_rti.0;
        },
        run_rti.1,
        IsReturned-rti_cpu s.cpu s2.cpu (s.cpu.s - 12) fit v back,
        run_rti.2,
      )
