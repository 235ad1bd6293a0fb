-- ===== src/Core/Interrupt/Pending.antt =====
-- Masked interrupts (6809.c, `request_irq`, `request_firq`, `release_irq` and `cc_modified`).
use exec.Base.{
  ℕ, ◌<◌, ◌≡◌, refl, sym, arith, ap, ◌∙◌, Bool, true, false, bit_or, ◌&&◌, not, if◌then◌else◌, ltb,
}
use exec.Base.Word.{test_bit, nonzero, shl32}
use exec.Base.Bits.{bit_or_between}
use exec.Base.Table.{all_below, all_below_sound}
use exec.Base.Run.{M, done, done_injective, bind_outcome}
use exec.Core.Board.{Sys, Board, on_cpu}
use exec.Core.Stack.{when}
use exec.Core.Interrupt.{irq, firq, request_irq, cc_modified}

source_bit : (source : ℕ) → source < 32 → ltb 0 (shl32 1 source) ≡ true
source_bit source lt =
    all_below_sound 32 (λ k. ltb 0 (shl32 1 k)) source (unfold all_below in refl) lt

-- The choice of `cc_modified` when only an unmasked ordinary interrupt is pending.
taken :
    {E : Type 0} (fast fast_mask plain plain_mask : Bool) (f i : M (Sys E) (Unit {0})) (s : Sys E)
    → fast ≡ false
    → plain ≡ true
    → plain_mask ≡ false
    → (if fast && not fast_mask then f else when (plain && not plain_mask) i) s ≡ i s
taken fast fast_mask plain plain_mask f i s none some_pending unmasked =
    rw (none, some_pending, unmasked) refl

module _ {E : Type 0} (board : Board E) where
  -- The requests with one more.
  abbrev pub requested : ℕ → Sys E → Sys E
  requested source s = record {
    cpu = record (s.cpu) { irqs_pending = bit_or s.cpu.irqs_pending (shl32 1 source) };
    env = s.env;
  }

  request_masked :
      (source : ℕ) (s : Sys E)
      → test_bit s.cpu.efi 4 ≡ true
      → request_irq board source s ≡ done tt (requested source s)
  unfolding request_irq
  request_masked source s masked = ap (λ t. when (not t) (irq board) (requested source s)) masked

  -- A request from a source below 32 while interrupts are masked is kept: from any later state in
  -- which the pending interrupts are as the request left them, none of the fast ones pends and the
  -- mask is clear, `cc_modified` takes the interrupt and then clears `cc_changed`.
  pub irq-request_irq :
      (source : ℕ) (s s1 s2 : Sys E)
      → source < 32
      → test_bit s.cpu.efi 4 ≡ true
      → request_irq board source s ≡ done tt s1
      → s2.cpu.irqs_pending ≡ s1.cpu.irqs_pending
      → s2.cpu.firqs_pending ≡ 0
      → test_bit s2.cpu.efi 4 ≡ false
      → cc_modified board s2
        ≡ bind_outcome
            (irq board s2)
            (λ v s3. done tt (record { cpu = record (s3.cpu) { cc_changed = 0 }; env = s3.env }))
  unfolding cc_modified
  irq-request_irq source s s1 s2 lt masked run kept none unmasked =
      let left : requested source s ≡ s1 =
        done_injective (requested source s) s1 (sym (request_masked source s masked) ∙ run) in
      let pending : s2.cpu.irqs_pending ≡ bit_or s.cpu.irqs_pending (shl32 1 source) =
        kept ∙ sym (ap (λ s. s.cpu.irqs_pending) left) in
      let between = bit_or_between s.cpu.irqs_pending (shl32 1 source) in
      let left_over : nonzero s2.cpu.irqs_pending ≡ true =
        ground (arith, pending, between, source_bit source lt) in
      ap (λ r. bind_outcome r (λ v. on_cpu (λ c. record c { cc_changed = 0 })))
        (taken (nonzero s2.cpu.firqs_pending) (test_bit s2.cpu.efi 6) (nonzero s2.cpu.irqs_pending)
          (test_bit s2.cpu.efi 4) (firq board) (irq board) s2 (ground arith) left_over unmasked)
