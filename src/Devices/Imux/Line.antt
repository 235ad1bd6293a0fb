-- ===== src/Devices/Imux/Line.antt =====
-- The line of the multiplexer into the processor (imux.c, `imux_refresh`).
use exec.Base.{
  ℕ, ◌/◌, ◌%◌, ◌^◌, ◌<◌, ◌≡◌, refl, arith, ap, Bool, true, false, bit_and, bit_or, not,
  if◌then◌else◌, ◌==◌,
}
use exec.Base.Word.{not32, test_bit, nonzero}
use exec.Base.Bits.{bit_or_bit, bit_and_bit}
use exec.Base.Table.{all_below, eq_of_table}
use exec.Base.Run.{done}
use exec.Core.Board.{Sys, Board}
use exec.Core.Stack.{when}
use exec.Core.Interrupt.{irq, request_irq, release_irq}
use exec.Devices.Imux.{Imux, imux_refresh}

-- The request bits with the line raised or lowered.
abbrev pub line : Bool → ℕ → ℕ
line up pending = if up then bit_or pending 2 else bit_and pending (not32 2)

-- Digit `k` of the mask that lowers the line.
mask_digits : (k : ℕ) → k < 32 → not32 2 / 2 ^ k % 2 ≡ (if k == 1 then 0 else 1)
mask_digits = eq_of_table 32 _ _ (unfold all_below in refl)

line_digits : (k : ℕ) → k < 32 → 2 / 2 ^ k % 2 ≡ (if k == 1 then 1 else 0)
line_digits = eq_of_table 32 _ _ (unfold all_below in refl)

-- The line shows at bit 1, and the other sources keep their bits.
line_bit :
    (up : Bool) (pending k : ℕ)
    → k < 32
    → test_bit (line up pending) k ≡ (if k == 1 then up else test_bit pending k)
line_bit true pending k lt = ground (arith, bit_or_bit k pending 2, line_digits k lt)
line_bit false pending k lt = ground (arith, bit_and_bit k pending (not32 2), mask_digits k lt)

module _ {E : Type 0} (board : Board E) where
  refresh_masked :
      (up : Bool) (mux : Imux) (s : Sys E)
      → mux.src ≡ 1
      → nonzero (bit_and mux.pending mux.enabled) ≡ up
      → test_bit s.cpu.efi 4 ≡ true
      → imux_refresh board mux s
        ≡ done tt (record {
          cpu = record (s.cpu) { irqs_pending = line up s.cpu.irqs_pending };
          env = s.env;
        })
  unfolding imux_refresh
  refresh_masked true mux s at up masked =
      rw (up, at)
        (unfold request_irq in
          ap
            (λ t. when (not t) (irq board) (record {
              cpu = record (s.cpu) { irqs_pending = line true s.cpu.irqs_pending };
              env = s.env;
            }))
            masked)
  refresh_masked false mux s at up masked = rw (up, at) (unfold release_irq in refl)

  -- For a multiplexer on line 1, with interrupts masked and a source below 32: `imux_refresh`
  -- returns, and of the pending interrupts that it leaves, number 1 is set exactly when an enabled
  -- line of the multiplexer is pending, and every other source is as it was; nothing else changes.
  pub imux_refresh-line :
      (mux : Imux) (s : Sys E) (k : ℕ)
      → mux.src ≡ 1
      → test_bit s.cpu.efi 4 ≡ true
      → k < 32
      → let up = nonzero (bit_and mux.pending mux.enabled) in
        (pending : ℕ) × (imux_refresh board mux s
          ≡ done tt (record { cpu = record (s.cpu) { irqs_pending = pending }; env = s.env }))
        × (test_bit pending k ≡ (if k == 1 then up else test_bit s.cpu.irqs_pending k))
  imux_refresh-line mux s k at masked lt =
      let up = nonzero (bit_and mux.pending mux.enabled) in
      (
        line up s.cpu.irqs_pending,
        refresh_masked up mux s at refl masked,
        line_bit up s.cpu.irqs_pending k lt,
      )
