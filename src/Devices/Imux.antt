-- ===== src/Devices/Imux.antt =====
-- The interrupt multiplexer (imux.c): it joins the lines of several devices into one of the processor.
pub mod Line
use exec.Base.{ℕ, bit_and, bit_or, if◌then◌else◌, ◌==◌}
use exec.Base.Word.{shl32, low, nonzero, not32}
use exec.Base.Run.{M, ◌>>=◌, ◌>>◌, pure}
use exec.Core.Board.{Sys, Board}
use exec.Core.Interrupt.{request_irq, request_firq, release_irq, release_firq}

pub record Imux : Type 0 where
  pub in_use : ℕ
  pub enabled : ℕ
  pub pending : ℕ
  pub src : ℕ

unfoldable pub imux_reset : Imux → Imux
imux_reset mux = record mux { enabled = 0; pending = 0 }

-- Any other address reads -1, as a `U8`.
unfoldable pub imux_read : ℕ → Imux → ℕ
imux_read addr mux =
    if addr == 0 then low mux.enabled 8 else if addr == 1 then low mux.pending 8 else 0xff

unfoldable pub imux_register : ℕ → Imux → Imux
imux_register sig mux = record mux { in_use = bit_or mux.in_use (shl32 1 sig) }

module _ {E : Type 0} (board : Board E) where
  unfoldable pub imux_refresh : Imux → M (Sys E) (Unit {0})
  imux_refresh mux =
      if nonzero (bit_and mux.pending mux.enabled)
      then (if mux.src == 1 then request_irq board mux.src else request_firq board mux.src)
      else (if mux.src == 1 then release_irq board mux.src else release_firq board mux.src)

  unfoldable pub imux_write : ℕ → ℕ → Imux → M (Sys E) Imux
  imux_write addr val mux =
      let after =
        if addr == 0
        then record mux { enabled = val }
        else if addr == 1
        then record mux { pending = bit_and mux.pending (not32 val) }
        else mux in
      (do imux_refresh after; pure after)

  unfoldable pub imux_assert : ℕ → Imux → M (Sys E) Imux
  imux_assert sig mux =
      let after = record mux { pending = bit_or mux.pending (shl32 1 sig) } in
      (do imux_refresh after; pure after)
