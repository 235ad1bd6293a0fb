-- ===== src/Core/Transfer/Swap.antt =====
-- What `exg` and `tfr` do to the registers that they name.
use exec.Base.{◌⊎◌, inl, inr, ℕ, ◌+◌, ◌*◌, ◌<◌, ◌≡◌, ◌≢◌, sym, arith, ◌∙◌, ap, false}
use exec.Base.Word.{shl32, shr, low}
use exec.Base.Bits.{bit_xor_bit}
use exec.Cpu.{Cpu, get_reg, set_reg}
use exec.Cpu.Registers.{
  InRange, IsWide, IsNarrow, get_reg-set_reg_wide, get_reg-set_reg_narrow, get_reg-set_reg_wide_ne,
  get_reg-set_reg_narrow_ne, get_reg_wide-lt, get_reg_narrow-lt,
}
use exec.Core.Transfer.{exchange, sizes_differ}

-- The size test on the post byte `16 * hi + lo`.
sizes_agree_wide : (hi lo : ℕ) → IsWide hi → IsWide lo → sizes_differ (16 * hi + lo) ≡ false
sizes_agree_wide hi lo h l = ground (arith, bit_xor_bit 7 (16 * hi + lo) (shl32 (16 * hi + lo) 4))

sizes_agree_narrow : (hi lo : ℕ) → IsNarrow hi → IsNarrow lo → sizes_differ (16 * hi + lo) ≡ false
sizes_agree_narrow hi lo h l = ground (arith, bit_xor_bit 7 (16 * hi + lo) (shl32 (16 * hi + lo) 4))

-- With sizes that agree, the exchange is two writes of the old values.
exchange_writes :
    (hi lo : ℕ) (cpu : Cpu)
    → lo < 16
    → sizes_differ (16 * hi + lo) ≡ false
    → exchange (16 * hi + lo) cpu ≡ set_reg hi (get_reg lo cpu) (set_reg lo (get_reg hi cpu) cpu)
unfolding exchange
exchange_writes hi lo cpu l e =
    let high : shr (16 * hi + lo) 4 ≡ hi = omega arith in
    let rest : low (16 * hi + lo) 4 ≡ lo = omega arith in rw (e, high, rest)

-- The two registers, of one size and not the same, have changed their values.
abbrev Swapped : ℕ → ℕ → Cpu → Type 0
Swapped hi lo cpu =
    (get_reg hi (exchange (16 * hi + lo) cpu) ≡ get_reg lo cpu)
    × (get_reg lo (exchange (16 * hi + lo) cpu) ≡ get_reg hi cpu)

-- With the registers in range, `exg` of two different 16-bit registers leaves in each the value
-- that the other had.
pub exchange_wide :
    (hi lo : ℕ) (cpu : Cpu) → InRange cpu → IsWide hi → IsWide lo → hi ≢ lo → Swapped hi lo cpu
exchange_wide hi lo cpu r h l ne =
    let written = exchange_writes hi lo cpu (omega arith) (sizes_agree_wide hi lo h l) in
    let after = set_reg lo (get_reg hi cpu) cpu in
    (
      ap (get_reg hi) written
          ∙ get_reg-set_reg_wide hi (get_reg lo cpu) after h (get_reg_wide-lt lo cpu r l),
      ap (get_reg lo) written
          ∙ get_reg-set_reg_wide_ne lo hi (get_reg lo cpu) after l h (λ e. ne (sym e))
          ∙ get_reg-set_reg_wide lo (get_reg hi cpu) cpu l (get_reg_wide-lt hi cpu r h),
    )

-- With the registers in range, `exg` of two different 8-bit registers, CC and DP included, leaves
-- in each the value that the other had.
pub exchange_narrow :
    (hi lo : ℕ) (cpu : Cpu) → InRange cpu → IsNarrow hi → IsNarrow lo → hi ≢ lo → Swapped hi lo cpu
exchange_narrow hi lo cpu r h l ne =
    let written = exchange_writes hi lo cpu (omega arith) (sizes_agree_narrow hi lo h l) in
    let after = set_reg lo (get_reg hi cpu) cpu in
    (
      ap (get_reg hi) written
          ∙ get_reg-set_reg_narrow hi (get_reg lo cpu) after h (get_reg_narrow-lt lo cpu r l),
      ap (get_reg lo) written
          ∙ get_reg-set_reg_narrow_ne lo hi (get_reg lo cpu) after l h (λ e. ne (sym e))
          ∙ get_reg-set_reg_narrow lo (get_reg hi cpu) cpu l (get_reg_narrow-lt hi cpu r h),
    )

-- With the registers in range, `exg` of two different registers, both of 16 bits or both of 8
-- bits, CC and DP included, leaves in each the value that the other had.
pub exchange-Swapped :
    (hi lo : ℕ) (cpu : Cpu)
    → InRange cpu
    → (IsWide hi × IsWide lo) ⊎ (IsNarrow hi × IsNarrow lo)
    → hi ≢ lo
    → Swapped hi lo cpu
exchange-Swapped hi lo cpu r (inl (h, l)) ne = exchange_wide hi lo cpu r h l ne
exchange-Swapped hi lo cpu r (inr (h, l)) ne = exchange_narrow hi lo cpu r h l ne
