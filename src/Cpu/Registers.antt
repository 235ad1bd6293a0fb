-- ===== src/Cpu/Registers.antt =====
-- The register numbers of `get_reg` and `set_reg`: a lens for each, on registers in range.
use exec.Base.{
  ℕ, zero, suc, ◌+◌, ◌*◌, ◌%◌, ◌^◌, ◌<◌, ◌≤◌, ◌≡◌, ◌≢◌, ◌⊎◌, inl, inr, refl, sym, arith, ◌∙◌, ap,
  bit_or,
}
use exec.Base.Word.{shl32, shr, low}
use exec.Base.Bits.{bit_or_fields}
use exec.Cpu.{Cpu, get_reg, set_reg, get_cc, set_cc}
use exec.Cpu.Cc.{get_cc-set_cc, get_cc-IsCc}

-- The registers hold what their widths allow, PC apart, which the source reduces only when it is read.
pub record InRange (cpu : Cpu) : Type 0 where
  pub x_range : cpu.x < 65536
  pub y_range : cpu.y < 65536
  pub s_range : cpu.s < 65536
  pub u_range : cpu.u < 65536
  pub a_range : cpu.a < 256
  pub b_range : cpu.b < 256
  pub dp_range : cpu.dp < 65536
  pub dp_page : cpu.dp % 256 ≡ 0
  pub efi_range : cpu.efi < 256

-- The numbers of the 16-bit registers D, X, Y, U, S and PC, and of the 8-bit ones A, B, CC and DP.
abbrev pub IsWide : ℕ → Type 0
IsWide r = r < 6

abbrev pub IsNarrow : ℕ → Type 0
IsNarrow r = (8 ≤ r) × (r < 12)

narrow-cases : (r : ℕ) → IsNarrow r → (r ≡ 8) ⊎ ((r ≡ 9) ⊎ ((r ≡ 10) ⊎ (r ≡ 11)))
narrow-cases r w = omega arith

d_sum : (a b : ℕ) → a < 256 → b < 256 → bit_or (shl32 a 8) b ≡ a * 256 + b
d_sum a b p q = ap (λ (t : ℕ). bit_or t b) (unwrapped a p) ∙ bit_or_fields 8 a b q
  where
    unwrapped : (a : ℕ) → a < 256 → shl32 a 8 ≡ a * 2 ^ 8
    unwrapped a p = omega arith

-- A 16-bit value that `set_reg` puts in a 16-bit register is read back by `get_reg`.
pub get_reg-set_reg_wide :
    (r v : ℕ) (cpu : Cpu) → IsWide r → v < 65536 → get_reg r (set_reg r v cpu) ≡ v
unfolding get_reg set_reg
get_reg-set_reg_wide r v cpu w h =
    ground (arith, d_sum (shr v 8) (low v 8) (omega arith) (omega arith))

pub get_reg-set_reg_narrow :
    (r v : ℕ) (cpu : Cpu) → IsNarrow r → v < 256 → get_reg r (set_reg r v cpu) ≡ v
get_reg-set_reg_narrow r v cpu w h = unfold get_reg set_reg in ground (arith, get_cc-set_cc v cpu h)

pub get_reg-set_reg_wide_ne :
    (r r' v : ℕ) (cpu : Cpu)
    → IsWide r
    → IsWide r'
    → r ≢ r'
    → get_reg r (set_reg r' v cpu) ≡ get_reg r cpu
unfolding get_reg set_reg
get_reg-set_reg_wide_ne zero r' v cpu w w' ne = ground arith
get_reg-set_reg_wide_ne (suc zero) r' v cpu w w' ne = ground arith
get_reg-set_reg_wide_ne (suc (suc zero)) r' v cpu w w' ne = ground arith
get_reg-set_reg_wide_ne (suc (suc (suc zero))) r' v cpu w w' ne = ground arith
get_reg-set_reg_wide_ne (suc (suc (suc (suc zero)))) r' v cpu w w' ne = ground arith
get_reg-set_reg_wide_ne (suc (suc (suc (suc (suc zero))))) r' v cpu w w' ne = ground arith
get_reg-set_reg_wide_ne (suc (suc (suc (suc (suc (suc r)))))) r' v cpu w w' ne =
    absurd (omega arith)

-- The condition codes are apart from the other narrow registers.
get_cc-set_reg : (r v : ℕ) (cpu : Cpu) → IsNarrow r → 10 ≢ r → get_cc (set_reg r v cpu) ≡ get_cc cpu
unfolding get_cc set_reg
get_cc-set_reg r v cpu w ne = elim (narrow-cases r w) [
  | inl e ↦ rw e refl
  | inr (inl e) ↦ rw e refl
  | inr (inr (inl e)) ↦ absurd (ne (sym e))
  | inr (inr (inr e)) ↦ rw e refl
]

-- `set_reg` of one 8-bit register leaves what `get_reg` reads of another 8-bit register.
pub get_reg-set_reg_narrow_ne :
    (r r' v : ℕ) (cpu : Cpu)
    → IsNarrow r
    → IsNarrow r'
    → r ≢ r'
    → get_reg r (set_reg r' v cpu) ≡ get_reg r cpu
unfolding get_reg
get_reg-set_reg_narrow_ne r r' v cpu w w' ne = elim (narrow-cases r w) [
  | inl e ↦ rw e (unfold set_reg set_cc in ground arith)
  | inr (inl e) ↦ rw e (unfold set_reg set_cc in ground arith)
  | inr (inr (inl e)) ↦ rw e (get_cc-set_reg r' v cpu w' (rw e at ne))
  | inr (inr (inr e)) ↦ rw e (unfold set_reg set_cc in ground arith)
]

-- What is read fits the width of the register.
pub get_reg_wide-lt : (r : ℕ) (cpu : Cpu) → InRange cpu → IsWide r → get_reg r cpu < 65536
unfolding get_reg
get_reg_wide-lt r cpu v w = ground (arith, d_sum cpu.a cpu.b v.a_range v.b_range)

pub get_reg_narrow-lt : (r : ℕ) (cpu : Cpu) → InRange cpu → IsNarrow r → get_reg r cpu < 256
unfolding get_reg
get_reg_narrow-lt r cpu v w = ground (arith, (get_cc-IsCc cpu v.efi_range).byte)
