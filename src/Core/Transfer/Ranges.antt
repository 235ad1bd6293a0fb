-- ===== src/Core/Transfer/Ranges.antt =====
-- `exg` and `tfr` keep every register within its width, whatever the post byte (6809.c).
use exec.Base.{ℕ, ◌<◌, ◌≤◌, ◌≡◌, ◌⊎◌, inl, inr, arith, false, Bool-cases, if◌then◌else◌}
use exec.Base.Word.{shl32, shr, low}
use exec.Base.Bits.{bit_xor_bit, bit_and-le_left}
use exec.Cpu.{Cpu, get_reg, set_reg, set_cc, efi_mask}
use exec.Cpu.Registers.{InRange, get_reg_wide-lt, get_reg_narrow-lt}
use exec.Core.Transfer.{exchange, transfer, sizes_differ}

-- PC included.
pub record AllInRange (cpu : Cpu) : Type 0 where
  pub registers : InRange cpu
  pub pc_range : cpu.pc < 65536

-- A value that fits the register of a number.
abbrev Fits : ℕ → ℕ → Type 0
Fits r v = (v < 65536) × ((r < 8) ⊎ (v < 256))

set_reg-InRange : (r v : ℕ) (cpu : Cpu) → InRange cpu → Fits r v → InRange (set_reg r v cpu)
set_reg-InRange r v cpu ok fits = record {
  x_range = unfold set_reg set_cc in ground (arith, ok.x_range);
  y_range = unfold set_reg set_cc in ground (arith, ok.y_range);
  s_range = unfold set_reg set_cc in ground (arith, ok.s_range);
  u_range = unfold set_reg set_cc in ground (arith, ok.u_range);
  a_range = unfold set_reg set_cc in ground (arith, ok.a_range);
  b_range = unfold set_reg set_cc in ground (arith, ok.b_range);
  dp_range = unfold set_reg set_cc in ground (arith, ok.dp_range);
  dp_page = unfold set_reg set_cc in ground (arith, ok.dp_page);
  efi_range = unfold set_reg set_cc in ground (arith, ok.efi_range, bit_and-le_left v efi_mask);
}

set_reg-pc : (r v : ℕ) (cpu : Cpu) → cpu.pc < 65536 → Fits r v → (set_reg r v cpu).pc < 65536
set_reg-pc r v cpu lt fits = unfold set_reg set_cc in ground arith

set_reg-AllInRange :
    (r v : ℕ) (cpu : Cpu) → AllInRange cpu → Fits r v → AllInRange (set_reg r v cpu)
set_reg-AllInRange r v cpu ok fits = record {
  registers = set_reg-InRange r v cpu ok.registers fits;
  pc_range = set_reg-pc r v cpu ok.pc_range fits;
}

-- What is read of a number below 8, and of one from 8 on; an unlisted number reads 0xff.
read_wide : (r : ℕ) (cpu : Cpu) → InRange cpu → r < 8 → get_reg r cpu < 65536
read_wide r cpu ok lt = elim (wide-cases r lt) [
  | inl w ↦ get_reg_wide-lt r cpu ok w
  | inr (inl e) ↦ rw e (unfold get_reg in omega arith)
  | inr (inr e) ↦ rw e (unfold get_reg in omega arith)
]
  where
    wide-cases : (r : ℕ) → r < 8 → (r < 6) ⊎ ((r ≡ 6) ⊎ (r ≡ 7))
    wide-cases r lt = omega arith

read_narrow : (r : ℕ) (cpu : Cpu) → InRange cpu → 8 ≤ r → get_reg r cpu < 256
read_narrow r cpu ok le = elim (narrow-cases r) [
  | inl lt ↦ get_reg_narrow-lt r cpu ok (le, lt)
  | inr far ↦ unfold get_reg in ground arith
]
  where
    narrow-cases : (r : ℕ) → (r < 12) ⊎ (12 ≤ r)
    narrow-cases r = omega arith

same_sizes :
    (post : ℕ)
    → post < 256
    → sizes_differ post ≡ false
    → ((shr post 4 < 8) × (low post 4 < 8)) ⊎ ((8 ≤ shr post 4) × (8 ≤ low post 4))
same_sizes post h e = ground (arith, bit_xor_bit 7 post (shl32 post 4))

-- What an instruction with this post byte moves fits where it goes.
moved :
    (post from into : ℕ) (cpu : Cpu)
    → InRange cpu
    → (sizes_differ post ≡ false → ((from < 8) × (into < 8)) ⊎ ((8 ≤ from) × (8 ≤ into)))
    → Fits into (if sizes_differ post then 0xff else get_reg from cpu)
moved post from into cpu ok sizes = elim (Bool-cases (sizes_differ post)) [
  | inl differ ↦ rw differ (omega arith, inr (omega arith))
  | inr agree ↦ rw agree (elim (sizes agree) [
    | inl (w, w') ↦ (read_wide from cpu ok w, inl w')
    | inr (n, n') ↦ (omega (arith, read_narrow from cpu ok n), inr (read_narrow from cpu ok n))
  ])
]

-- `tfr` keeps all registers, PC included, within their widths, for every post byte, the ones that name no
-- register or registers of different sizes included.
pub transfer-InRange :
    (post : ℕ) (cpu : Cpu) → post < 256 → AllInRange cpu → AllInRange (transfer post cpu)
transfer-InRange post cpu lt ok =
    unfold transfer in
    set_reg-AllInRange (low post 4) _ cpu ok
      (moved post (shr post 4) (low post 4) cpu ok.registers (same_sizes post lt))

-- `exg` keeps all registers, PC included, within their widths, for every post byte, the ones that name no
-- register or registers of different sizes included.
pub exchange-InRange :
    (post : ℕ) (cpu : Cpu) → post < 256 → AllInRange cpu → AllInRange (exchange post cpu)
exchange-InRange post cpu lt ok =
    unfold exchange in
    set_reg-AllInRange (shr post 4) _ _
      (set_reg-AllInRange (low post 4) _ cpu ok
        (moved post (shr post 4) (low post 4) cpu ok.registers (same_sizes post lt)))
      (moved post (low post 4) (shr post 4) cpu ok.registers (λ e. swap (same_sizes post lt e)))
  where
    swap : {A B C D : Type 0} → (A × B) ⊎ (C × D) → (B × A) ⊎ (D × C)
    swap (inl (a, b)) = inl (b, a)
    swap (inr (c, d)) = inr (d, c)

-- `exg` and `tfr` keep all registers, PC included, within their widths, for every post byte, the
-- ones that name no register or registers of different sizes included.
pub exchange-transfer-InRange :
    (post : ℕ) (cpu : Cpu)
    → post < 256
    → AllInRange cpu
    → AllInRange (exchange post cpu) × AllInRange (transfer post cpu)
exchange-transfer-InRange post cpu lt ok =
    (exchange-InRange post cpu lt ok, transfer-InRange post cpu lt ok)
