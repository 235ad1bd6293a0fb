-- ===== src/Alu/Product.antt =====
-- `mul` and `sex`: the two instructions that make a 16-bit value out of bytes.
use exec.Base.{ℕ, ◌+◌, ◌*◌, ◌^◌, ◌≤◌, ◌<◌, ◌≡◌, arith, ap, ◌∙◌, ◌==◌, leb, bit_or}
use exec.Base.Int.{signed8, signed16}
use exec.Base.Word.{test_bit, shl32}
use exec.Base.Bits.{bit_or_fields}
use native.Mathlib.Nat.{mul-le-mul}
use exec.Cpu.{Cpu, get_d}
use exec.Cpu.Flags.{cond_lo, cond_eq, cond_mi}
use exec.Alu.{mul, sex}

-- The D register is the two accumulators side by side.
pub get_d-sum : (cpu : Cpu) → cpu.a < 256 → cpu.b < 256 → get_d cpu ≡ cpu.a * 256 + cpu.b
unfolding get_d
get_d-sum cpu p q = ap (λ (t : ℕ). bit_or t cpu.b) unwrapped ∙ bit_or_fields 8 cpu.a cpu.b q
  where
    unwrapped : shl32 cpu.a 8 ≡ cpu.a * 2 ^ 8
    unwrapped = omega arith

small : (a c b d : ℕ) → a ≤ c → b ≤ d → a * b ≤ c * d
small a c b d p q = mul-le-mul p q

product_fits : (a b : ℕ) → a < 256 → b < 256 → a * b < 65536
product_fits a b p q = omega (arith, small a 255 b 255 (omega arith) (omega arith))

-- For A and B bytes, `mul` leaves their exact product in D, bit 7 of it in C, and the zero test of
-- it in Z.
pub mul-product :
    (cpu : Cpu)
    → cpu.a < 256
    → cpu.b < 256
    → (get_d (mul cpu) ≡ cpu.a * cpu.b)
      × (cond_lo (mul cpu) ≡ test_bit (cpu.a * cpu.b) 7)
      × (cond_eq (mul cpu) ≡ (cpu.a * cpu.b == 0))
unfolding mul cond_lo cond_eq
mul-product cpu p q = (
  get_d-sum (mul cpu) (unfold mul in omega (arith, product_fits cpu.a cpu.b p q))
        (unfold mul in omega arith)
      ∙ unfold mul in omega (arith, product_fits cpu.a cpu.b p q),
  ground (arith, product_fits cpu.a cpu.b p q),
  ground (arith, product_fits cpu.a cpu.b p q),
)

-- For B a byte, after `sex` the signed value of D is the signed value that B had; N and Z are the
-- sign and the zero test of B.
pub sex_signed :
    (cpu : Cpu)
    → cpu.b < 256
    → (signed16 (get_d (sex cpu)) ≡ signed8 cpu.b)
      × (cond_mi (sex cpu) ≡ leb 128 cpu.b)
      × (cond_eq (sex cpu) ≡ (cpu.b == 0))
unfolding sex cond_mi cond_eq
sex_signed cpu q = (
  rw (get_d-sum (sex cpu) (unfold sex in ground arith) q) (unfold sex in ground arith),
  ground arith,
  ground arith,
)
