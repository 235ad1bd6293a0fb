-- ===== src/Base/Bits.antt =====
-- Laws of `bit_and`, `bit_or` and `bit_xor` at variables, by induction on the binary digits.
use Prim.Native.Nat.{min, max, digits, bitwise, differ}
use Prim.Native.Nat.{bit_and-bitwise, bit_or-bitwise, bit_xor-bitwise}
use native.Mathlib.Nat.{le_refl, pow-suc, div-div-eq-div-mul, mul_comm, one-le-pow}
use exec.Base.{ℕ, zero, suc, ◌+◌, ◌-◌, ◌*◌, ◌/◌, ◌%◌, ◌^◌, ◌≤◌, ◌<◌, ◌≡◌, refl, arith, ap}
use exec.Base.{◌⊎◌, inl, inr, bit_and, bit_or, bit_xor}

-- More fuel than digits makes no difference, so the lowest digit can be split off.
module _ (unit : ℕ → ℕ) (op : ℕ → ℕ → ℕ) where
  enough_fuel : (x y i j : ℕ) → x ≤ i → x ≤ j → digits unit op i x y ≡ digits unit op j x y
  enough_fuel zero y zero zero h k = refl
  enough_fuel zero y zero (suc j) h k = refl
  enough_fuel zero y (suc i) zero h k = refl
  enough_fuel zero y (suc i) (suc j) h k = refl
  enough_fuel (suc x) y zero j h k = absurd (omega arith)
  enough_fuel (suc x) y (suc i) zero h k = absurd (omega arith)
  enough_fuel (suc x) y (suc i) (suc j) h k =
      omega (arith, enough_fuel (suc x / 2) (y / 2) i j (omega arith) (omega arith))

  lowest_digit :
      (x y : ℕ)
      → bitwise unit op (suc x) y ≡ op (suc x % 2) (y % 2) + 2 * bitwise unit op (suc x / 2) (y / 2)
  lowest_digit x y =
      let half = suc x / 2 in
      omega (arith, enough_fuel half (y / 2) x half (omega arith) (le_refl half))

-- Two binary digits differ when their sum is odd.
digit-cases : (d : ℕ) → (d % 2 ≡ 0) ⊎ (d % 2 ≡ 1)
digit-cases d = omega arith

differ_digits : (x y : ℕ) → differ (x % 2) (y % 2) ≡ (x % 2 + y % 2) % 2
differ_digits x y = elim (digit-cases x) [
  | inl even ↦ elim (digit-cases y) [
    | inl even' ↦ rw (even, even') refl
    | inr odd ↦ rw (even, odd) refl
  ]
  | inr odd ↦ elim (digit-cases y) [
    | inl even ↦ rw (odd, even) refl
    | inr odd' ↦ rw (odd, odd') refl
  ]
]

pub bit_xor_step : (x y : ℕ) → bit_xor x y ≡ bit_xor (x / 2) (y / 2) * 2 + (x + y) % 2
bit_xor_step zero y = simp bit_xor-bitwise (omega arith)
bit_xor_step (suc x) y =
    simp bit_xor-bitwise (omega (arith, lowest_digit (λ d. d) differ x y, differ_digits (suc x) y))

pub bit_and_step : (x y : ℕ) → bit_and x y ≡ bit_and (x / 2) (y / 2) * 2 + min (x % 2) (y % 2)
bit_and_step zero y = simp bit_and-bitwise (omega arith)
bit_and_step (suc x) y = simp bit_and-bitwise (omega (arith, lowest_digit (λ d. 0) min x y))

pub bit_or_step : (x y : ℕ) → bit_or x y ≡ bit_or (x / 2) (y / 2) * 2 + max (x % 2) (y % 2)
bit_or_step zero y = simp bit_or-bitwise (omega arith)
bit_or_step (suc x) y = simp bit_or-bitwise (omega (arith, lowest_digit (λ d. d) max x y))

-- Induction on a number by halves.
halve {ℓ} : (P : ℕ → Type ℓ) → P 0 → ((a : ℕ) → P (suc a / 2) → P (suc a)) → (n a : ℕ) → a ≤ n → P a
halve P base step n zero h = base
halve P base step zero (suc a) h = absurd (omega arith)
halve P base step (suc n) (suc a) h = step a (halve P base step n (suc a / 2) (omega arith))

bit_and-zero : (a : ℕ) → bit_and a 0 ≡ 0
bit_and-zero a =
    halve (λ a. bit_and a 0 ≡ 0) refl (λ a h. omega (arith, bit_and_step (suc a) 0)) a a (le_refl a)

bit_or-zero : (a : ℕ) → bit_or a 0 ≡ a
bit_or-zero a =
    halve (λ a. bit_or a 0 ≡ a) refl (λ a h. omega (arith, bit_or_step (suc a) 0)) a a (le_refl a)

double_shift : (n k : ℕ) → n * 2 ^ suc k ≡ 2 * (n * 2 ^ k)
double_shift n k = omega (arith, ap (λ (p : ℕ). n * p) (pow-suc 2 k))

div-pow-suc : (a k : ℕ) → a / 2 ^ suc k ≡ a / 2 / 2 ^ k
div-pow-suc a k = rw (div-div-eq-div-mul, pow-suc) (rw (mul_comm 2 (2 ^ k)) refl)

-- Masking with one bit keeps that digit.
pub bit_and_pow : (k a : ℕ) → bit_and a (2 ^ k) ≡ a / 2 ^ k % 2 * 2 ^ k
bit_and_pow zero a = omega (arith, bit_and_step a 1, bit_and-zero (a / 2))
bit_and_pow (suc k) a = ground (
  arith,
  bit_and_step a (2 ^ suc k),
  pow-suc 2 k,
  div-pow-suc a k,
  double_shift (a / 2 ^ suc k % 2) k,
  bit_and_pow k (a / 2),
)

-- Masking with the `k` low bits is the remainder by `2 ^ k`.
pub bit_and_low : (k n : ℕ) → bit_and n (2 ^ k - 1) ≡ n % 2 ^ k
bit_and_low k n = ground (arith, one-le-pow k 2, upper_cleared k (n / 2 ^ k) (n % 2 ^ k))
  where
    upper_cleared : (k h r : ℕ) → r < 2 ^ k → bit_and (h * 2 ^ k + r) (2 ^ k - 1) ≡ r
    upper_cleared zero h r lt = rw bit_and-zero (omega arith)
    upper_cleared (suc k) h r lt = ground (
      arith,
      pow-suc 2 k,
      bit_and_step (h * 2 ^ suc k + r) (2 ^ suc k - 1),
      double_shift h k,
      upper_cleared k h (r / 2) (omega (arith, pow-suc 2 k)),
    )

-- The digits of an exclusive or, of a conjunction and of a disjunction.
pub bit_xor_bit : (k a b : ℕ) → bit_xor a b / 2 ^ k % 2 ≡ (a / 2 ^ k + b / 2 ^ k) % 2
bit_xor_bit zero a b = omega (arith, bit_xor_step a b)
bit_xor_bit (suc k) a b =
    rw (div-pow-suc a k, div-pow-suc b k, div-pow-suc (bit_xor a b) k, halved)
      (bit_xor_bit k (a / 2) (b / 2))
  where
    halved : bit_xor a b / 2 ≡ bit_xor (a / 2) (b / 2)
    halved = omega (arith, bit_xor_step a b)

pub bit_and_bit : (k a b : ℕ) → bit_and a b / 2 ^ k % 2 ≡ min (a / 2 ^ k % 2) (b / 2 ^ k % 2)
bit_and_bit zero a b = omega (arith, bit_and_step a b)
bit_and_bit (suc k) a b =
    rw (div-pow-suc a k, div-pow-suc b k, div-pow-suc (bit_and a b) k, halved)
      (bit_and_bit k (a / 2) (b / 2))
  where
    halved : bit_and a b / 2 ≡ bit_and (a / 2) (b / 2)
    halved = omega (arith, bit_and_step a b)

pub bit_or_bit : (k a b : ℕ) → bit_or a b / 2 ^ k % 2 ≡ max (a / 2 ^ k % 2) (b / 2 ^ k % 2)
bit_or_bit zero a b = omega (arith, bit_or_step a b)
bit_or_bit (suc k) a b =
    rw (div-pow-suc a k, div-pow-suc b k, div-pow-suc (bit_or a b) k, halved)
      (bit_or_bit k (a / 2) (b / 2))
  where
    halved : bit_or a b / 2 ≡ bit_or (a / 2) (b / 2)
    halved = omega (arith, bit_or_step a b)

-- The results stay in range.
pub bit_xor-lt : (k a b : ℕ) → a < 2 ^ k → b < 2 ^ k → bit_xor a b < 2 ^ k
bit_xor-lt zero a b p q = ground (arith, bit_xor-bitwise a b)
bit_xor-lt (suc k) a b p q = omega (
  arith,
  bit_xor_step a b,
  pow-suc 2 k,
  bit_xor-lt k (a / 2) (b / 2) (omega (arith, pow-suc 2 k)) (omega (arith, pow-suc 2 k)),
)

pub bit_or-lt : (k a b : ℕ) → a < 2 ^ k → b < 2 ^ k → bit_or a b < 2 ^ k
bit_or-lt zero a b p q = ground (arith, bit_or-bitwise a b)
bit_or-lt (suc k) a b p q = omega (
  arith,
  bit_or_step a b,
  pow-suc 2 k,
  bit_or-lt k (a / 2) (b / 2) (omega (arith, pow-suc 2 k)) (omega (arith, pow-suc 2 k)),
)

pub bit_and-le_left : (a b : ℕ) → bit_and a b ≤ a
bit_and-le_left a b =
    halve (λ a. (b : ℕ) → bit_and a b ≤ a) (λ b. omega (arith, bit_and-bitwise 0 b))
      (λ a h b. omega (arith, bit_and_step (suc a) b, h (b / 2))) a a (le_refl a) b

-- Two fields side by side: `(q << k) | r` is a sum when `r` fits `k` bits.
pub bit_or_fields : (k q r : ℕ) → r < 2 ^ k → bit_or (q * 2 ^ k) r ≡ q * 2 ^ k + r
bit_or_fields zero q r fits = omega (
  arith,
  bit_or_step (q * 1) r,
  bit_or_step q 0,
  ap (λ (t : ℕ). bit_or t r) (unit_right q),
  ap (λ (t : ℕ). bit_or q t) (le_zero r fits),
  bit_or-zero q,
)
  where
    unit_right : (q : ℕ) → q * 1 ≡ q
    unit_right q = omega arith

    le_zero : (r : ℕ) → r < 1 → r ≡ 0
    le_zero r h = omega arith
bit_or_fields (suc k) q r fits =
    let above = bit_or_fields k q (r / 2) (omega arith) in
    ground (arith, above, double_shift q k, bit_or_step (q * 2 ^ suc k) r)

pub bit_xor_bit_four :
    (k a b c d : ℕ)
    → bit_xor (bit_xor (bit_xor a b) c) d / 2 ^ k % 2
      ≡ (a / 2 ^ k + b / 2 ^ k + c / 2 ^ k + d / 2 ^ k) % 2
bit_xor_bit_four k a b c d = omega (
  arith,
  bit_xor_bit k (bit_xor (bit_xor a b) c) d,
  bit_xor_bit k (bit_xor a b) c,
  bit_xor_bit k a b,
)

-- A disjunction lies between its arguments and their sum.
pub bit_or_between : (a b : ℕ) → (a ≤ bit_or a b) × (b ≤ bit_or a b) × (bit_or a b ≤ a + b)
bit_or_between a b =
    halve (λ a. (b : ℕ) → (a ≤ bit_or a b) × (b ≤ bit_or a b) × (bit_or a b ≤ a + b))
      (λ b. omega (arith, bit_or-bitwise 0 b))
      (λ a h b. omega (arith, bit_or_step (suc a) b, h (b / 2))) a a (le_refl a) b
