-- ===== src/Base/Word.antt =====
-- C's `unsigned` (32 bits) over the native numbers: wrap-around is written out, a shift is a product
-- or a quotient, and a mask of low bits or of one bit is a remainder or a digit (`Base.Bits` proves
-- that these are the bitwise operations).
use exec.Base.{ℕ, ◌+◌, ◌-◌, ◌*◌, ◌/◌, ◌%◌, ◌^◌, Bool, ltb, ◌==◌, if◌then◌else◌}

abbrev pub add32 : ℕ → ℕ → ℕ
add32 a b = (a + b) % 2 ^ 32

-- `-` on ℕ stops at 0, so the modulus is added first; `b` is below 2 ^ 32.
abbrev pub sub32 : ℕ → ℕ → ℕ
sub32 a b = (a + (2 ^ 32 - b)) % 2 ^ 32

-- x << k and x >> k.
abbrev pub shl32 : ℕ → ℕ → ℕ
shl32 x k = x * 2 ^ k % 2 ^ 32

abbrev pub shr : ℕ → ℕ → ℕ
shr x k = x / 2 ^ k

-- x & (2^k - 1).
abbrev pub low : ℕ → ℕ → ℕ
low x k = x % 2 ^ k

-- x & (1 << k), and whether it is nonzero.
abbrev pub bit_value : ℕ → ℕ → ℕ
bit_value x k = x / 2 ^ k % 2 * 2 ^ k

abbrev pub test_bit : ℕ → ℕ → Bool
test_bit x k = x / 2 ^ k % 2 == 1

-- x != 0.
abbrev pub nonzero : ℕ → Bool
nonzero x = ltb 0 x

abbrev pub of_bool : Bool → ℕ
of_bool t = if t then 1 else 0

-- ~x on 32 bits, for x below 2 ^ 32.
abbrev pub not32 : ℕ → ℕ
not32 x = 2 ^ 32 - 1 - x

-- (unsigned) (INT8) x and (unsigned) (INT16) x: the sign is extended to 32 bits.
abbrev pub sext8 : ℕ → ℕ
sext8 x = if ltb (low x 8) 128 then low x 8 else low x 8 + (2 ^ 32 - 2 ^ 8)

abbrev pub sext16 : ℕ → ℕ
sext16 x = if ltb (low x 16) 32768 then low x 16 else low x 16 + (2 ^ 32 - 2 ^ 16)
