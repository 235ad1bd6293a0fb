-- ===== src/Base/Table.antt =====
-- A claim about every byte, checked by evaluation.
use exec.Base.{ℕ, zero, suc, ◌<◌, ◌≡◌, Bool, true, false, ◌&&◌, arith, ◌==◌, ==_iff}

-- The test holds at every number below the bound.
unfoldable pub all_below : ℕ → (ℕ → Bool) → Bool
all_below zero test = true
all_below (suc bound) test = elim (test bound) [ true ↦ all_below bound test | false ↦ false ]

pub all_below_sound :
    (bound : ℕ) (test : ℕ → Bool) (i : ℕ) → all_below bound test ≡ true → i < bound → test i ≡ true
unfolding all_below
all_below_sound zero test i all inside = absurd (omega arith)
all_below_sound (suc bound) test i all inside =
    let lower = all_below_sound bound test i in ground (arith, lower)

-- Two functions that agree on a table agree below its end.
pub eq_of_table :
    (n : ℕ) (f g : ℕ → ℕ) → all_below n (λ x. f x == g x) ≡ true → (x : ℕ) → x < n → f x ≡ g x
eq_of_table n f g t x h = (==_iff (f x) (g x)).0 (all_below_sound n (λ x. f x == g x) x t h)

-- A claim about both truth values.
abbrev pub all_bools : (Bool → Bool) → Bool
all_bools p = p true && p false

pub all_bools_sound : (p : Bool → Bool) (b : Bool) → all_bools p ≡ true → p b ≡ true
all_bools_sound p true h = ground (arith)
all_bools_sound p false h = ground (arith)

abbrev pub bool_eq : Bool → Bool → Bool
bool_eq true b = b
bool_eq false true = false
bool_eq false false = true

pub bool_eq_sound : (a b : Bool) → bool_eq a b ≡ true → a ≡ b
bool_eq_sound a b h = ground arith

pub &&_left : (a b : Bool) → (a && b) ≡ true → a ≡ true
&&_left a b h = ground arith

pub &&_right : (a b : Bool) → (a && b) ≡ true → b ≡ true
&&_right a b h = ground arith
