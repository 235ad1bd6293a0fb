-- ===== src/Command/Eval/Split.antt =====
-- How `eval` groups (command.c): at the first `==`, and at the first minus sign of an expression with
-- no plus sign.
use exec.Base.{
  ℕ, ◌+◌, ◌-◌, ◌%◌, ◌^◌, ◌≡◌, refl, ◌∙◌, ap, arith, Bool, false, ◌||◌, none, some, [], ◌∷◌, ◌++◌,
  ◌==◌,
}
use exec.Base.Word.{of_bool}
use exec.Base.Run.{done, go_on}
use exec.Symtab.{CString}
use exec.Command.Text.{split_char, split_pair}
use exec.Command.Session.{Target, Session}
use exec.Command.Eval.{
  equal, minus, binary_split, find_operator, eval_operator, eval_body, eval, combine,
}
use exec.Command.Eval.Fuel.{eval-eval_body}

-- Whether a character stands in a string.
abbrev pub contains : ℕ → CString → Bool
contains c [] = false
contains c (x ∷ s) = x == c || contains c s

split_char-none : (c : ℕ) (s : CString) → contains c s ≡ false → split_char c s ≡ none
unfolding split_char
split_char-none c [] h = refl
split_char-none c (x ∷ s) h = ground (arith, split_char-none c s)

split_pair-none :
    (c d : ℕ) (s : CString) → contains d s ≡ false → (0 == d) ≡ false → split_pair c d s ≡ none
unfolding split_pair
split_pair-none c d [] h z = refl
split_pair-none c d (x ∷ []) h z = ground (arith, h, z)
split_pair-none c d (x ∷ y ∷ s) h z = ground (arith, split_pair-none c d (y ∷ s))

split_char-append :
    (c : ℕ) (l r : CString) → contains c l ≡ false → split_char c (l ++ c ∷ r) ≡ some (l, r)
unfolding split_char
split_char-append c [] r h = ground arith
split_char-append c (x ∷ l) r h = ground (arith, split_char-append c l r)

contains-append :
    (c : ℕ) (l r : CString)
    → contains c l ≡ false
    → contains c r ≡ false
    → contains c (l ++ r) ≡ false
contains-append c [] r h k = k
contains-append c (x ∷ l) r h k = ground (arith, contains-append c l r)

binary_split-none : (op : ℕ) (s : CString) → contains op s ≡ false → binary_split op s ≡ none
binary_split-none op s h = rw (split_char-none op s h, binary_split) refl

binary_split-append :
    (op x : ℕ) (l r : CString)
    → contains op (x ∷ l) ≡ false
    → binary_split op ((x ∷ l) ++ op ∷ r) ≡ some (x ∷ l, r)
binary_split-append op x l r h = rw (split_char-append op (x ∷ l) r h, binary_split) refl

split_pair-append :
    (c : ℕ) (l r : CString) → contains c l ≡ false → split_pair c c (l ++ c ∷ c ∷ r) ≡ some (l, r)
unfolding split_pair
split_pair-append c [] r h = ground arith
split_pair-append c (x ∷ l) r h = ground (arith, split_pair-append c l r)

find_operator-equal :
    (l r : CString)
    → contains b'=' l ≡ false
    → find_operator (l ++ b'=' ∷ b'=' ∷ r) ≡ some (equal, l, r)
unfolding find_operator
find_operator-equal l r h = rw (split_pair-append b'=' l r h) refl

-- The value, and what the buffer then holds, of an expression with `==`.
pub eval-equal :
    {T : Type 0} (ops : Target T) (l r l' r' : CString) (a b : ℕ) (s s1 s2 : Session T)
    → contains b'=' l ≡ false
    → eval ops l s ≡ done (a, l') s1
    → eval ops r s1 ≡ done (b, r') s2
    → eval ops (l ++ b'=' ∷ b'=' ∷ r) s ≡ done (of_bool (a == b), l') s2
unfolding eval_body combine eval_operator
eval-equal ops l r l' r' a b s s1 s2 h left right =
    ap (λ f. f s) (eval-eval_body ops (l ++ b'=' ∷ b'=' ∷ r))
    ∙ rw (find_operator-equal l r h, eval_body) (go_on _ _ left (go_on _ _ right refl))

module _ (x : ℕ) (l r : CString) (no_eq : contains b'=' (x ∷ l) ≡ false)
    (no_eq' : contains b'=' r ≡ false) (no_plus : contains b'+' (x ∷ l) ≡ false)
    (no_plus' : contains b'+' r ≡ false) (no_minus : contains b'-' (x ∷ l) ≡ false) where
  whole-contains_eq : contains b'=' ((x ∷ l) ++ b'-' ∷ r) ≡ false
  whole-contains_eq = contains-append b'=' (x ∷ l) (b'-' ∷ r) no_eq (ground (arith, no_eq'))

  whole-contains_plus : contains b'+' ((x ∷ l) ++ b'-' ∷ r) ≡ false
  whole-contains_plus = contains-append b'+' (x ∷ l) (b'-' ∷ r) no_plus (ground (arith, no_plus'))

  find_operator-minus : find_operator ((x ∷ l) ++ b'-' ∷ r) ≡ some (minus, x ∷ l, r)
  unfolding find_operator
  find_operator-minus =
      rw (split_pair-none b'=' b'=' ((x ∷ l) ++ b'-' ∷ r) whole-contains_eq refl) (
        rw (split_pair-none b'!' b'=' ((x ∷ l) ++ b'-' ∷ r) whole-contains_eq refl) (
          rw (split_char-none b'=' ((x ∷ l) ++ b'-' ∷ r) whole-contains_eq) (
            rw (binary_split-none b'+' ((x ∷ l) ++ b'-' ∷ r) whole-contains_plus)
              (rw (binary_split-append b'-' x l r no_minus) refl))))

  module _ {T : Type 0} (ops : Target T) where
    eval-operator :
        (s : Session T)
        → eval ops ((x ∷ l) ++ b'-' ∷ r) s ≡ eval_operator ops (eval ops) minus (x ∷ l) r s
    unfolding eval_body eval_operator
    eval-operator s =
        ap (λ f. f s) (eval-eval_body ops ((x ∷ l) ++ b'-' ∷ r))
        ∙ rw (find_operator-minus, eval_body) refl

    -- For an expression with a first minus sign after at least one character, no equals sign and
    -- no plus sign, whose parts before and after that sign evaluate one after the other: `eval`
    -- gives the first value less the second one modulo 2 ^ 64, so what follows the first minus
    -- sign is grouped together.
    pub eval-minus :
        (s s1 s2 : Session T) (a b : ℕ) (l' r' : CString)
        → eval ops (x ∷ l) s ≡ done (a, l') s1
        → eval ops r s1 ≡ done (b, r') s2
        → eval ops ((x ∷ l) ++ b'-' ∷ r) s ≡ done ((a + (2 ^ 64 - b)) % 2 ^ 64, l') s2
    unfolding combine eval_operator
    eval-minus s s1 s2 a b l' r' left right =
        eval-operator s ∙ go_on _ _ left (go_on _ _ right refl)
