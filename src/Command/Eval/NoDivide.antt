-- ===== src/Command/Eval/NoDivide.antt =====
-- Expressions with no division (command.c, `eval`): nor has a part of one.
use exec.Base.{
  ℕ, ◌≡◌, ◌≢◌, refl, sym, subst, arith, Bool, true, false, Option, none, some, [], ◌∷◌, ◌==◌, ◌&&◌,
  if◌then◌else◌,
}
use mathlib.Core.Option
use exec.Symtab.{CString, first_char}
use exec.Command.Text.{split_char, split_pair}
use exec.Command.Eval.{
  Operator, equal, not_equal, assign, plus, minus, times, divide, with_operator, first_of,
  binary_split, find_operator,
}

abbrev pub NoDivide : CString → Type 0
NoDivide [] = Unit {0}
NoDivide (c ∷ s) = (c ≢ b'/') × NoDivide s

abbrev pub Parts : Option (CString × CString) → Type 0
Parts none = Unit {0}
Parts (some (l, r)) = NoDivide l × NoDivide r

abbrev pub IsOther : Operator → Type 0
IsOther divide = ⊥
IsOther op = Unit {0}

abbrev pub PartsOp : Option (Operator × CString × CString) → Type 0
PartsOp none = Unit {0}
PartsOp (some (op, l, r)) = IsOther op × NoDivide l × NoDivide r

pub split_char-Parts : (c : ℕ) (s : CString) → NoDivide s → Parts (split_char c s)
unfolding split_char
split_char-Parts c [] h = tt
split_char-Parts c (x ∷ s) h = by_test (x == c) (split_char c s) (split_char-Parts c s h.1)
  where
    by_test :
        (b : Bool) (o : Option (CString × CString))
        → Parts o
        → Parts (if b then some ([], s) else Option.map (λ (l, r). (x ∷ l, r)) o)
    by_test true o k = (tt, h.1)
    by_test false none k = tt
    by_test false (some (l, r)) k = ((h.0, k.0), k.1)

split_pair-Parts : (c d : ℕ) (s : CString) → NoDivide s → Parts (split_pair c d s)
unfolding split_pair
split_pair-Parts c d [] h = tt
split_pair-Parts c d (x ∷ s) h =
    by_test (x == c && (first_char s == d)) (split_pair c d s) (split_pair-Parts c d s h.1)
      (rest-NoDivide s h.1)
  where
    rest-NoDivide : (s : CString) → NoDivide s → NoDivide (elim s [ [] ↦ [] | _ ∷ r ↦ r ])
    rest-NoDivide [] k = tt
    rest-NoDivide (y ∷ r) k = k.1

    by_test :
        (b : Bool) (o : Option (CString × CString))
        → Parts o
        → NoDivide (elim s [ [] ↦ [] | _ ∷ r ↦ r ])
        → Parts (
            if b
            then some ([], elim s [ [] ↦ [] | _ ∷ r ↦ r ])
            else Option.map (λ (l, r). (x ∷ l, r)) o)
    by_test true o k rest = (tt, rest)
    by_test false none k rest = tt
    by_test false (some (l, r)) k rest = ((h.0, k.0), k.1)

binary_split-Parts : (op : ℕ) (s : CString) → NoDivide s → Parts (binary_split op s)
binary_split-Parts op s h = by_parts (split_char op s) (split_char-Parts op s h)
  where
    by_parts :
        (o : Option (CString × CString))
        → Parts o
        → Parts
            (elim o [ none ↦ none | some parts ↦ elim parts.0 [ [] ↦ none | _ ∷ _ ↦ some parts ] ])
    by_parts none k = tt
    by_parts (some ([], r)) k = tt
    by_parts (some (x ∷ l, r)) k = k

-- There is nothing to split at.
split_char-divide : (s : CString) → NoDivide s → split_char b'/' s ≡ none
unfolding split_char
split_char-divide [] h = refl
split_char-divide (x ∷ s) h = ground (arith, h.0, split_char-divide s h.1)

divide-PartsOp : (s : CString) → NoDivide s → PartsOp (with_operator divide (binary_split b'/' s))
divide-PartsOp s h =
    subst
      (λ (o : Option (CString × CString)). PartsOp (
        with_operator divide
          (elim o [ none ↦ none | some parts ↦ elim parts.0 [ [] ↦ none | _ ∷ _ ↦ some parts ] ])))
      (sym (split_char-divide s h)) tt

with_operator-PartsOp :
    (op : Operator) (o : Option (CString × CString))
    → IsOther op
    → Parts o
    → PartsOp (with_operator op o)
with_operator-PartsOp op none other h = tt
with_operator-PartsOp op (some (l, r)) other h = (other, h.0, h.1)

first_of-PartsOp :
    (a b : Option (Operator × CString × CString)) → PartsOp a → PartsOp b → PartsOp (first_of a b)
first_of-PartsOp none b h k = k
first_of-PartsOp (some x) b h k = h

pub find_operator-PartsOp : (s : CString) → NoDivide s → PartsOp (find_operator s)
unfolding find_operator
find_operator-PartsOp s h =
    first_of-PartsOp _ _ (with_operator-PartsOp equal _ tt (split_pair-Parts b'=' b'=' s h)) (
      first_of-PartsOp _ _ (with_operator-PartsOp not_equal _ tt (split_pair-Parts b'!' b'=' s h)) (
        first_of-PartsOp _ _ (with_operator-PartsOp assign _ tt (split_char-Parts b'=' s h)) (
          first_of-PartsOp _ _ (with_operator-PartsOp plus _ tt (binary_split-Parts b'+' s h)) (
            first_of-PartsOp _ _ (with_operator-PartsOp minus _ tt (binary_split-Parts b'-' s h)) (
              first_of-PartsOp _ _ (with_operator-PartsOp times _ tt (binary_split-Parts b'*' s h))
                (divide-PartsOp s h))))))
