-- ===== src/Command/Eval/Fuel.antt =====
-- The recursion of `eval` ends (command.c): each call is for a part of the string.
use exec.Base.{
  ℕ, zero, suc, ◌+◌, ◌<◌, ◌≤◌, ◌≡◌, refl, sym, ◌∙◌, ap, arith, Bool, true, false, Option, none,
  some, [], ◌∷◌, length, ◌==◌, ◌&&◌, if◌then◌else◌, fun_ext, Bool-cases, inl, inr,
}
use mathlib.Core.Option
use exec.Base.Run.{M, ◌>>=◌, pure}
use exec.Symtab.{CString, first_char}
use exec.Command.Text.{split_char, split_pair, isalpha}
use exec.Command.Session.{Target, Session}
use exec.Command.Eval.{
  Operator, equal, not_equal, assign, plus, minus, times, divide, with_operator, first_of,
  binary_split, find_operator, eval_address, eval_lvalue, eval_rvalue, eval_assign, eval_operand,
  eval_operator, eval_body, eval_fuel, eval, make_addr,
}

-- The parts, where there are some, are shorter than `n`.
abbrev pub Short : ℕ → Option (CString × CString) → Type 0
Short n none = Unit {0}
Short n (some (l, r)) = (length l < n) × (length r < n)

abbrev pub ShortOp : ℕ → Option (Operator × CString × CString) → Type 0
ShortOp n none = Unit {0}
ShortOp n (some (op, l, r)) = (length l < n) × (length r < n)

pub split_char-Short : (c : ℕ) (s : CString) → Short (length s) (split_char c s)
unfolding split_char
split_char-Short c [] = tt
split_char-Short c (x ∷ s) = by_test (x == c) (split_char c s) (split_char-Short c s)
  where
    by_test :
        (b : Bool) (o : Option (CString × CString))
        → Short (length s) o
        → Short (suc (length s)) (if b then some ([], s) else Option.map (λ (l, r). (x ∷ l, r)) o)
    by_test true o h = (omega arith, omega arith)
    by_test false none h = tt
    by_test false (some (l, r)) h = (omega (arith, h.0), omega (arith, h.1))

split_pair-Short : (c d : ℕ) (s : CString) → Short (length s) (split_pair c d s)
unfolding split_pair
split_pair-Short c d [] = tt
split_pair-Short c d (x ∷ s) =
    by_test (x == c && (first_char s == d)) (split_pair c d s) (split_pair-Short c d s) (rest-le s)
  where
    rest-le : (s : CString) → length (elim s [ [] ↦ [] | _ ∷ r ↦ r ]) ≤ length s
    rest-le [] = omega arith
    rest-le (y ∷ r) = omega arith

    by_test :
        (b : Bool) (o : Option (CString × CString))
        → Short (length s) o
        → length (elim s [ [] ↦ [] | _ ∷ r ↦ r ]) ≤ length s
        → Short (suc (length s)) (
            if b
            then some ([], elim s [ [] ↦ [] | _ ∷ r ↦ r ])
            else Option.map (λ (l, r). (x ∷ l, r)) o)
    by_test true o h k = (omega arith, omega arith)
    by_test false none h k = tt
    by_test false (some (l, r)) h k = (omega (arith, h.0), omega (arith, h.1))

binary_split-Short : (op : ℕ) (s : CString) → Short (length s) (binary_split op s)
binary_split-Short op s = by_parts (split_char op s) (split_char-Short op s)
  where
    by_parts :
        (o : Option (CString × CString))
        → Short (length s) o
        → Short
            (length s)
            (elim o [ none ↦ none | some parts ↦ elim parts.0 [ [] ↦ none | _ ∷ _ ↦ some parts ] ])
    by_parts none h = tt
    by_parts (some ([], r)) h = tt
    by_parts (some (x ∷ l, r)) h = h

with_operator-ShortOp :
    (n : ℕ) (op : Operator) (o : Option (CString × CString))
    → Short n o
    → ShortOp n (with_operator op o)
with_operator-ShortOp n op none h = tt
with_operator-ShortOp n op (some (l, r)) h = h

first_of-ShortOp :
    (n : ℕ) (a b : Option (Operator × CString × CString))
    → ShortOp n a
    → ShortOp n b
    → ShortOp n (first_of a b)
first_of-ShortOp n none b h k = k
first_of-ShortOp n (some x) b h k = h

pub find_operator-ShortOp : (s : CString) → ShortOp (length s) (find_operator s)
unfolding find_operator
find_operator-ShortOp s =
    let n = length s in
    first_of-ShortOp n _ _ (with_operator-ShortOp n equal _ (split_pair-Short b'=' b'=' s)) (
      first_of-ShortOp n _ _ (with_operator-ShortOp n not_equal _ (split_pair-Short b'!' b'=' s)) (
        first_of-ShortOp n _ _ (with_operator-ShortOp n assign _ (split_char-Short b'=' s)) (
          first_of-ShortOp n _ _ (with_operator-ShortOp n plus _ (binary_split-Short b'+' s)) (
            first_of-ShortOp n _ _ (with_operator-ShortOp n minus _ (binary_split-Short b'-' s)) (
              first_of-ShortOp n _ _ (with_operator-ShortOp n times _ (binary_split-Short b'*' s))
                (with_operator-ShortOp n divide _ (binary_split-Short b'/' s)))))))

module _ {T : Type 0} (ops : Target T) where
  module _ (e e' : CString → M (Session T) (ℕ × CString)) where
    -- They agree on the strings shorter than `n`.
    abbrev Agree : ℕ → Type 0
    Agree n = (t : CString) → length t < n → e t ≡ e' t

    eval_address-Agree :
        (s : CString) → Agree (length s + 1) → eval_address ops e s ≡ eval_address ops e' s
    unfolding eval_address
    eval_address-Agree [] h = rw (h [] (omega arith)) refl
    eval_address-Agree (c ∷ s) h = rw (h (c ∷ s) (omega arith)) refl

    eval_lvalue-Agree :
        (s : CString) → Agree (length s + 1) → eval_lvalue ops e s ≡ eval_lvalue ops e' s
    unfolding eval_lvalue
    eval_lvalue-Agree s h = by_parts (split_char b':' s) (split_char-Short b':' s)
      where
        by_parts :
            (o : Option (CString × CString))
            → Short (length s) o
            → elim o [
              | some (l, r) ↦ do
                (device, rest) ← e l
                (address, _) ← e r
                pure (make_addr device address, rest)
              | none ↦ eval_address ops e s
            ]
              ≡ elim o [
                | some (l, r) ↦ do
                  (device, rest) ← e' l
                  (address, _) ← e' r
                  pure (make_addr device address, rest)
                | none ↦ eval_address ops e' s
              ]
        by_parts none k = eval_address-Agree s h
        by_parts (some (l, r)) k = rw (h l (omega (arith, k.0)), h r (omega (arith, k.1))) refl

    -- A name needs no further call.
    eval_lvalue-Agree_name :
        (c : ℕ) (s : CString)
        → isalpha c ≡ true
        → Agree (length (c ∷ s))
        → eval_lvalue ops e (c ∷ s) ≡ eval_lvalue ops e' (c ∷ s)
    unfolding eval_lvalue eval_address
    eval_lvalue-Agree_name c s name h =
        by_parts (split_char b':' (c ∷ s)) (split_char-Short b':' (c ∷ s))
      where
        by_parts :
            (o : Option (CString × CString))
            → Short (length (c ∷ s)) o
            → elim o [
              | some (l, r) ↦ do
                (device, rest) ← e l
                (address, _) ← e r
                pure (make_addr device address, rest)
              | none ↦ eval_address ops e (c ∷ s)
            ]
              ≡ elim o [
                | some (l, r) ↦ do
                  (device, rest) ← e' l
                  (address, _) ← e' r
                  pure (make_addr device address, rest)
                | none ↦ eval_address ops e' (c ∷ s)
              ]
        by_parts none k = rw name refl
        by_parts (some (l, r)) k = rw (h l k.0, h r k.1) refl

    eval_assign-Agree :
        (s : CString) (val : ℕ)
        → Agree (length s + 1)
        → eval_assign ops e s val ≡ eval_assign ops e' s val
    unfolding eval_assign
    eval_assign-Agree [] val h = rw (eval_lvalue-Agree [] h) refl
    eval_assign-Agree (c ∷ s) val h = rw (eval_lvalue-Agree (c ∷ s) h) refl

    eval_operand-Agree :
        (s : CString) → Agree (length s) → eval_operand ops e s ≡ eval_operand ops e' s
    unfolding eval_operand eval_rvalue
    eval_operand-Agree [] h = refl
    eval_operand-Agree (c ∷ s) h = elim (Bool-cases (isalpha c)) [
      | inl name ↦
          rw (eval_lvalue-Agree s (λ t lt. h t (omega arith)), eval_lvalue-Agree_name c s name h)
            refl
      | inr other ↦ rw (other, eval_lvalue-Agree s (λ t lt. h t (omega arith))) refl
    ]

    eval_operator-Agree :
        (op : Operator) (n : ℕ) (l r : CString)
        → length l < n
        → length r < n
        → Agree n
        → eval_operator ops e op l r ≡ eval_operator ops e' op l r
    unfolding eval_operator
    eval_operator-Agree assign n l r hl hr h = rw (h r hr) (
        ap (λ (k : ℕ → M (Session T) CString). (do (val, _) ← e' r; rest ← k val; pure (val, rest)))
          (fun_ext (λ v. eval_assign-Agree l v (λ t lt. h t (omega arith)))))
    eval_operator-Agree op n l r hl hr h = rw (h l hl, h r hr) refl

    eval_body-Agree : (s : CString) → Agree (length s) → eval_body ops e s ≡ eval_body ops e' s
    unfolding eval_body
    eval_body-Agree s h = by_operator (find_operator s) (find_operator-ShortOp s)
      where
        by_operator :
            (o : Option (Operator × CString × CString))
            → ShortOp (length s) o
            → elim o [ some (op, l, r) ↦ eval_operator ops e op l r | none ↦ eval_operand ops e s ]
              ≡ elim o [
                | some (op, l, r) ↦ eval_operator ops e' op l r
                | none ↦ eval_operand ops e' s
              ]
        by_operator none k = eval_operand-Agree s h
        by_operator (some (op, l, r)) k = eval_operator-Agree op (length s) l r k.0 k.1 h

  pub eval_fuel-Agree :
      (f g : ℕ) (s : CString) → length s < f → length s < g → eval_fuel ops f s ≡ eval_fuel ops g s
  unfolding eval_fuel
  eval_fuel-Agree zero g s h k = absurd (omega arith)
  eval_fuel-Agree (suc f) zero s h k = absurd (omega arith)
  eval_fuel-Agree (suc f) (suc g) s h k =
      eval_body-Agree (eval_fuel ops f) (eval_fuel ops g) s
        (λ t lt. eval_fuel-Agree f g t (omega arith) (omega arith))

  -- The fuel that `eval` is given, one more than the length of the expression, is enough: for
  -- every expression and from every state of the debugger, `eval` does what one pass of its body
  -- does in which the inner calls are again `eval`.
  pub eval-eval_body : (expr : CString) → eval ops expr ≡ eval_body ops (eval ops) expr
  unfolding eval
  eval-eval_body expr =
      eval_fuel-Agree (length expr + 1) (suc (length expr)) expr (omega arith) (omega arith)
      ∙ unfold eval_fuel in
        eval_body-Agree (eval_fuel ops (length expr)) (eval ops) expr
          (λ t lt. eval_fuel-Agree (length expr) (length t + 1) t lt (omega arith))

  -- Any function that satisfies the equation of `eval` is `eval`.
  eval_unique_below :
      (f : CString → M (Session T) (ℕ × CString))
      → ((expr : CString) → f expr ≡ eval_body ops f expr)
      → (n : ℕ) (expr : CString) → length expr < n
      → f expr ≡ eval ops expr
  eval_unique_below f h zero expr lt = absurd (omega arith)
  eval_unique_below f h (suc n) expr lt =
      h expr
      ∙ eval_body-Agree f (eval ops) expr (λ t short. eval_unique_below f h n t (omega arith))
      ∙ sym (eval-eval_body expr)

  pub eval_unique :
      (f : CString → M (Session T) (ℕ × CString))
      → ((expr : CString) → f expr ≡ eval_body ops f expr)
      → f ≡ eval ops
  eval_unique f h = fun_ext (λ expr. eval_unique_below f h (length expr + 1) expr (omega arith))
