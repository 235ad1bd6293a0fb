-- ===== src/Command/Tokens.antt =====
-- The words of a command line are what `strtok` gives, call by call (command.c, `getarg`).
use exec.Base.{ℕ, ◌≡◌, refl, ◌∙◌, true, none, some, [], ◌∷◌, arith, Bool-cases, inl, inr, ap}
use exec.Symtab.{CString}
use exec.Command.Text.{is_blank, split_token, strtok, append_char, words_of}

words_of-blank : (d : ℕ) (s : CString) → is_blank d ≡ true → words_of (d ∷ s) ≡ words_of s
unfolding words_of
words_of-blank d [] h = rw h refl
words_of-blank d (e ∷ s) h = rw h refl

-- The words of a line are none where `strtok` gives nothing, and else its token and the words of
-- what it leaves, so that they are the tokens that its calls give one after the other.
pub words_of-strtok :
    (s : CString) → words_of s ≡ elim (strtok s) [ none ↦ [] | some p ↦ p.0 ∷ words_of p.1 ]
unfolding words_of strtok split_token
words_of-strtok [] = refl
words_of-strtok (c ∷ []) = ground arith
words_of-strtok (c ∷ d ∷ s) = elim (Bool-cases (is_blank c)) [
  | inl blank ↦ rw blank (words_of-strtok (d ∷ s))
  | inr black ↦ elim (Bool-cases (is_blank d)) [
    | inl gap ↦ rw (black, gap) (ap (λ w. (c ∷ []) ∷ w) (words_of-blank d s gap))
    | inr on ↦ rw (black, on) (ap (append_char c) (words_of-strtok (d ∷ s)) ∙ rw on refl)
  ]
]
