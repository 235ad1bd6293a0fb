-- ===== src/Command/Text.antt =====
-- What the debugger uses of C's string functions, on strings as lists of bytes: `strchr`, `strstr`,
-- `isalpha`, `isdigit` and `strtoul`.
use exec.Base.{
  ℕ, ◌+◌, ◌-◌, ◌*◌, ◌^◌, Bool, ◌&&◌, ◌||◌, Option, none, some, List, [], ◌∷◌, leb, ltb, ◌==◌,
  if◌then◌else◌,
}
use mathlib.Core.Option
use exec.Base.Word.{low}
use exec.Symtab.{CString, first_char}

-- The parts before and after the first occurrence of a character or of an operator of two.
unfoldable pub split_char : ℕ → CString → Option (CString × CString)
split_char c [] = none
split_char c (x ∷ s) =
    if x == c then some ([], s) else Option.map (λ (l, r). (x ∷ l, r)) (split_char c s)

unfoldable pub split_pair : ℕ → ℕ → CString → Option (CString × CString)
split_pair c d [] = none
split_pair c d (x ∷ s) =
    if x == c && (first_char s == d)
    then some ([], elim s [ [] ↦ [] | _ ∷ r ↦ r ])
    else Option.map (λ (l, r). (x ∷ l, r)) (split_pair c d s)

abbrev pub isdigit : ℕ → Bool
isdigit c = leb b'0' c && leb c b'9'

abbrev pub isalpha : ℕ → Bool
isalpha c = (leb b'a' c && leb c b'z') || (leb b'A' c && leb c b'Z')

abbrev pub isspace : ℕ → Bool
isspace c = (c == 32) || (leb 9 c && leb c 13)

-- 99 is no digit in any base.
abbrev pub digit_value : ℕ → ℕ
digit_value c =
    if isdigit c
    then c - b'0'
    else if leb b'a' c && leb c b'z'
    then c - b'a' + 10
    else if leb b'A' c && leb c b'Z'
    then c - b'A' + 10
    else 99

unfoldable pub digits_from : ℕ → ℕ → CString → ℕ
digits_from base acc [] = acc
digits_from base acc (c ∷ s) =
    let rest = digits_from base (acc * base + digit_value c) s in
    if ltb (digit_value c) base then rest else acc

-- A value that is too large becomes ULONG_MAX.
abbrev clamped : ℕ → ℕ
clamped n = if ltb n (2 ^ 64) then n else 2 ^ 64 - 1

-- Base 0: hexadecimal after 0x, octal after 0, else decimal.
unfoldable pub unsigned_digits : ℕ → CString → ℕ
unfolding digits_from
unsigned_digits base [] = 0
unsigned_digits base (c ∷ s) =
    if base == 0
    then (if c == b'0'
        then (elim s [
          | [] ↦ 0
          | x ∷ r ↦
              if (x == b'x') || (x == b'X') then digits_from 16 0 r else digits_from 8 0 (x ∷ r)
        ])
        else digits_from 10 0 (c ∷ s))
    else digits_from base 0 (c ∷ s)

abbrev negated : ℕ → ℕ
negated n = if ltb n (2 ^ 64) then (if n == 0 then 0 else 2 ^ 64 - n) else 2 ^ 64 - 1

abbrev signed_digits : ℕ → CString → ℕ
unfolding unsigned_digits
signed_digits base [] = 0
signed_digits base (c ∷ s) =
    if c == b'-'
    then negated (unsigned_digits base s)
    else if c == b'+'
    then clamped (unsigned_digits base s)
    else clamped (unsigned_digits base (c ∷ s))

unfoldable pub strtoul : ℕ → CString → ℕ
unfolding signed_digits unsigned_digits
strtoul base [] = 0
strtoul base (c ∷ s) = if isspace c then strtoul base s else signed_digits base (c ∷ s)

-- The delimiters of a command line.
abbrev pub is_blank : ℕ → Bool
is_blank c = (c == 32) || (c == 9) || (c == 10)

-- The token at the front, and what is left after the delimiter at its end.
unfoldable pub split_token : CString → CString × CString
split_token [] = ([], [])
split_token (c ∷ s) = let (t, r) = split_token s in if is_blank c then ([], s) else (c ∷ t, r)

-- `strtok`; `none` stands for NULL.
unfoldable pub strtok : CString → Option (CString × CString)
unfolding split_token
strtok [] = none
strtok (c ∷ s) = if is_blank c then strtok s else some (split_token (c ∷ s))

abbrev pub append_char : ℕ → List CString → List CString
append_char c [] = (c ∷ []) ∷ []
append_char c (w ∷ ws) = (c ∷ w) ∷ ws

-- All the tokens.
unfoldable pub words_of : CString → List CString
words_of [] = []
words_of (c ∷ []) = if is_blank c then [] else (c ∷ []) ∷ []
words_of (c ∷ d ∷ s) =
    let words = words_of (d ∷ s) in
    if is_blank c then words else if is_blank d then (c ∷ []) ∷ words else append_char c words

-- `atoi`, as an unsigned number; out of the range of `int` it is undefined in C.
abbrev pub atoi : CString → ℕ
unfolding strtoul
atoi s = low (strtoul 10 s) 32
