-- ===== src/Base/Run.antt =====
-- Stateful code: a run ends normally with a value and a state, or the program exits with a code, or
-- it does what C leaves undefined (such as an access outside an array).
use exec.Base.{ℕ, ◌≡◌, ap, ◌∙◌}

pub data Outcome (S A : Type 0) : Type 0 where
  done : A → S → Outcome S A
  exited : ℕ → S → Outcome S A
  undefined : Outcome S A

abbrev pub M : Type 0 → Type 0 → Type 0
M S A = S → Outcome S A

abbrev pub pure : {S A : Type 0} → A → M S A
pure a s = done a s

abbrev pub bind_outcome : {S A B : Type 0} → Outcome S A → (A → M S B) → Outcome S B
bind_outcome (done a s) f = f a s
bind_outcome (exited k s) f = exited k s
bind_outcome undefined f = undefined

infixl 5 ◌>>=◌ ◌>>◌
abbrev pub ◌>>=◌ : {S A B : Type 0} → M S A → (A → M S B) → M S B
◌>>=◌ m f s = bind_outcome (m s) f

abbrev pub ◌>>◌ : {S B : Type 0} → M S (Unit {0}) → M S B → M S B
m >> k = m >>= λ _. k

abbrev pub get : {S : Type 0} → M S S
get s = done s s

abbrev pub modify : {S : Type 0} → (S → S) → M S (Unit {0})
modify f s = done tt (f s)

-- A command whose run is known goes on with its value and state.
pub step_done :
    {S A B : Type 0} (m : M S A) (f : A → M S B) (s s' : S) (a : A)
    → m s ≡ done a s'
    → (m >>= f) s ≡ f a s'
step_done m f s s' a e = ap (λ o. bind_outcome o f) e

-- The same on the run itself.
pub go_on :
    {S A B : Type 0} (r : Outcome S A) (f : A → M S B) {a : A} {s : S} {o : Outcome S B}
    → r ≡ done a s
    → f a s ≡ o
    → bind_outcome r f ≡ o
go_on r f e h = ap (λ r. bind_outcome r f) e ∙ h

-- The state that a run ends in is determined.
pub done_injective : {S : Type 0} (s s' : S) → done tt s ≡ done tt s' → s ≡ s'
done_injective s s' e = ap (λ o. state_of s o) e
  where
    state_of : {S : Type 0} → S → Outcome S (Unit {0}) → S
    state_of s (done a s') = s'
    state_of s (exited k s') = s
    state_of s undefined = s
