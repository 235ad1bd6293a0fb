-- ===== src/Base/Returning.antt =====
-- Commands that return from every state with a property, to such a state.
use exec.Base.{Bool, true, false, Option, none, some, ◌≡◌, refl, if◌then◌else◌}
use exec.Base.Run.{M, Outcome, done, exited, undefined, ◌>>=◌, ◌>>◌, pure, bind_outcome}

-- The run ends normally, and `P` holds of its state.
abbrev pub Returns : {S A : Type 0} → (S → Type 0) → Outcome S A → Type 0
Returns P (done a s) = P s
Returns P (exited k s) = ⊥
Returns P undefined = ⊥

pub record Total {S A : Type 0} (P : S → Type 0) (m : M S A) : Type 0 where
  pub returns : (s : S) → P s → Returns P (m s)

Returns-bind :
    {S A B : Type 0} {P : S → Type 0} (r : Outcome S A) (f : A → M S B)
    → Returns P r
    → ((a : A) → Total P (f a))
    → Returns P (bind_outcome r f)
Returns-bind (done a s) f h k = (k a).returns s h
Returns-bind (exited n s) f h k = absurd h
Returns-bind undefined f h k = absurd h

-- The value and the state of the run.
pub Returns-done :
    {S A : Type 0} {P : S → Type 0} (r : Outcome S A)
    → Returns P r
    → (a : A) × (s : S) × (r ≡ done a s) × P s
Returns-done (done a s) h = (a, s, refl, h)
Returns-done (exited n s) h = absurd h
Returns-done undefined h = absurd h

module _ {S : Type 0} {P : S → Type 0} where
  pub Total-bind :
      {A B : Type 0} {m : M S A} {f : A → M S B}
      → Total P m
      → ((a : A) → Total P (f a))
      → Total P (m >>= f)
  Total-bind {m = m} {f = f} h k = record {
    returns = λ s p. Returns-bind (m s) f (h.returns s p) k;
  }

  pub Total-seq :
      {B : Type 0} {m : M S (Unit {0})} {k : M S B} → Total P m → Total P k → Total P (m >> k)
  Total-seq {m = m} {k = k} h g = record {
    returns = λ s p. Returns-bind (m s) (λ _. k) (h.returns s p) (λ _. g);
  }

  pub Total-if :
      {A : Type 0} (b : Bool) {m m' : M S A}
      → Total P m
      → Total P m'
      → Total P (if b then m else m')
  Total-if true h k = h
  Total-if false h k = k

  pub Total-option :
      {A B : Type 0} (o : Option A) {m : M S B} {f : A → M S B}
      → Total P m
      → ((a : A) → Total P (f a))
      → Total P (elim o [ none ↦ m | some a ↦ f a ])
  Total-option none h k = h
  Total-option (some a) h k = k a

  pub Total-pure : {A : Type 0} (a : A) → Total P (pure a)
  Total-pure a = record { returns = λ s p. p }
