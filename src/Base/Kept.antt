-- ===== src/Base/Kept.antt =====
-- What a command keeps of its state, however it is put together.
use exec.Base.{Bool, true, false, Option, none, some, if◌then◌else◌}
use exec.Base.Run.{M, Outcome, done, exited, undefined, ◌>>=◌, ◌>>◌, pure, bind_outcome}

-- Where a run ends normally, `P` holds of its state.
abbrev pub Ends : {S A : Type 0} → (S → Type 0) → Outcome S A → Type 0
Ends P (done a s) = P s
Ends P (exited k s) = Unit {0}
Ends P undefined = Unit {0}

pub record Keeps {S A : Type 0} (P : S → Type 0) (m : M S A) : Type 0 where
  pub ends : (s : S) → P s → Ends P (m s)

Ends-bind :
    {S A B : Type 0} {P : S → Type 0} (r : Outcome S A) (f : A → M S B)
    → Ends P r
    → ((a : A) → Keeps P (f a))
    → Ends P (bind_outcome r f)
Ends-bind (done a s) f h k = (k a).ends s h
Ends-bind (exited n s) f h k = tt
Ends-bind undefined f h k = tt

module _ {S : Type 0} {P : S → Type 0} where
  pub Keeps-bind :
      {A B : Type 0} {m : M S A} {f : A → M S B}
      → Keeps P m
      → ((a : A) → Keeps P (f a))
      → Keeps P (m >>= f)
  Keeps-bind {m = m} {f = f} h k = record { ends = λ s p. Ends-bind (m s) f (h.ends s p) k }

  pub Keeps-seq :
      {B : Type 0} {m : M S (Unit {0})} {k : M S B} → Keeps P m → Keeps P k → Keeps P (m >> k)
  Keeps-seq {m = m} {k = k} h g = record {
    ends = λ s p. Ends-bind (m s) (λ _. k) (h.ends s p) (λ _. g);
  }

  pub Keeps-if :
      {A : Type 0} (b : Bool) {m m' : M S A}
      → Keeps P m
      → Keeps P m'
      → Keeps P (if b then m else m')
  Keeps-if true h k = h
  Keeps-if false h k = k

  pub Keeps-option :
      {A B : Type 0} (o : Option A) {m : M S B} {f : A → M S B}
      → Keeps P m
      → ((a : A) → Keeps P (f a))
      → Keeps P (elim o [ none ↦ m | some a ↦ f a ])
  Keeps-option none h k = h
  Keeps-option (some a) h k = k a

  pub Keeps-pure : {A : Type 0} (a : A) → Keeps P (pure a)
  Keeps-pure a = record { ends = λ s p. p }

  pub Keeps-undefined : {A : Type 0} → Keeps {A = A} P (λ s. undefined)
  Keeps-undefined = record { ends = λ s p. tt }
