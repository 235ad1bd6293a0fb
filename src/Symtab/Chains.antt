-- ===== src/Symtab/Chains.antt =====
-- The chains of the symbol tables (symtab.c): the scans of `sym_find1` and `sym_lookup`, and a symbol
-- that is in no chain.
use exec.Base.{
  ℕ, ◌+◌, ◌<◌, ◌≡◌, refl, sym, arith, ap, ◌∙◌, true, Option, none, some, List, [], ◌∷◌,
  if◌then◌else◌, ◌==◌, ◌&&◌, not,
}
use mathlib.Core.Option
use exec.Base.Word.{nonzero}
use exec.Symtab.{
  CString, str_eq, Symbol, Symtab, write_cell, sym_hash_name, sym_hash_value, scan_name, scan_value,
  sym_find1, sym_find, sym_lookup,
}

pub str_eq→eq : (a b : CString) → str_eq a b ≡ true → a ≡ b
str_eq→eq [] [] h = refl
str_eq→eq [] (y ∷ ys) h = cc
str_eq→eq (x ∷ xs) [] h = cc
str_eq→eq (x ∷ xs) (y ∷ ys) h = ground (arith, str_eq→eq xs ys)

pub str_eq_self : (a : CString) → str_eq a a ≡ true
str_eq_self [] = refl
str_eq_self (x ∷ xs) = ground (arith, str_eq_self xs)

-- Pointers below `n`.
abbrev pub Below : ℕ → List ℕ → Type 0
Below n [] = Unit {0}
Below n (p ∷ chain) = (p < n) × Below n chain

pub record IsLinked (next : ℕ) (symtab : Symtab) : Type 0 where
  pub names : (h : ℕ) → Below next (symtab.syms_by_name h)
  pub values : (h : ℕ) → Below next (symtab.syms_by_value h)

abbrev pub AllLinked : ℕ → List Symtab → Type 0
AllLinked next [] = Unit {0}
AllLinked next (symtab ∷ parents) = IsLinked next symtab × AllLinked next parents

pub Below-suc : (n : ℕ) (chain : List ℕ) → Below n chain → Below (n + 1) chain
Below-suc n [] h = tt
Below-suc n (p ∷ chain) h = (omega (arith, h.0), Below-suc n chain h.1)

-- A new symbol is in no chain.
pub scan_name_fresh :
    (cell : ℕ → Symbol) (n : ℕ) (s : Symbol) (q : CString) (chain : List ℕ)
    → Below n chain
    → scan_name (write_cell cell n s) q chain ≡ scan_name cell q chain
unfolding scan_name
scan_name_fresh cell n s q [] h = refl
scan_name_fresh cell n s q (p ∷ chain) h = ground (arith, scan_name_fresh cell n s q chain)

pub scan_value_fresh :
    (cell : ℕ → Symbol) (n : ℕ) (s : Symbol) (v : ℕ) (chain : List ℕ)
    → Below n chain
    → scan_value (write_cell cell n s) v chain ≡ scan_value cell v chain
unfolding scan_value
scan_value_fresh cell n s v [] h = refl
scan_value_fresh cell n s v (p ∷ chain) h = ground (arith, scan_value_fresh cell n s v chain)

pub scan_name-lt :
    (cell : ℕ → Symbol) (n p : ℕ) (q : CString) (chain : List ℕ)
    → Below n chain
    → scan_name cell q chain ≡ some p
    → p < n
unfolding scan_name
scan_name-lt cell n p q [] h e = cc
scan_name-lt cell n p q (r ∷ chain) h e = ground (arith, scan_name-lt cell n p q chain)

pub scan_value-lt :
    (cell : ℕ → Symbol) (n p v : ℕ) (chain : List ℕ)
    → Below n chain
    → scan_value cell v chain ≡ some p
    → p < n
unfolding scan_value
scan_value-lt cell n p v [] h e = cc
scan_value-lt cell n p v (r ∷ chain) h e = ground (arith, scan_value-lt cell n p v chain)

-- What `sym_find` makes of the symbol that a scan found.
abbrev pub found_value : (ℕ → Symbol) → ℕ → ℕ → Option ℕ
found_value cell type p =
    if nonzero type && not ((cell p).type == type) then none else some (cell p).value

abbrev pub otherwise : {A : Type 0} → Option ℕ → (ℕ → Option A) → Option A → Option A
otherwise none f rest = rest
otherwise (some p) f rest = f p

pub sym_find_step :
    (cell : ℕ → Symbol) (symtab : Symtab) (parents : List Symtab) (q : CString) (type : ℕ)
    → sym_find cell (symtab ∷ parents) q type
      ≡ otherwise
          (scan_name cell q (symtab.syms_by_name (sym_hash_name q)))
          (found_value cell type)
          (sym_find cell parents q type)
unfolding sym_find sym_find1
sym_find_step cell symtab parents q type =
    by_scan (scan_name cell q (symtab.syms_by_name (sym_hash_name q)))
  where
    by_scan :
        (o : Option ℕ)
        → Option.map
            (λ p. (cell p).value)
            (elim o [
              | some p ↦ if nonzero type && not ((cell p).type == type) then none else some p
              | none ↦ sym_find1 cell parents q type
            ])
          ≡ otherwise o (found_value cell type) (sym_find cell parents q type)
    by_scan none = refl
    by_scan (some p) = ground arith

pub sym_lookup_step :
    (cell : ℕ → Symbol) (symtab : Symtab) (parents : List Symtab) (v : ℕ)
    → sym_lookup cell (symtab ∷ parents) v
      ≡ otherwise
          (scan_value cell v (symtab.syms_by_value (sym_hash_value v)))
          (λ p. some (cell p).name)
          (sym_lookup cell parents v)
unfolding sym_lookup
sym_lookup_step cell symtab parents v =
    by_scan (scan_value cell v (symtab.syms_by_value (sym_hash_value v)))
  where
    by_scan :
        (o : Option ℕ)
        → elim o [ some p ↦ some (cell p).name | none ↦ sym_lookup cell parents v ]
          ≡ otherwise o (λ p. some (cell p).name) (sym_lookup cell parents v)
    by_scan none = refl
    by_scan (some p) = refl

pub otherwise_congr :
    {A : Type 0} (o : Option ℕ) {f g : ℕ → Option A} {r r' : Option A}
    → ((p : ℕ) → o ≡ some p → f p ≡ g p)
    → r ≡ r'
    → otherwise o f r ≡ otherwise o g r'
otherwise_congr none h e = e
otherwise_congr (some p) h e = h p refl

module _ (cell : ℕ → Symbol) (n : ℕ) (s : Symbol) where
  pub sym_find_fresh :
      (q : CString) (type : ℕ) (tabs : List Symtab)
      → AllLinked n tabs
      → sym_find (write_cell cell n s) tabs q type ≡ sym_find cell tabs q type
  unfolding sym_find sym_find1
  sym_find_fresh q type [] linked = refl
  sym_find_fresh q type (symtab ∷ parents) linked =
      let chain = symtab.syms_by_name (sym_hash_name q) in
      let below = linked.0.names (sym_hash_name q) in
      sym_find_step (write_cell cell n s) symtab parents q type
      ∙ ap
          (λ o.
            otherwise o (found_value (write_cell cell n s) type)
              (sym_find (write_cell cell n s) parents q type))
          (scan_name_fresh cell n s q chain below)
      ∙ otherwise_congr (scan_name cell q chain)
          (λ p e. ground (arith, scan_name-lt cell n p q chain below e))
          (sym_find_fresh q type parents linked.1)
      ∙ sym (sym_find_step cell symtab parents q type)

  pub sym_lookup_fresh :
      (v : ℕ) (tabs : List Symtab)
      → AllLinked n tabs
      → sym_lookup (write_cell cell n s) tabs v ≡ sym_lookup cell tabs v
  unfolding sym_lookup
  sym_lookup_fresh v [] linked = refl
  sym_lookup_fresh v (symtab ∷ parents) linked =
      let chain = symtab.syms_by_value (sym_hash_value v) in
      let below = linked.0.values (sym_hash_value v) in
      sym_lookup_step (write_cell cell n s) symtab parents v
      ∙ ap
          (λ o.
            otherwise o (λ p. some (write_cell cell n s p).name)
              (sym_lookup (write_cell cell n s) parents v))
          (scan_value_fresh cell n s v chain below)
      ∙ otherwise_congr (scan_value cell v chain)
          (λ p e. ground (arith, scan_value-lt cell n p v chain below e))
          (sym_lookup_fresh v parents linked.1)
      ∙ sym (sym_lookup_step cell symtab parents v)

pub AllLinked-suc : (n : ℕ) (tabs : List Symtab) → AllLinked n tabs → AllLinked (n + 1) tabs
AllLinked-suc n [] linked = tt
AllLinked-suc n (symtab ∷ parents) linked = (
  record {
    names = λ h. Below-suc n (symtab.syms_by_name h) (linked.0.names h);
    values = λ h. Below-suc n (symtab.syms_by_value h) (linked.0.values h);
  },
  AllLinked-suc n parents linked.1,
)
