-- ===== src/Symtab/Set.antt =====
-- `sym_set` against the lookups (symtab.c).
use exec.Base.{
  ℕ, ◌≤◌, ◌<◌, ◌≡◌, ◌≢◌, refl, sym, arith, ap, ◌∙◌, true, none, some, List, [], ◌∷◌, length,
  if◌then◌else◌, ◌==◌, Option-cases, inl, inr,
}
use mathlib.Core.Option
use mathlib.Core.Option.{some-injective}
use exec.Symtab.{
  CString, str_eq, Symbol, Symbols, Symtab, write_cell, max_stringspace, sym_hash_name,
  sym_hash_value, scan_name, scan_value, sym_find1, sym_find, sym_lookup, sym_set, set_value,
}
use exec.Symtab.Chains.{AllLinked, str_eq→eq, str_eq_self}
use exec.Symtab.Add.{sym_find-sym_add}

scan_name-str_eq :
    (cell : ℕ → Symbol) (p : ℕ) (q : CString) (chain : List ℕ)
    → scan_name cell q chain ≡ some p
    → str_eq q (cell p).name ≡ true
unfolding scan_name
scan_name-str_eq cell p q [] e = cc
scan_name-str_eq cell p q (r ∷ chain) e = ground (arith, scan_name-str_eq cell p q chain)

-- A symbol that is found has the name.
sym_find1-str_eq :
    (cell : ℕ → Symbol) (p : ℕ) (q : CString) (t : ℕ) (tabs : List Symtab)
    → sym_find1 cell tabs q t ≡ some p
    → str_eq q (cell p).name ≡ true
unfolding sym_find1
sym_find1-str_eq cell p q t [] e = cc
sym_find1-str_eq cell p q t (symtab ∷ parents) e = ground (
  arith,
  scan_name-str_eq cell p q (symtab.syms_by_name (sym_hash_name q)),
  sym_find1-str_eq cell p q t parents,
)

module _ (cell : ℕ → Symbol) (p value : ℕ) where
  abbrev with_value : ℕ → Symbol
  with_value = write_cell cell p (record (cell p) { value = value })

  scan_name-with_value :
      (q : CString) (chain : List ℕ) → scan_name with_value q chain ≡ scan_name cell q chain
  unfolding scan_name
  scan_name-with_value q [] = refl
  scan_name-with_value q (r ∷ chain) = ground (arith, scan_name-with_value q chain)

  sym_find1-with_value :
      (q : CString) (t : ℕ) (tabs : List Symtab)
      → sym_find1 with_value tabs q t ≡ sym_find1 cell tabs q t
  unfolding sym_find1
  sym_find1-with_value q t [] = refl
  sym_find1-with_value q t (symtab ∷ parents) = ground (
    arith,
    scan_name-with_value q (symtab.syms_by_name (sym_hash_name q)),
    sym_find1-with_value q t parents,
  )

  other : (r : ℕ) → r ≢ p → some (if r == p then value else (cell r).value) ≡ some (cell r).value
  other r ne = ground arith

  -- The symbol itself has the value, and any other symbol that is found its own.
  sym_find-with_value :
      (q : CString) (t r : ℕ) (tabs : List Symtab)
      → sym_find1 cell tabs q t ≡ some r
      → sym_find with_value tabs q t ≡ some (if r == p then value else (cell r).value)
  unfolding sym_find
  sym_find-with_value q t r tabs e =
      ap (Option.map (λ p. (with_value p).value)) (sym_find1-with_value q t tabs ∙ e) ∙ ground arith

  sym_find-with_value_other :
      (name q : CString) (type t : ℕ) (tabs : List Symtab)
      → sym_find1 cell tabs name type ≡ some p
      → q ≢ name
      → sym_find with_value tabs q t ≡ sym_find cell tabs q t
  sym_find-with_value_other name q type t tabs e differ =
      elim (Option-cases (sym_find1 cell tabs q t)) [
        | inl absent ↦ (unfold sym_find in rw (sym_find1-with_value q t tabs, absent) refl)
        | inr (r, found) ↦
            let ne : r ≢ p = λ same. differ (
              str_eq→eq q _ (sym_find1-str_eq cell r q t tabs found)
              ∙ ap (λ (n : ℕ). (cell n).name) same
              ∙ sym (str_eq→eq name _ (sym_find1-str_eq cell p name type tabs e))) in
            sym_find-with_value q t r tabs found
            ∙ other r ne
            ∙ sym (unfold sym_find in ap (Option.map (λ p. (cell p).value)) found)
      ]

-- The tables whose chains by value hold symbols with values of that hash.
abbrev pub Placed : (ℕ → Symbol) → ℕ → List ℕ → Type 0
Placed cell h [] = Unit {0}
Placed cell h (p ∷ chain) = (sym_hash_value (cell p).value ≡ h) × Placed cell h chain

abbrev pub AllPlaced : (ℕ → Symbol) → List Symtab → Type 0
AllPlaced cell [] = Unit {0}
AllPlaced cell (symtab ∷ parents) =
    ((h : ℕ) → Placed cell h (symtab.syms_by_value h)) × AllPlaced cell parents

module _ (cell : ℕ → Symbol) (p value : ℕ)
    (moved : sym_hash_value (cell p).value ≢ sym_hash_value value) where
  scan_value-with_value :
      (chain : List ℕ)
      → Placed cell (sym_hash_value value) chain
      → scan_value (with_value cell p value) value chain ≡ scan_value cell value chain
  unfolding scan_value
  scan_value-with_value [] placed = refl
  scan_value-with_value (r ∷ chain) placed =
      let ne : r ≢ p =
        λ same. moved (ap (λ (n : ℕ). sym_hash_value (cell n).value) (sym same) ∙ placed.0) in
      ground (arith, ne, scan_value-with_value chain placed.1)

  sym_lookup-with_value :
      (tabs : List Symtab)
      → AllPlaced cell tabs
      → sym_lookup (with_value cell p value) tabs value ≡ sym_lookup cell tabs value
  unfolding sym_lookup
  sym_lookup-with_value [] placed = refl
  sym_lookup-with_value (symtab ∷ parents) placed = ground (
    arith,
    scan_value-with_value (symtab.syms_by_value (sym_hash_value value))
        (placed.0 (sym_hash_value value)),
    sym_lookup-with_value parents placed.1,
  )

module _ (symtab : Symtab) (parents : List Symtab) (name : CString) (value type : ℕ)
    (heap : Symbols) where
  -- For a name and another one, when the chains of the tables hold only pointers below the next
  -- one, the name fits in a stringspace and no more than a stringspace is used: `sym_set`
  -- succeeds, `sym_find` then gives the value that was set for the name and its type, and for the
  -- other name, with any type, what it gave before.
  pub sym_find-sym_set :
      (q : CString) (t : ℕ)
      → q ≢ name
      → AllLinked heap.next (symtab ∷ parents)
      → length name < max_stringspace
      → heap.strings.used ≤ max_stringspace
      → (symtab' : Symtab) × (heap' : Symbols) × (sym_set symtab parents name value type heap
          ≡ some (symtab', heap'))
        × (sym_find heap'.cell (symtab' ∷ parents) name type ≡ some value)
        × (sym_find heap'.cell (symtab' ∷ parents) q t ≡ sym_find heap.cell (symtab ∷ parents) q t)
  unfolding sym_set
  sym_find-sym_set q t ne linked short used =
      elim (Option-cases (sym_find1 heap.cell (symtab ∷ parents) name type)) [
        | inl absent ↦
            let (symtab', heap', runs, finds, _, linked', used') =
              sym_find-sym_add symtab parents name value type heap linked short used in
            (
              symtab',
              heap',
              rw (absent, sym_set) runs,
              finds name type ∙ ground (arith, str_eq_self name),
              finds q t
                  ∙ ground (arith, λ (same : str_eq q name ≡ true). ne (str_eq→eq q name same)),
            )
        | inr (p, found) ↦ (
          symtab,
          set_value p value heap,
          rw (found, sym_set) refl,
          sym_find-with_value heap.cell p value name type p (symtab ∷ parents) found ∙ ground arith,
          sym_find-with_value_other heap.cell p value name q type t (symtab ∷ parents) found ne,
        )
      ]

  value_was :
      (old p : ℕ)
      → sym_find heap.cell (symtab ∷ parents) name type ≡ some old
      → sym_find1 heap.cell (symtab ∷ parents) name type ≡ some p
      → old ≡ (heap.cell p).value
  unfolding sym_find
  value_was old p was found =
      some-injective old (heap.cell p).value
        (sym was ∙ ap (Option.map (λ p. (heap.cell p).value)) found)

  -- When the name has a value of another hash than the new one, no symbol has the new value, and
  -- every symbol in the chains by value stands in that of its value: `sym_set` succeeds,
  -- `sym_find` then gives the new value for the name, but `sym_lookup` gives nothing for the new
  -- value.
  pub sym_lookup-sym_set :
      (old : ℕ)
      → sym_find heap.cell (symtab ∷ parents) name type ≡ some old
      → sym_hash_value old ≢ sym_hash_value value
      → sym_lookup heap.cell (symtab ∷ parents) value ≡ none
      → AllPlaced heap.cell (symtab ∷ parents)
      → (heap' : Symbols) × (sym_set symtab parents name value type heap ≡ some (symtab, heap'))
        × (sym_find heap'.cell (symtab ∷ parents) name type ≡ some value)
        × (sym_lookup heap'.cell (symtab ∷ parents) value ≡ none)
  unfolding sym_set sym_find
  sym_lookup-sym_set old was moved unknown placed =
      elim (Option-cases (sym_find1 heap.cell (symtab ∷ parents) name type)) [
        | inl absent ↦ cc (was, ap (Option.map (λ p. (heap.cell p).value)) absent)
        | inr (p, found) ↦ (
          set_value p value heap,
          rw (found, sym_set) refl,
          sym_find-with_value heap.cell p value name type p (symtab ∷ parents) found ∙ ground arith,
          sym_lookup-with_value heap.cell p value
                (λ same. moved (ap sym_hash_value (value_was old p was found) ∙ same))
                (symtab ∷ parents) placed
              ∙ unknown,
        )
      ]
