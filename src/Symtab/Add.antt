-- ===== src/Symtab/Add.antt =====
-- `sym_add` against the lookups (symtab.c).
use exec.Base.{
  ℕ, ◌+◌, ◌<◌, ◌≡◌, refl, sym, arith, ap, ◌∙◌, Bool, true, false, Option, none, some, List, ◌∷◌,
  if◌then◌else◌, ◌==◌, ◌&&◌, not, length, ◌≤◌,
}
use exec.Base.Word.{nonzero}
use exec.Symtab.{
  CString, str_eq, Symbols, Symtab, StringSpace, write_cell, stringspace_copy, sym_hash_name,
  sym_hash_value, scan_name, scan_value, sym_find, sym_lookup, sym_add, new_symbol, link,
  max_stringspace,
}
use exec.Symtab.Strings.{stringspace_copy-some}
use exec.Symtab.Chains.{
  IsLinked, AllLinked, str_eq→eq, scan_name_fresh, scan_value_fresh, Below-suc, found_value,
  otherwise, sym_find_step, sym_lookup_step, sym_find_fresh, sym_lookup_fresh, AllLinked-suc,
}

module _ (symtab : Symtab) (parents : List Symtab) (name : CString) (value type : ℕ)
    (heap : Symbols) (linked : AllLinked heap.next (symtab ∷ parents)) (strings : StringSpace)
    (fits : stringspace_copy name heap.strings ≡ some strings) where
  abbrev added : Symbols
  added = record {
    cell = write_cell heap.cell heap.next (new_symbol name value type);
    next = heap.next + 1;
    strings = strings;
  }

  abbrev linked_in : Symtab
  linked_in = link heap.next name value symtab

  sym_add_lem : sym_add symtab name value type heap ≡ some (linked_in, added)
  unfolding sym_add
  sym_add_lem = rw fits refl

  hash_same : (q : CString) → str_eq q name ≡ true → sym_hash_name q ≡ sym_hash_name name
  hash_same q same = ap sym_hash_name (str_eq→eq q name same)

  scan_name-link :
      (q : CString)
      → scan_name added.cell q (linked_in.syms_by_name (sym_hash_name q)) ≡ (
          if str_eq q name
          then some heap.next
          else scan_name heap.cell q (symtab.syms_by_name (sym_hash_name q)))
  unfolding scan_name
  scan_name-link q = ground (
    arith,
    hash_same q,
    scan_name_fresh heap.cell heap.next (new_symbol name value type) q
        (symtab.syms_by_name (sym_hash_name q)) (linked.0.names (sym_hash_name q)),
  )

  scan_value-link :
      (v : ℕ)
      → scan_value added.cell v (linked_in.syms_by_value (sym_hash_value v)) ≡ (
          if v == value
          then some heap.next
          else scan_value heap.cell v (symtab.syms_by_value (sym_hash_value v)))
  unfolding scan_value
  scan_value-link v = ground (
    arith,
    scan_value_fresh heap.cell heap.next (new_symbol name value type) v
        (symtab.syms_by_value (sym_hash_value v)) (linked.0.values (sym_hash_value v)),
  )

  sym_find-link :
      (q : CString) (t : ℕ)
      → sym_find added.cell (linked_in ∷ parents) q t ≡ (
          if str_eq q name
          then (if nonzero t && not (type == t) then none else some value)
          else sym_find heap.cell (symtab ∷ parents) q t)
  sym_find-link q t =
      let chain = symtab.syms_by_name (sym_hash_name q) in
      let rest = sym_find added.cell parents q t in
      sym_find_step added.cell linked_in parents q t
      ∙ ap (λ o. otherwise o (found_value added.cell t) rest) (scan_name-link q)
      ∙ by_test (str_eq q name) _ _ _ (
          ap (λ o. otherwise o (found_value added.cell t) rest)
            (sym (
              scan_name_fresh heap.cell heap.next (new_symbol name value type) q chain
                (linked.0.names (sym_hash_name q))))
          ∙ sym (sym_find_step added.cell symtab parents q t)
          ∙ sym_find_fresh heap.cell heap.next (new_symbol name value type) q t (symtab ∷ parents)
              linked)
    where
      by_test :
          (b : Bool) (o rest old : Option ℕ)
          → otherwise o (found_value added.cell t) rest ≡ old
          → otherwise (if b then some heap.next else o) (found_value added.cell t) rest
            ≡ (if b then (if nonzero t && not (type == t) then none else some value) else old)
      by_test true o rest old e = ground arith
      by_test false o rest old e = e

  sym_lookup-link :
      (v : ℕ)
      → sym_lookup added.cell (linked_in ∷ parents) v
        ≡ (if v == value then some name else sym_lookup heap.cell (symtab ∷ parents) v)
  sym_lookup-link v =
      let chain = symtab.syms_by_value (sym_hash_value v) in
      let rest = sym_lookup added.cell parents v in
      sym_lookup_step added.cell linked_in parents v
      ∙ ap (λ o. otherwise o (λ p. some (added.cell p).name) rest) (scan_value-link v)
      ∙ by_test (v == value) _ _ _ (
          ap (λ o. otherwise o (λ p. some (added.cell p).name) rest)
            (sym (
              scan_value_fresh heap.cell heap.next (new_symbol name value type) v chain
                (linked.0.values (sym_hash_value v))))
          ∙ sym (sym_lookup_step added.cell symtab parents v)
          ∙ sym_lookup_fresh heap.cell heap.next (new_symbol name value type) v (symtab ∷ parents)
              linked)
    where
      by_test :
          (b : Bool) (o : Option ℕ) (rest old : Option CString)
          → otherwise o (λ p. some (added.cell p).name) rest ≡ old
          → otherwise (if b then some heap.next else o) (λ p. some (added.cell p).name) rest
            ≡ (if b then some name else old)
      by_test true o rest old e = ground arith
      by_test false o rest old e = e

  link-IsLinked : IsLinked added.next linked_in
  link-IsLinked = record {
    names = λ h. ground (arith, Below-suc heap.next (symtab.syms_by_name h) (linked.0.names h));
    values = λ h. ground (arith, Below-suc heap.next (symtab.syms_by_value h) (linked.0.values h));
  }

module _ (symtab : Symtab) (parents : List Symtab) (name : CString) (value type : ℕ)
    (heap : Symbols) (linked : AllLinked heap.next (symtab ∷ parents))
    (short : length name < max_stringspace) (used : heap.strings.used ≤ max_stringspace) where
  -- When the chains of the tables hold only pointers below the next one, the name fits in a
  -- stringspace and no more than a stringspace is used: `sym_add` succeeds, and from then on
  -- `sym_find` through the table and its parents gives the new value for the new name (nothing
  -- where another type is asked for) and for every other name what it gave before, and
  -- `sym_lookup` gives the new name for the new value and for every other value what it gave
  -- before; the chains again hold only pointers below the next one, and no more than a stringspace
  -- is used.
  pub sym_find-sym_add :
      (symtab' : Symtab) × (heap' : Symbols) × (sym_add symtab name value type heap
        ≡ some (symtab', heap'))
      × ((q : CString) (t : ℕ)
          → sym_find heap'.cell (symtab' ∷ parents) q t ≡ (
              if str_eq q name
              then (if nonzero t && not (type == t) then none else some value)
              else sym_find heap.cell (symtab ∷ parents) q t))
      × ((v : ℕ)
          → sym_lookup heap'.cell (symtab' ∷ parents) v
            ≡ (if v == value then some name else sym_lookup heap.cell (symtab ∷ parents) v))
      × AllLinked heap'.next (symtab' ∷ parents)
      × (heap'.strings.used ≤ max_stringspace)
  sym_find-sym_add =
      let (strings, fits, bound) = stringspace_copy-some name heap.strings short used in
      (
        _,
        _,
        sym_add_lem symtab parents name value type heap linked strings fits,
        sym_find-link symtab parents name value type heap linked strings fits,
        sym_lookup-link symtab parents name value type heap linked strings fits,
        (
          link-IsLinked symtab parents name value type heap linked strings fits,
          AllLinked-suc heap.next parents linked.1,
        ),
        bound,
      )
