-- ===== src/Tests/Symbols.antt =====
-- The symbol tables (symtab.c).
use exec.Base.{
  ℕ, ◌≡◌, ◌≢◌, refl, arith, ◌==◌, ◌&&◌, not, if◌then◌else◌, Bool, true, false, none, some, [], ◌∷◌,
  ◌≤◌,
}
use exec.Base.Word.{nonzero}
use exec.Symtab.{
  CString, str_eq, Symbol, Symbols, Symtab, new_symbol, sym_find, sym_find1, sym_lookup, sym_add,
  sym_set, max_stringspace, sym_hash_value, write_cell,
}
use exec.Symtab.Chains.{AllLinked}
use exec.Symtab.Add
use exec.Symtab.Set
use exec.Symtab.Set.{AllPlaced, Placed}

abbrev pub sp : CString
sp = b's' ∷ b'p' ∷ []

abbrev pub count : CString
count = b'c' ∷ b'o' ∷ b'u' ∷ b'n' ∷ b't' ∷ []

abbrev pub no_symbol : Symbol
no_symbol = new_symbol [] 0 0

abbrev pub no_symbols : Symbols
no_symbols = record { cell = λ p. no_symbol; next = 0; strings = record { used = 0; spaces = 1 } }

abbrev pub empty_table : Symtab
empty_table = record { syms_by_name = λ h. []; syms_by_value = λ h. [] }

empty_linked : AllLinked 0 (empty_table ∷ [])
empty_linked = (record { names = λ h. tt; values = λ h. tt }, tt)

sym_find-sym_add_example :
    (table : Symtab) × (heap : Symbols) × (sym_add empty_table sp 0x1234 1 no_symbols
      ≡ some (table, heap))
    × ((q : CString) (t : ℕ)
        → sym_find heap.cell (table ∷ []) q t ≡ (
            if str_eq q sp
            then (if nonzero t && not (1 == t) then none else some 0x1234)
            else sym_find no_symbols.cell (empty_table ∷ []) q t))
    × ((v : ℕ)
        → sym_lookup heap.cell (table ∷ []) v
          ≡ (if v == 0x1234 then some sp else sym_lookup no_symbols.cell (empty_table ∷ []) v))
    × AllLinked heap.next (table ∷ [])
    × (heap.strings.used ≤ max_stringspace)
sym_find-sym_add_example =
    Add.sym_find-sym_add empty_table [] sp 0x1234 1 no_symbols empty_linked (omega arith)
      (omega arith)

sym_find-sym_set_example :
    (table : Symtab) × (heap : Symbols) × (sym_set empty_table [] count 7 0 no_symbols
      ≡ some (table, heap))
    × (sym_find heap.cell (table ∷ []) count 0 ≡ some 7)
    × (sym_find heap.cell (table ∷ []) sp 0 ≡ sym_find no_symbols.cell (empty_table ∷ []) sp 0)
sym_find-sym_set_example =
    Set.sym_find-sym_set empty_table [] count 7 0 no_symbols sp 0 differ empty_linked (omega arith)
      (omega arith)
  where
    differ : sp ≢ count
    differ e = cc

-- One symbol, `count`, with the value 5.
abbrev one_table : Symtab
one_table = record {
  syms_by_name = write_cell (λ h. []) 886 (0 ∷ []);
  syms_by_value = write_cell (λ h. []) 5 (0 ∷ []);
}

abbrev one_symbol : Symbols
one_symbol = record {
  cell = λ p. new_symbol count 5 0;
  next = 1;
  strings = record { used = 6; spaces = 1 };
}

Placed-if :
    (h : ℕ) (b : Bool)
    → (b ≡ true → sym_hash_value 5 ≡ h)
    → Placed one_symbol.cell h (if b then 0 ∷ [] else [])
Placed-if h true e = (e refl, tt)
Placed-if h false e = tt

hash_of_value : (h : ℕ) → (h == 5) ≡ true → sym_hash_value 5 ≡ h
unfolding sym_hash_value
hash_of_value h e = ground arith

one-AllPlaced : AllPlaced one_symbol.cell (one_table ∷ [])
one-AllPlaced = (λ h. Placed-if h (h == 5) (hash_of_value h), tt)

was_five : sym_find one_symbol.cell (one_table ∷ []) count 0 ≡ some 5
unfolding sym_find sym_find1
was_five = refl

unknown : sym_lookup one_symbol.cell (one_table ∷ []) 6 ≡ none
unfolding sym_lookup
unknown = refl

moved : sym_hash_value 5 ≢ sym_hash_value 6
unfolding sym_hash_value
moved e = omega arith

sym_lookup-sym_set_example :
    (heap : Symbols) × (sym_set one_table [] count 6 0 one_symbol ≡ some (one_table, heap))
    × (sym_find heap.cell (one_table ∷ []) count 0 ≡ some 6)
    × (sym_lookup heap.cell (one_table ∷ []) 6 ≡ none)
sym_lookup-sym_set_example =
    Set.sym_lookup-sym_set one_table [] count 6 0 one_symbol 5 was_five moved unknown one-AllPlaced
