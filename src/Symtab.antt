-- ===== src/Symtab.antt =====
-- The symbol tables (symtab.c; 6809.h, `struct symtab` and `struct symbol`).
pub mod Chains
pub mod Add
pub mod Strings
pub mod Set
use exec.Base.{
  ℕ, ◌+◌, ◌*◌, ◌%◌, ◌^◌, Bool, true, false, ◌&&◌, not, Option, none, some, List, [], ◌∷◌, length,
  if◌then◌else◌, ◌==◌, ltb,
}
use mathlib.Core.Option
use exec.Base.Word.{add32, shl32, low, sext8, nonzero}

-- A string is the list of its bytes, without the NUL at its end.
abbrev pub CString : Type 0
CString = List ℕ

-- `!strcmp (a, b)`.
abbrev pub str_eq : CString → CString → Bool
str_eq [] [] = true
str_eq [] (y ∷ ys) = false
str_eq (x ∷ xs) [] = false
str_eq (x ∷ xs) (y ∷ ys) = x == y && str_eq xs ys

-- `*name`, the NUL at the end included.
abbrev pub first_char : CString → ℕ
first_char [] = 0
first_char (x ∷ xs) = x

abbrev pub max_symbol_hash : ℕ
max_symbol_hash = 1009

abbrev pub max_stringspace : ℕ
max_stringspace = 32000

-- `struct symbol`; the chains that it is in are lists of pointers, below.
pub record Symbol : Type 0 where
  pub name : CString
  pub value : ℕ
  pub type : ℕ
  pub format : ℕ
  pub size : ℕ

-- `current_stringspace`: how much of it is used, and how many there are.
pub record StringSpace : Type 0 where
  pub used : ℕ
  pub spaces : ℕ

-- The symbols behind their pointers, which are numbers; `next` is the one that `malloc` gives.
pub record Symbols : Type 0 where
  pub cell : ℕ → Symbol
  pub next : ℕ
  pub strings : StringSpace

-- The linked list that an entry of either table begins is the list of its pointers. A table whose
-- `parent` is another one is a list of tables, the parents after it.
pub record Symtab : Type 0 where
  pub syms_by_name : ℕ → List ℕ
  pub syms_by_value : ℕ → List ℕ

abbrev pub write_cell : {A : Type 0} → (ℕ → A) → ℕ → A → ℕ → A
write_cell f i v j = if j == i then v else f j

unfoldable pub stringspace_create : ℕ → StringSpace
stringspace_create spaces = record { used = 0; spaces = spaces + 1 }

-- The copy is the string; `none` if it does not fit in a stringspace.
unfoldable pub stringspace_copy : CString → StringSpace → Option StringSpace
unfolding stringspace_create
stringspace_copy string ss =
    let len = low (length string + 1) 32 in
    let current =
      if ltb max_stringspace (add32 ss.used len) then stringspace_create ss.spaces else ss in
    if ltb max_stringspace (current.used + length string + 1)
    then none
    else some (record current { used = add32 current.used len })

-- `char` is signed.
unfoldable pub sym_hash_name : CString → ℕ
sym_hash_name [] = 0
sym_hash_name (a ∷ []) = add32 (shl32 (low a 5) 11) 0 % max_symbol_hash
sym_hash_name (a ∷ b ∷ rest) =
    let hash = add32 (shl32 (low a 5) 11) (544 * sext8 b) in
    add32 (shl32 hash 5) (17 * sext8 (first_char rest)) % max_symbol_hash

unfoldable pub sym_hash_value : ℕ → ℕ
sym_hash_value value = value % max_symbol_hash

-- The inner loops of `sym_find1` and `sym_lookup`.
unfoldable pub scan_name : (ℕ → Symbol) → CString → List ℕ → Option ℕ
scan_name cell name [] = none
scan_name cell name (p ∷ chain) =
    if str_eq name (cell p).name then some p else scan_name cell name chain

unfoldable pub scan_value : (ℕ → Symbol) → ℕ → List ℕ → Option ℕ
scan_value cell value [] = none
scan_value cell value (p ∷ chain) =
    if value == (cell p).value then some p else scan_value cell value chain

-- A symbol of that name but of another type ends the search.
unfoldable pub sym_find1 : (ℕ → Symbol) → List Symtab → CString → ℕ → Option ℕ
unfolding scan_name sym_hash_name
sym_find1 cell [] name type = none
sym_find1 cell (symtab ∷ parents) name type =
    elim (scan_name cell name (symtab.syms_by_name (sym_hash_name name))) [
      | some p ↦ if nonzero type && not ((cell p).type == type) then none else some p
      | none ↦ sym_find1 cell parents name type
    ]

-- The value, where the function returns 0.
unfoldable pub sym_find : (ℕ → Symbol) → List Symtab → CString → ℕ → Option ℕ
sym_find cell symtab name type = Option.map (λ p. (cell p).value) (sym_find1 cell symtab name type)

unfoldable pub sym_lookup : (ℕ → Symbol) → List Symtab → ℕ → Option CString
unfolding scan_value sym_hash_value
sym_lookup cell [] value = none
sym_lookup cell (symtab ∷ parents) value =
    elim (scan_value cell value (symtab.syms_by_value (sym_hash_value value))) [
      | some p ↦ some (cell p).name
      | none ↦ sym_lookup cell parents value
    ]

abbrev pub new_symbol : CString → ℕ → ℕ → Symbol
new_symbol name value type = record {
  name = name;
  value = value;
  type = type;
  format = 0;
  size = 0;
}

-- The symbol goes to the front of both chains.
abbrev pub link : ℕ → CString → ℕ → Symtab → Symtab
link p name value symtab = record {
  syms_by_name =
      write_cell symtab.syms_by_name (sym_hash_name name)
        (p ∷ symtab.syms_by_name (sym_hash_name name));
  syms_by_value =
      write_cell symtab.syms_by_value (sym_hash_value value)
        (p ∷ symtab.syms_by_value (sym_hash_value value));
}

-- `none` where the copy of the name overflows.
unfoldable pub sym_add : Symtab → CString → ℕ → ℕ → Symbols → Option (Symtab × Symbols)
unfolding stringspace_copy sym_hash_name sym_hash_value
sym_add symtab name value type heap =
    Option.map
      (λ strings. (
        link heap.next name value symtab,
        record {
          cell = write_cell heap.cell heap.next (new_symbol name value type);
          next = heap.next + 1;
          strings = strings;
        },
      ))
      (stringspace_copy name heap.strings)

abbrev pub set_value : ℕ → ℕ → Symbols → Symbols
set_value p value heap = record heap {
  cell = write_cell heap.cell p (record (heap.cell p) { value = value });
}

-- A value that is set leaves the symbol in its chains.
unfoldable pub sym_set :
    Symtab → List Symtab → CString → ℕ → ℕ → Symbols → Option (Symtab × Symbols)
sym_set symtab parents name value type heap =
    elim (sym_find1 heap.cell (symtab ∷ parents) name type) [
      | some p ↦ some (symtab, set_value p value heap)
      | none ↦ sym_add symtab name value type heap
    ]

unfoldable pub symtab_init : Symtab
symtab_init = record { syms_by_name = λ h. []; syms_by_value = λ h. [] }
