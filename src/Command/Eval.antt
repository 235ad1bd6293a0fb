-- ===== src/Command/Eval.antt =====
-- The expressions of the debugger (command.c, `eval` and what it calls). `eval` writes a NUL over the
-- operator that it splits at, so an evaluation also gives the string that the buffer then holds.
pub mod Fuel
pub mod Kept
pub mod NoDivide
pub mod Returns
pub mod Split
use exec.Base.{
  ℕ, zero, suc, ◌+◌, ◌-◌, ◌*◌, ◌/◌, ◌%◌, ◌^◌, Bool, true, false, Option, none, some, List, [], ◌∷◌,
  length, get_elem?, set, ◌==◌, ltb, if◌then◌else◌, not,
}
use exec.Base.Word.{add32, low, of_bool, shl32}
use exec.Base.Run.{M, ◌>>=◌, ◌>>◌, pure, undefined}
use exec.Symtab.{CString, Symbols, Symtab, str_eq, sym_find, sym_set}
use exec.Command.Text.{split_char, split_pair, isdigit, isalpha, strtoul}
use exec.Command.Session.{Debugger, Target, Session, on_target, get_dbg, on_dbg, must}

-- `MAKE_ADDR (devno, phyaddr)`.
abbrev pub make_addr : ℕ → ℕ → ℕ
make_addr devno phyaddr = (devno * 0x10000000 + phyaddr) % 2 ^ 64

abbrev pub max_history : ℕ
max_history = 10

abbrev pub thread_current_name : CString
thread_current_name =
    b't' ∷ b'h' ∷ b'r' ∷ b'e' ∷ b'a' ∷ b'd' ∷ b'_' ∷ b'c' ∷ b'u' ∷ b'r' ∷ b'r' ∷ b'e' ∷ b'n' ∷ b't'
    ∷ []

-- The operator at the front of an expression is not a binary one.
abbrev pub binary_split : ℕ → CString → Option (CString × CString)
binary_split op s = elim (split_char op s) [
  | none ↦ none
  | some parts ↦ elim parts.0 [ [] ↦ none | _ ∷ _ ↦ some parts ]
]

abbrev pub first_of : {A : Type 0} → Option A → Option A → Option A
first_of none rest = rest
first_of (some a) rest = some a

-- The binary operators, in the order in which `eval` looks for them.
pub data Operator : Type 0 where
  equal not_equal assign plus minus times divide : Operator

abbrev pub with_operator :
    Operator → Option (CString × CString) → Option (Operator × CString × CString)
with_operator op none = none
with_operator op (some (l, r)) = some (op, l, r)

-- What the tests of `fold_comparisons`, `eval` and `fold_binary` find, the first that succeeds.
unfoldable pub find_operator : CString → Option (Operator × CString × CString)
unfolding split_char split_pair
find_operator s = first_of (with_operator equal (split_pair b'=' b'=' s)) (
    first_of (with_operator not_equal (split_pair b'!' b'=' s)) (
      first_of (with_operator assign (split_char b'=' s)) (
        first_of (with_operator plus (binary_split b'+' s)) (
          first_of (with_operator minus (binary_split b'-' s)) (
            first_of (with_operator times (binary_split b'*' s))
              (with_operator divide (binary_split b'/' s)))))))

module _ {T : Type 0} (ops : Target T) where
  unfoldable pub save_value : ℕ → M (Session T) (Unit {0})
  save_value val = on_dbg λ d. record d {
    historytab = set d.historytab (d.history_count % max_history) val;
    history_count = add32 d.history_count 1;
  }

  unfoldable pub eval_historical : ℕ → M (Session T) ℕ
  eval_historical id = do d ← get_dbg; must (get_elem? d.historytab (low id 32 % max_history))

  -- What is printed of the thread is left out.
  unfoldable pub assign_virtual : CString → ℕ → M (Session T) (Unit {0})
  assign_virtual name val = do
    d ← get_dbg
    elim (sym_find d.heap.cell (d.auto_symtab ∷ []) name 0) [
      | some handler ↦ on_target (ops.write_virtual handler val)
      | none ↦ do
        (table, heap) ← must (sym_set d.internal_symtab [] name val 0 d.heap)
        on_dbg λ d. record d {
          internal_symtab = table;
          heap = heap;
          thread_current = if str_eq name thread_current_name then val else d.thread_current;
        }
    ]

  unfoldable pub eval_virtual : CString → M (Session T) ℕ
  eval_virtual name = do
    d ← get_dbg
    elim (sym_find d.heap.cell (d.auto_symtab ∷ []) name 0) [
      | some handler ↦ on_target (ops.read_virtual handler)
      | none ↦ elim (sym_find d.heap.cell (d.internal_symtab ∷ []) name 0) [
        | some val ↦ pure val
        | none ↦ pure 0
      ]
    ]

  -- `abs_read16`; undefined for another size.
  unfoldable pub target_read : ℕ → ℕ → M (Session T) ℕ
  target_read addr size =
      if size == 1
      then on_target (ops.abs_read8 addr)
      else if size == 2
      then (do
        high ← on_target (ops.abs_read8 addr)
        rest ← on_target (ops.abs_read8 ((addr + 1) % 2 ^ 64))
        pure (high * 256 + rest))
      else (λ s. undefined)

  -- The body of `fold_binary`; dividing by zero is undefined.
  unfoldable pub combine : Operator → ℕ → ℕ → M (Session T) ℕ
  combine equal a b = pure (of_bool (a == b))
  combine not_equal a b = pure (of_bool (not (a == b)))
  combine assign a b = pure b
  combine plus a b = pure ((a + b) % 2 ^ 64)
  combine minus a b = pure ((a + (2 ^ 64 - b)) % 2 ^ 64)
  combine times a b = pure (a * b % 2 ^ 64)
  combine divide a b = if b == 0 then (λ s. undefined) else pure (a / b)

  module _ (eval : CString → M (Session T) (ℕ × CString)) where
    -- The other forms of an address: a symbol, or an expression for an address of the processor.
    unfoldable pub eval_address : CString → M (Session T) (ℕ × CString)
    eval_address [] = do
      (val, rest) ← eval []
      at ← on_target (ops.to_absolute val)
      pure (at, rest)
    eval_address (c ∷ s) =
        if isalpha c
        then (do
          d ← get_dbg
          elim (sym_find d.heap.cell (d.program_symtab ∷ []) (c ∷ s) 0) [
            | some val ↦ pure (val, c ∷ s)
            | none ↦ pure (0, c ∷ s)
          ])
        else (do (val, rest) ← eval (c ∷ s); at ← on_target (ops.to_absolute val); pure (at, rest))

    -- `eval_mem (expr, LVALUE)`.
    unfoldable pub eval_lvalue : CString → M (Session T) (ℕ × CString)
    unfolding eval_address split_char
    eval_lvalue expr = elim (split_char b':' expr) [
      | some (l, r) ↦ do
        (device, rest) ← eval l
        (address, _) ← eval r
        pure (make_addr device address, rest)
      | none ↦ eval_address expr
    ]

    -- `eval_mem (expr, RVALUE)`.
    unfoldable pub eval_rvalue : CString → M (Session T) (ℕ × CString)
    unfolding eval_lvalue target_read
    eval_rvalue expr = do (at, rest) ← eval_lvalue expr; val ← target_read at 1; pure (val, rest)

    -- The string is what the buffer then holds.
    unfoldable pub eval_assign : CString → ℕ → M (Session T) CString
    unfolding eval_lvalue assign_virtual
    eval_assign [] val = do
      (dst, rest) ← eval_lvalue []
      on_target (ops.abs_write8 dst (low val 8))
      pure rest
    eval_assign (c ∷ s) val = if c == b'$' then (do assign_virtual s val; pure (c ∷ s)) else (do
      (dst, rest) ← eval_lvalue (c ∷ s)
      on_target (ops.abs_write8 dst (low val 8))
      pure rest)

    -- The expression after `$`.
    unfoldable pub eval_dollar : CString → M (Session T) ℕ
    unfolding eval_historical eval_virtual strtoul
    eval_dollar [] = eval_historical 0
    eval_dollar (c ∷ s) =
        if c == b'$'
        then (do
          d ← get_dbg
          eval_historical ((d.history_count + (2 ^ 64 - strtoul 10 s)) % 2 ^ 64))
        else if isdigit c
        then eval_historical (strtoul 10 (c ∷ s))
        else eval_virtual (c ∷ s)

    -- An expression with no operator.
    unfoldable pub eval_operand : CString → M (Session T) (ℕ × CString)
    unfolding eval_dollar eval_lvalue eval_rvalue strtoul
    eval_operand [] = pure (strtoul 0 [], [])
    eval_operand (c ∷ s) =
        if c == b'$'
        then (do val ← eval_dollar s; pure (val, c ∷ s))
        else if c == b'&'
        then (do (at, rest) ← eval_lvalue s; pure (at, c ∷ rest))
        else if isalpha c
        then eval_rvalue (c ∷ s)
        else pure (strtoul 0 (c ∷ s), c ∷ s)

    abbrev pub eval_operator : Operator → CString → CString → M (Session T) (ℕ × CString)
    unfolding eval_assign combine
    eval_operator assign l r = do (val, _) ← eval r; rest ← eval_assign l val; pure (val, rest)
    eval_operator op l r = do
      (val1, rest) ← eval l
      (val2, _) ← eval r
      val ← combine op val1 val2
      pure (val, rest)

    -- The body of `eval`; `eval` is the function for the strings that are split off.
    unfoldable pub eval_body : CString → M (Session T) (ℕ × CString)
    unfolding find_operator eval_operator eval_operand
    eval_body expr = elim (find_operator expr) [
      | some (op, l, r) ↦ eval_operator op l r
      | none ↦ eval_operand expr
    ]

  -- At most `fuel` calls deep.
  unfoldable pub eval_fuel : ℕ → CString → M (Session T) (ℕ × CString)
  unfolding eval_body
  eval_fuel zero expr = λ s. undefined
  eval_fuel (suc fuel) expr = eval_body (eval_fuel fuel) expr

  -- A call is for a shorter string than the one before it.
  unfoldable pub eval : CString → M (Session T) (ℕ × CString)
  unfolding eval_fuel
  eval expr = eval_fuel (length expr + 1) expr
