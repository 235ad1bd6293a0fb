-- ===== src/Command/Eval/Kept.antt =====
-- What an evaluation keeps (command.c, `eval`): the breakpoints.
use exec.Base.{ℕ, zero, suc, ◌+◌, ◌≡◌, refl, ◌∙◌, Option, none, some, [], ◌∷◌, length, ◌==◌}
use exec.Base.Run.{M, Outcome, done, exited, undefined, ◌>>=◌, ◌>>◌, pure}
use exec.Base.Word.{low}
use exec.Base.Kept.{
  Ends, Keeps, Keeps-bind, Keeps-seq, Keeps-if, Keeps-option, Keeps-pure, Keeps-undefined,
}
use exec.Symtab.{CString, sym_find}
use exec.Command.{Breaks}
use exec.Command.Text.{split_char, isalpha, isdigit}
use exec.Command.Session.{
  Debugger, Simulated, Target, Session, on_target, lifted, get_dbg, on_dbg, must,
}
use exec.Command.Eval.{
  Operator, equal, not_equal, assign, plus, minus, times, divide, find_operator, combine,
  target_read, eval_address, eval_lvalue, eval_rvalue, eval_assign, eval_operand, eval_operator,
  eval_body, eval_fuel, eval, assign_virtual, eval_virtual, eval_historical, eval_dollar,
  save_value,
}

module _ {T : Type 0} (ops : Target T) (b : Breaks) where
  abbrev pub Same : Session T → Type 0
  Same s = s.dbg.breaks ≡ b

  pub Keeps-on_target : {A : Type 0} (m : M (Simulated T) A) → Keeps Same (on_target m)
  Keeps-on_target m = record { ends = λ s p. by_outcome s p (m _) }
    where
      by_outcome :
          {A : Type 0} (s : Session T)
          → Same s
          → (r : Outcome (Simulated T) A) → Ends Same (lifted s.dbg r)
      by_outcome s p (done a t) = p
      by_outcome s p (exited k t) = tt
      by_outcome s p undefined = tt

  pub Keeps-get_dbg : Keeps Same get_dbg
  Keeps-get_dbg = record { ends = λ s p. p }

  pub Keeps-must : {A : Type 0} (o : Option A) → Keeps Same (must o)
  Keeps-must none = record { ends = λ s p. tt }
  Keeps-must (some a) = record { ends = λ s p. p }

  pub save_value-Keeps : (val : ℕ) → Keeps Same (save_value ops val)
  unfolding save_value
  save_value-Keeps val = record { ends = λ s p. p }

  eval_historical-Keeps : (id : ℕ) → Keeps Same (eval_historical ops id)
  unfolding eval_historical
  eval_historical-Keeps id = Keeps-bind Keeps-get_dbg (λ d. Keeps-must _)

  pub on_dbg-Keeps :
      (f : Debugger → Debugger) → ((d : Debugger) → (f d).breaks ≡ d.breaks) → Keeps Same (on_dbg f)
  on_dbg-Keeps f h = record { ends = λ s p. h s.dbg ∙ p }

  pub ruleset kept = (
    Keeps-bind, Keeps-seq, Keeps-if, Keeps-option, Keeps-pure, Keeps-undefined, Keeps-on_target,
    Keeps-get_dbg, Keeps-must,
  )

  assign_virtual-Keeps : (name : CString) (val : ℕ) → Keeps Same (assign_virtual ops name val)
  unfolding assign_virtual
  assign_virtual-Keeps name val = Keeps-bind Keeps-get_dbg λ d.
      Keeps-option (sym_find d.heap.cell (d.auto_symtab ∷ []) name 0)
        (Keeps-bind (Keeps-must _) λ (table, heap). on_dbg-Keeps _ (λ d. refl))
        (λ handler. Keeps-on_target (ops.write_virtual handler val))

  eval_virtual-Keeps : (name : CString) → Keeps Same (eval_virtual ops name)
  unfolding eval_virtual
  eval_virtual-Keeps name = Keeps-bind Keeps-get_dbg λ d.
      Keeps-option (sym_find d.heap.cell (d.auto_symtab ∷ []) name 0)
        (Keeps-option (sym_find d.heap.cell (d.internal_symtab ∷ []) name 0) (Keeps-pure 0)
          (λ val. Keeps-pure val))
        (λ handler. Keeps-on_target (ops.read_virtual handler))

  pub target_read-Keeps : (addr size : ℕ) → Keeps Same (target_read ops addr size)
  unfolding target_read
  target_read-Keeps addr size = search kept

  combine-Keeps : (op : Operator) (x y : ℕ) → Keeps Same (combine ops op x y)
  unfolding combine
  combine-Keeps equal x y = search kept
  combine-Keeps not_equal x y = search kept
  combine-Keeps assign x y = search kept
  combine-Keeps plus x y = search kept
  combine-Keeps minus x y = search kept
  combine-Keeps times x y = search kept
  combine-Keeps divide x y = search kept

  module _ (eval : CString → M (Session T) (ℕ × CString))
      (inner : (expr : CString) → Keeps Same (eval expr)) where
    eval_dollar-Keeps : (expr : CString) → Keeps Same (eval_dollar ops eval expr)
    unfolding eval_dollar
    eval_dollar-Keeps [] = eval_historical-Keeps 0
    eval_dollar-Keeps (c ∷ s) =
        Keeps-if (c == b'$') (Keeps-bind Keeps-get_dbg (λ d. eval_historical-Keeps _))
          (Keeps-if (isdigit c) (eval_historical-Keeps _) (eval_virtual-Keeps (c ∷ s)))

    address-Keeps :
        (expr : CString)
        → Keeps {A = ℕ × CString} Same
            (do (val, rest) ← eval expr; at ← on_target (ops.to_absolute val); pure (at, rest))
    address-Keeps expr = Keeps-bind (inner expr) λ (val, rest).
        Keeps-bind (Keeps-on_target (ops.to_absolute val)) λ at. Keeps-pure (at, rest)

    eval_address-Keeps : (expr : CString) → Keeps Same (eval_address ops eval expr)
    unfolding eval_address
    eval_address-Keeps [] = address-Keeps []
    eval_address-Keeps (c ∷ s) =
        Keeps-if (isalpha c)
          (Keeps-bind Keeps-get_dbg λ d.
            Keeps-option (sym_find d.heap.cell (d.program_symtab ∷ []) (c ∷ s) 0) (Keeps-pure _)
              (λ val. Keeps-pure _))
          (address-Keeps (c ∷ s))

    pub eval_lvalue-Keeps : (expr : CString) → Keeps Same (eval_lvalue ops eval expr)
    unfolding eval_lvalue
    eval_lvalue-Keeps expr = Keeps-option (split_char b':' expr) (eval_address-Keeps expr) λ (l, r).
        Keeps-bind (inner l) λ (device, rest). Keeps-bind (inner r) λ (address, _). Keeps-pure _

    eval_rvalue-Keeps : (expr : CString) → Keeps Same (eval_rvalue ops eval expr)
    unfolding eval_rvalue
    eval_rvalue-Keeps expr =
        Keeps-bind (eval_lvalue-Keeps expr)
          λ (at, rest). Keeps-bind (target_read-Keeps at 1) λ val. Keeps-pure _

    write-Keeps :
        (expr : CString) (val : ℕ)
        → Keeps Same (do
          (dst, rest) ← eval_lvalue ops eval expr
          on_target (ops.abs_write8 dst (low val 8))
          pure rest)
    write-Keeps expr val = Keeps-bind (eval_lvalue-Keeps expr) λ (dst, rest).
        Keeps-seq (Keeps-on_target (ops.abs_write8 dst (low val 8))) (Keeps-pure rest)

    eval_assign-Keeps : (expr : CString) (val : ℕ) → Keeps Same (eval_assign ops eval expr val)
    unfolding eval_assign
    eval_assign-Keeps [] val = write-Keeps [] val
    eval_assign-Keeps (c ∷ s) val =
        Keeps-if (c == b'$') (Keeps-seq (assign_virtual-Keeps s val) (Keeps-pure _))
          (write-Keeps (c ∷ s) val)

    eval_operand-Keeps : (expr : CString) → Keeps Same (eval_operand ops eval expr)
    unfolding eval_operand
    eval_operand-Keeps [] = Keeps-pure _
    eval_operand-Keeps (c ∷ s) =
        Keeps-if (c == b'$') (Keeps-bind (eval_dollar-Keeps s) (λ val. Keeps-pure _)) (
          Keeps-if (c == b'&') (Keeps-bind (eval_lvalue-Keeps s) (λ (at, rest). Keeps-pure _))
            (Keeps-if (isalpha c) (eval_rvalue-Keeps (c ∷ s)) (Keeps-pure _)))

    combined-Keeps :
        (op : Operator) (l r : CString)
        → Keeps {A = ℕ × CString} Same (do
          (val1, rest) ← eval l
          (val2, _) ← eval r
          val ← combine ops op val1 val2
          pure (val, rest))
    combined-Keeps op l r = Keeps-bind (inner l) λ (val1, rest).
        Keeps-bind (inner r)
          λ (val2, _). Keeps-bind (combine-Keeps op val1 val2) λ val. Keeps-pure _

    eval_operator-Keeps :
        (op : Operator) (l r : CString) → Keeps Same (eval_operator ops eval op l r)
    unfolding eval_operator
    eval_operator-Keeps assign l r =
        Keeps-bind (inner r) λ (val, _). Keeps-bind (eval_assign-Keeps l val) λ rest. Keeps-pure _
    eval_operator-Keeps equal l r = combined-Keeps equal l r
    eval_operator-Keeps not_equal l r = combined-Keeps not_equal l r
    eval_operator-Keeps plus l r = combined-Keeps plus l r
    eval_operator-Keeps minus l r = combined-Keeps minus l r
    eval_operator-Keeps times l r = combined-Keeps times l r
    eval_operator-Keeps divide l r = combined-Keeps divide l r

    eval_body-Keeps : (expr : CString) → Keeps Same (eval_body ops eval expr)
    unfolding eval_body
    eval_body-Keeps expr =
        Keeps-option (find_operator expr) (eval_operand-Keeps expr)
          λ (op, l, r). eval_operator-Keeps op l r

  eval_fuel-Keeps : (fuel : ℕ) (expr : CString) → Keeps Same (eval_fuel ops fuel expr)
  unfolding eval_fuel
  eval_fuel-Keeps zero expr = Keeps-undefined
  eval_fuel-Keeps (suc fuel) expr = eval_body-Keeps (eval_fuel ops fuel) (eval_fuel-Keeps fuel) expr

  pub eval-Keeps : (expr : CString) → Keeps Same (eval ops expr)
  unfolding eval
  eval-Keeps expr = eval_fuel-Keeps (length expr + 1) expr
