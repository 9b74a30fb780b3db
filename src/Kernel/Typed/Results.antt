-- ===== src/Kernel/Typed/Results.antt =====
-- The types of the values that `IrEmitVisitor` leaves, pefa/kernels/filter.cpp.
use text.Mathlib.Text.{◌==◌ as str_eq}
use pefa.Base.{
  Bool, true, false, ◌≡◌, refl, inl, inr, Option, none, some, ok, Fault, deref, Bool-cases,
}
use pefa.Arrow.{Arrow, Field}
use pefa.Expressions.{
  CompareOp, BooleanExpr, boolean_const, predicate_expr, compare_expr, PredicateOp, and, or, Expr,
  boolean_expr, column_ref, literal_expr, ColumnRef, LiteralExpr,
}
use pefa.Kernel.Ir.{Ty, Value, input, Floats, from_arrow, create_cmp_op, const_from_variant}
use pefa.Kernel.Emit.{
  Visitor, new_visitor, create_op, emit_compare, emit, emit_expr, gen_predicate_func,
}
use pefa.Kernel.Typed.{
  element, truth, HasType, and_typed, or_typed, Yields, Yields-bind, Emits, ForType-ok,
}
use pefa.Kernel.Typed.Operands.{const-Emits, create_cmp_op-Emits}

-- The expressions whose visit leaves the visitor without a result.
abbrev pub leaves_nothing : Expr → Bool
leaves_nothing (boolean_expr (boolean_const b)) = true
leaves_nothing (boolean_expr (compare_expr lhs rhs op)) = false
leaves_nothing (boolean_expr (predicate_expr l r op)) = false
leaves_nothing (column_ref c) = true
leaves_nothing (literal_expr l) = true

-- What a function may return that is emitted for an expression, with an argument of type `t`.
abbrev pub Returns : Ty → Expr → Option Value → Type 0
Returns t e none = leaves_nothing e ≡ true
Returns t e (some v) = (leaves_nothing e ≡ false) × HasType t v truth

module _ (arrow : Arrow) (floats : Floats) where
  module _ (field : Field) (t : Ty) (known : from_arrow arrow field.type ≡ ok t) where
    abbrev HasResult : Option Value → Type 0
    HasResult none = Unit {0}
    HasResult (some v) = HasType t v truth

    emit_compare-Yields :
        (Q : Option Value → Type 0)
        → ((x : Value) → HasType t x truth → Q (some x))
        → (lhs : ColumnRef) (rhs : LiteralExpr) (op : CompareOp) (v : Visitor)
        → Yields (λ x. Q x.result) (emit_compare arrow floats field (input t) lhs rhs op v)
    unfolding emit_compare
    emit_compare-Yields Q good lhs rhs op v = elim (Bool-cases (str_eq lhs.name field.name)) [
      | inr other ↦ rw other (inr refl)
      | inl same ↦ rw same (
          Yields-bind (λ c. HasType t c (element t)) _
            (const_from_variant floats field.type rhs.value) _
            (ForType-ok _ _ t (const-Emits arrow floats field.type rhs.value) known)
            (λ c typed.
              Yields-bind (λ x. HasType t x truth) _ (create_cmp_op arrow op field.type (input t) c)
                _ (ForType-ok _ _ t (create_cmp_op-Emits arrow op field.type) known c typed) good))
    ]

    create_op-HasType :
        (op : PredicateOp) {a b : Value}
        → HasType t a truth
        → HasType t b truth
        → HasType t (create_op op a b) truth
    unfolding create_op
    create_op-HasType and p q = and_typed p q
    create_op-HasType or p q = or_typed p q

    deref-Emits : (r : Option Value) → HasResult r → Emits t truth (deref r Fault.null_pointer)
    deref-Emits none h = inl refl
    deref-Emits (some v) h = h

    -- What holds of every value of type i1, and of the result of before where the expression is a
    -- constant, holds of the result.
    emit-Yields :
        (Q : Option Value → Type 0)
        → ((x : Value) → HasType t x truth → Q (some x))
        → (e : BooleanExpr) (v : Visitor) → HasResult v.result
        → (leaves_nothing (boolean_expr e) ≡ true → Q v.result)
        → Yields (λ x. Q x.result) (emit arrow floats field (input t) e v)
    unfolding emit
    emit-Yields Q good (boolean_const b) v h kept = kept refl
    emit-Yields Q good (compare_expr lhs rhs op) v h kept = emit_compare-Yields Q good lhs rhs op v
    emit-Yields Q good (predicate_expr l r op) v h kept =
        Yields-bind (λ x. HasResult x.result) _
          (emit arrow floats field (input t) l (record v { last_op = op })) _
          (emit-Yields HasResult (λ x k. k) l (record v { last_op = op }) h (λ c. h))
          (λ left hl.
            Yields-bind (λ x. HasResult x.result) _
              (emit arrow floats field (input t) r (record left { last_op = op })) _
              (emit-Yields HasResult (λ x k. k) r (record left { last_op = op }) hl (λ c. hl))
              (λ right hr.
                Yields-bind (λ x. HasType t x truth) _ (deref left.result Fault.null_pointer) _
                  (deref-Emits left.result hl)
                  (λ a ha.
                    Yields-bind (λ x. HasType t x truth) _ (deref right.result Fault.null_pointer) _
                      (deref-Emits right.result hr)
                      (λ b hb. good (create_op op a b) (create_op-HasType op ha hb)))))

    condition-Returns :
        (e : BooleanExpr)
        → leaves_nothing (boolean_expr e) ≡ false
        → Yields
            (λ x. Returns t (boolean_expr e) x.result)
            (emit arrow floats field (input t) e new_visitor)
    unfolding new_visitor
    condition-Returns e joins =
        emit-Yields (Returns t (boolean_expr e)) (λ x typed. (joins, typed)) e new_visitor tt
          (λ c. c)

    -- For a field of a type that a type of LLVM stands for, gen_predicate_func emits a
    -- function with an argument of that type, which returns nothing for exactly the
    -- constants, the column references and the literals, and for every other expression a
    -- value of type i1 by the typing rules of the instructions; or it throws the exception
    -- for a literal of another kind, or a null pointer or the assertion on the name of the
    -- column stops it.
    pub gen_predicate_func-HasType :
        (e : Expr) → Yields (Returns t e) (gen_predicate_func arrow floats field e)
    unfolding gen_predicate_func emit_expr new_visitor emit
    gen_predicate_func-HasType (boolean_expr (boolean_const b)) = rw known refl
    gen_predicate_func-HasType (boolean_expr (compare_expr lhs rhs op)) = rw known (
        Yields-bind (λ x. Returns t (boolean_expr (compare_expr lhs rhs op)) x.result) _
          (emit arrow floats field (input t) (compare_expr lhs rhs op) new_visitor) _
          (condition-Returns (compare_expr lhs rhs op) refl) (λ v h. h))
    gen_predicate_func-HasType (boolean_expr (predicate_expr l r op)) = rw known (
        Yields-bind (λ x. Returns t (boolean_expr (predicate_expr l r op)) x.result) _
          (emit arrow floats field (input t) (predicate_expr l r op) new_visitor) _
          (condition-Returns (predicate_expr l r op) refl) (λ v h. h))
    gen_predicate_func-HasType (column_ref c) = rw known refl
    gen_predicate_func-HasType (literal_expr l) = rw known refl
