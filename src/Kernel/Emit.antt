-- ===== src/Kernel/Emit.antt =====
-- `IrEmitVisitor` and `gen_predicate_func` of pefa/kernels/filter.cpp: the predicate function that
-- is emitted for an expression over one column.
use text.Mathlib.Text.{◌==◌ as str_eq}
use pefa.Base.{if◌then◌else◌, Option, none, some, Outcome, ok, fault, Fault, ◌>>=◌, deref}
use pefa.Arrow.{Arrow, Field}
use pefa.Expressions.{
  BooleanExpr, boolean_const, predicate_expr, compare_expr, ColumnRef, LiteralExpr, CompareOp,
  PredicateOp, and, or, Expr, boolean_expr, column_ref, literal_expr,
}
use pefa.Kernel.Ir.{
  Value, input, and_value, or_value, Floats, from_arrow, create_cmp_op, const_from_variant,
}

-- The members that the visitor changes; `result` is null at first.
pub record Visitor : Type 0 where
  pub result : Option Value
  pub last_op : PredicateOp

unfoldable pub new_visitor : Visitor
new_visitor = record { result = none; last_op = and }

-- `CreateOr` and `CreateAnd`
unfoldable pub create_op : PredicateOp → Value → Value → Value
create_op or lhs rhs = or_value lhs rhs
create_op and lhs rhs = and_value lhs rhs

module _ (arrow : Arrow) (floats : Floats) (field : Field) (input_value : Value) where
  unfoldable pub emit_compare : ColumnRef → LiteralExpr → CompareOp → Visitor → Outcome Visitor
  unfolding const_from_variant create_cmp_op
  emit_compare lhs rhs op v =
      if str_eq lhs.name field.name
      then (do
        constant ← const_from_variant floats field.type rhs.value
        value ← create_cmp_op arrow op field.type input_value constant
        ok (record v { result = some value }))
      else fault Fault.assert_failed

  -- `visit` of a constant is that of the base class, which does nothing.
  unfoldable pub emit : BooleanExpr → Visitor → Outcome Visitor
  unfolding emit_compare create_op
  emit (boolean_const b) v = ok v
  emit (predicate_expr l r op) v = do
    after_lhs ← emit l (record v { last_op = op })
    after_rhs ← emit r (record after_lhs { last_op = op })
    lhs ← deref after_lhs.result Fault.null_pointer
    rhs ← deref after_rhs.result Fault.null_pointer
    ok (record after_rhs { result = some (create_op op lhs rhs) })
  emit (compare_expr lhs rhs op) v = emit_compare lhs rhs op v

  unfoldable pub emit_expr : Expr → Visitor → Outcome Visitor
  unfolding emit
  emit_expr (boolean_expr e) v = emit e v
  emit_expr (column_ref c) v = ok v
  emit_expr (literal_expr l) v = ok v

-- What the emitted function returns: the visitor's result, or nothing where that is null, since
-- `CreateRet(nullptr)` is `ret void`.
unfoldable pub gen_predicate_func : Arrow → Floats → Field → Expr → Outcome (Option Value)
unfolding from_arrow emit_expr new_visitor
gen_predicate_func arrow floats field expr = do
  type ← from_arrow arrow field.type
  v ← emit_expr arrow floats field (input type) expr new_visitor
  ok v.result
