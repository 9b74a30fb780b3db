-- ===== src/Kernel/Wraps.antt =====
-- Comparisons of a column of integers with any integer, also one that the column's type has not.
use text.Mathlib.Text.{◌==◌ as str_eq}
use pefa.Base.{ℕ, ◌^◌, ◌<◌, ◌≡◌, arith, true, some, ok}
use pefa.Base.Int.{ℤ}
use pefa.Arrow.{TypeId, Arrow, Field}
use pefa.Expressions.{int_lit, ColumnRef, LiteralExpr, CompareOp, compare_expr, boolean_expr}
use pefa.Expressions.Meaning.{compare_int}
use pefa.Kernel.Ir.{Ty, Floats, truncate, int_width, bit, eval}
use pefa.Kernel.Literals.{IntKind, to_int, IsWidth-Halves, truncate-lt, eval_int-predicate_of}
use pefa.Kernel.Integers.{IsIntegral, integral-IsWidth, compare_code, compile-compare}
use pefa.Kernel.Object.{Compiled, create_cpu, compile, run_predicate}

module _ (arrow : Arrow) (floats : Floats) where
  run_predicate-wraps :
      {type : TypeId} {k : IntKind} {ty : Ty} (op : CompareOp) (v : ℤ) (x : ℕ)
      → IsIntegral type k ty
      → x < 2 ^ int_width ty
      → run_predicate arrow floats (compare_code k ty op v) x
        ≡ compare_int op
            (to_int k (int_width ty) x)
            (to_int k (int_width ty) (truncate (int_width ty) v))
  unfolding run_predicate eval bit
  run_predicate-wraps {k} {ty} op v x integral small =
      let (half, h) = IsWidth-Halves (int_width ty) (integral-IsWidth integral) in
      rw
        (eval_int-predicate_of (int_width ty) half h k op x (truncate (int_width ty) v)
          (rw h.power at small) (truncate-lt (int_width ty) half h v))
        (ground arith)

  -- A comparison of the field's column of integers with any integer compiles, without an exception,
  -- and the emitted predicate compares with the integer that the literal's low bits stand for in
  -- the column's type.
  pub compile-wraps :
      (field : Field) (lhs : ColumnRef) (rhs : LiteralExpr) (op : CompareOp) (v : ℤ) {k : IntKind}
      {ty : Ty}
      → IsIntegral field.type k ty
      → str_eq lhs.name field.name ≡ true
      → rhs.value ≡ int_lit v
      → (code : Compiled) × (compile arrow floats
            (create_cpu field (boolean_expr (compare_expr lhs rhs op)))
          ≡ ok (record {
            field = field;
            expr = boolean_expr (compare_expr lhs rhs op);
            code = some code;
          }))
        × ((x : ℕ)
            → x < 2 ^ int_width ty
            → run_predicate arrow floats code x
              ≡ compare_int op
                  (to_int k (int_width ty) x)
                  (to_int k (int_width ty) (truncate (int_width ty) v)))
  compile-wraps field lhs rhs op v {k} {ty} integral same literal = (
    compare_code k ty op v,
    compile-compare arrow floats field lhs rhs op v integral same literal,
    λ x small. run_predicate-wraps op v x integral small,
  )
