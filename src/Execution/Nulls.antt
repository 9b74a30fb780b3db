-- ===== src/Execution/Nulls.antt =====
-- Filters that leave no bitmap, on which `materialize_filter` throws.
use pefa.Base.{◌≡◌, Bool, true, false, throw, unreachable, ◌>>=◌, refl}
use pefa.Arrow.{Arrow, Table}
use pefa.Expressions.{BooleanExpr, boolean_const}
use pefa.Kernel.Ir.{Floats}
use pefa.Execution.Context.{ExecutionContext}
use pefa.Execution.Filter.{generate_filter_bitmap, has_no_rows, new_executor, result, visit}
use pefa.Execution.Materialize.{materialize_filter}
use pefa.Execution.Metadata.{AllMaterialized, new_context-AllMaterialized}

-- The code has no rows to read, or only a constant to go by.
pub data LeavesNoBitmap (table : Table) : BooleanExpr → Type 0 where
  no_rows : (e : BooleanExpr) → has_no_rows table.columns ≡ true → LeavesNoBitmap table e
  only_constant :
      (b : Bool) → has_no_rows table.columns ≡ false → LeavesNoBitmap table (boolean_const b)

-- On a table whose columns all have types that can be materialized, and for any condition if the
-- first column has no chunk or there is no column, or for a condition that is a constant: the
-- filter's materialization throws the exception of an unreachable branch.
pub filter_throws :
    (arrow : Arrow) (floats : Floats) (ctx : ExecutionContext) (e : BooleanExpr)
    → AllMaterialized ctx.table.columns
    → LeavesNoBitmap ctx.table e
    → (generate_filter_bitmap arrow floats ctx e >>= materialize_filter arrow) ≡ throw unreachable
unfolding generate_filter_bitmap materialize_filter visit result new_executor
filter_throws arrow floats ctx e typed (no_rows _ empty) =
    let (ms, made) = new_context-AllMaterialized arrow ctx.table typed in rw (empty, made) refl
filter_throws arrow floats ctx e typed (only_constant b full) =
    let (ms, made) = new_context-AllMaterialized arrow ctx.table typed in rw (full, made) refl
