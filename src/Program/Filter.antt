-- ===== src/Program/Filter.antt =====
-- `FilterExprExecutor` and `generate_filter_bitmap` of pefa/execution/execution.cpp, with the JIT
-- that its kernels get.
use pefa.Base.{
  List, [], ◌∷◌, ◌++◌, length, replicate, if◌then◌else◌, Option, some, ok, Fault, deref, ℕ,
}
use pefa.Base.Exec.{Exec, lift, ◌>>=◌}
use pefa.Arrow.{Arrow, Table, get_field_by_name, get_column_by_name}
use pefa.Expressions.{
  BooleanExpr, boolean_const, predicate_expr, compare_expr, ColumnRef, LiteralExpr, CompareOp,
  boolean_expr,
}
use pefa.Kernel.Ir.{Floats}
use pefa.Jit.Interface.{Body, Llvm}
use pefa.Jit.{Jit, get_jit}
use pefa.Execution.Context.{ExecutionContext, new_context}
use pefa.Execution.Filter.{Executor, new_executor, filter_column, join_buffers, result, has_no_rows}
use pefa.Program.Kernels.{kernel_methods, with_kernel}

-- The static variable of `get_JIT`, which is null at first.
abbrev pub Static : Type 0 → Type 0 → Type 0 → Type 0
Static Layers Machine Layout = Option (Jit Layers Machine Layout)

-- Code that works on the JIT which `get_JIT` returns.
unfoldable pub on_jit :
    {Mod Layers Machine Layout A : Type 0}
    → Llvm Mod Layers Machine Layout
    → Exec (Jit Layers Machine Layout) A
    → Exec (Static Layers Machine Layout) A
unfolding get_jit
on_jit llvm body static = let (r, jit) = body (get_jit llvm static) in (r, some jit)

module _ (arrow : Arrow) (floats : Floats) {Mod Layers Machine Layout : Type 0}
    (llvm : Llvm Mod Layers Machine Layout) (code_at : Layers → ℕ → Option Body) where
  unfoldable pub compare_bitmap :
      Table → ColumnRef → LiteralExpr → CompareOp → Exec (Static Layers Machine Layout) (List ℕ)
  unfolding get_field_by_name get_column_by_name filter_column with_kernel on_jit
  compare_bitmap table lhs rhs op = do
    let buffer = replicate (arrow.bitmap_size table.num_rows) 255
    field ← lift (deref (get_field_by_name arrow table lhs.name) Fault.null_pointer)
    on_jit llvm (
        with_kernel arrow floats llvm field (boolean_expr (compare_expr lhs rhs op)) λ kernel. do
          column ← lift (deref (get_column_by_name arrow table lhs.name) Fault.null_pointer)
          λ jit. (
            filter_column (kernel_methods arrow floats (code_at jit.layers) kernel) column.chunks
                buffer,
            jit,
          ))

  unfoldable pub visit :
      Table → BooleanExpr → Executor → Exec (Static Layers Machine Layout) Executor
  unfolding compare_bitmap join_buffers
  visit table (boolean_const b) s = lift (ok s)
  visit table (compare_expr lhs rhs op) s = do
    buffer ← compare_bitmap table lhs rhs op
    lift (ok (record { heap = s.heap ++ buffer ∷ []; buffer = some (length s.heap) }))
  visit table (predicate_expr l r op) s = do
    after_lhs ← visit table l s
    after_rhs ← visit table r after_lhs
    lift (join_buffers op after_lhs after_rhs)

  unfoldable pub generate_filter_bitmap :
      ExecutionContext → BooleanExpr → Exec (Static Layers Machine Layout) ExecutionContext
  unfolding has_no_rows new_executor visit result new_context
  generate_filter_bitmap ctx expr =
      if has_no_rows ctx.table.columns then lift (new_context arrow ctx.table) else (do
        executor ← visit ctx.table expr new_executor
        res ← lift (new_context arrow ctx.table)
        lift (
            ok (record res {
              metadata = record (res.metadata) { filter_bitmap = result executor };
            })))
