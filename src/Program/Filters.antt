-- ===== src/Program/Filters.antt =====
-- Filters whose kernels live on the shared JIT, against filters whose kernels have functions of their
-- own.
use pefa.Base.{
  ℕ, ◌≡◌, refl, List, Option, some, Outcome, ok, throw, fault, Fault, ◌>>=◌, deref, replicate, inl,
  inr, Bool-cases, Option-cases,
}
use pefa.Base.Exec.{Exec, after}
use pefa.Arrow.{Arrow, Table, Field, get_field_by_name, get_column_by_name}
use pefa.Expressions.{
  BooleanExpr, boolean_const, predicate_expr, compare_expr, ColumnRef, LiteralExpr, CompareOp,
  boolean_expr,
}
use pefa.Kernel.Ir.{Floats}
use pefa.Kernel.Object.{Compiled, FilterKernel}
use pefa.Kernel.Object
use pefa.Jit.Interface.{Body, Llvm}
use pefa.Jit.{Jit, create_engine_builder, get_jit}
use pefa.Jit.Kernels.{KernelImpl, new_kernel}
use pefa.Jit.Laws.{LlvmLaws}
use pefa.Jit.Verified.{AllVerified}
use pefa.Execution.Context.{ExecutionContext, new_context}
use pefa.Execution.Filter.{Executor, filter_column, join_buffers, has_no_rows, new_executor, result}
use pefa.Execution.Filter as Own
use pefa.Program.Kernels.{kernel_methods, with_kernel}
use pefa.Program.Filter.{Static, on_jit, compare_bitmap, visit, generate_filter_bitmap}
use pefa.Program.Called.{Callable, own_kernel, kernel_methods-Object}
use pefa.Program.Laws.{CodeLaws, IsIdle, IsQuiet, get_jit-IsIdle}
use pefa.Program.Lifetime.{life-Same}
use pefa.Program.Same.{Same, Same-lift, Same-bind}

module _ {Mod Layers Machine Layout : Type 0} (arrow : Arrow) (floats : Floats)
    (llvm : Llvm Mod Layers Machine Layout) (machine : Machine) (laws : LlvmLaws llvm machine)
    (code_at : Layers → ℕ → Option Body) (code_laws : CodeLaws llvm machine laws code_at)
    (verified : AllVerified llvm machine laws)
    (same_machine : machine ≡ llvm.select_target (create_engine_builder llvm)) where
  abbrev Quiet : Static Layers Machine Layout → Type 0
  Quiet = IsQuiet llvm machine laws

  -- An outcome on the JIT, as one on the static variable.
  Same-some :
      {A : Type 0} (m : Outcome A) (r : Outcome A × Jit Layers Machine Layout)
      → Same (IsIdle llvm machine laws) m r
      → Same Quiet m (r.0, some (r.1))
  Same-some (ok a) r same = same
  Same-some (throw e) r same = same
  Same-some (fault e) r same = same

  module _ (table : Table) (lhs : ColumnRef) (rhs : LiteralExpr) (op : CompareOp) where
    abbrev pub all_set : List ℕ
    all_set = replicate (arrow.bitmap_size table.num_rows) 255

    -- What a comparison does with its kernel, without a JIT and on one.
    abbrev pub plain_body : FilterKernel → Outcome (List ℕ)
    plain_body kernel =
        deref (get_column_by_name arrow table lhs.name) Fault.null_pointer >>= λ column.
        filter_column (Object.kernel_methods arrow floats kernel) column.chunks all_set

    abbrev pub jit_body : KernelImpl → Exec (Jit Layers Machine Layout) (List ℕ)
    jit_body kernel =
        after (deref (get_column_by_name arrow table lhs.name) Fault.null_pointer) λ column jit. (
          filter_column (kernel_methods arrow floats (code_at jit.layers) kernel) column.chunks
              all_set,
          jit,
        )

    pub jit_body-plain :
        (field : Field) (code : Compiled) (k : KernelImpl) (j : Jit Layers Machine Layout)
        → Callable arrow floats (code_at j.layers) k code
        → jit_body k j
          ≡ (plain_body (own_kernel field (boolean_expr (compare_expr lhs rhs op)) code), j)
    jit_body-plain field code k j callable =
        elim (Option-cases (get_column_by_name arrow table lhs.name)) [
          | inl missing ↦ rw missing refl
          | inr (column, found) ↦
              rw
                (
                  found,
                  kernel_methods-Object arrow floats (code_at j.layers) k code field
                      (boolean_expr (compare_expr lhs rhs op)) callable,
                )
                refl
        ]

    pub compare_bitmap-Same :
        (static : Static Layers Machine Layout)
        → Quiet static
        → Same Quiet
            (Own.compare_bitmap arrow floats table lhs rhs op)
            (compare_bitmap arrow floats llvm code_at table lhs rhs op static)
    unfolding Own.compare_bitmap compare_bitmap on_jit with_kernel new_kernel
    compare_bitmap-Same static quiet =
        Same-bind Quiet (deref (get_field_by_name arrow table lhs.name) Fault.null_pointer) _ _ _
          (Same-lift Quiet (deref (get_field_by_name arrow table lhs.name) Fault.null_pointer)
            static quiet)
          (λ field s good. Same-some _ _ (
            life-Same arrow floats llvm machine laws code_at code_laws verified (get_jit llvm s)
              (get_jit-IsIdle llvm machine laws same_machine s good)
              (new_kernel field (boolean_expr (compare_expr lhs rhs op))) jit_body plain_body
              (jit_body-plain field)))

  pub visit-Same :
      (table : Table) (e : BooleanExpr) (x : Executor) (static : Static Layers Machine Layout)
      → Quiet static
      → Same Quiet
          (Own.visit arrow floats table e x)
          (visit arrow floats llvm code_at table e x static)
  unfolding Own.visit visit
  visit-Same table (boolean_const b) x static quiet = (refl, quiet)
  visit-Same table (compare_expr lhs rhs op) x static quiet =
      Same-bind Quiet (Own.compare_bitmap arrow floats table lhs rhs op) _ _ _
        (compare_bitmap-Same table lhs rhs op static quiet) (λ buffer s good. (refl, good))
  visit-Same table (predicate_expr l r op) x static quiet =
      Same-bind Quiet (Own.visit arrow floats table l x) _ _ _ (visit-Same table l x static quiet)
        (λ left s good.
          Same-bind Quiet (Own.visit arrow floats table r left) _ _ _
            (visit-Same table r left s good)
            (λ right t fine. Same-lift Quiet (join_buffers op left right) t fine))

  -- Each filter, from a static variable that is null or has a valid JIT without modules, has the outcome
  -- that it has with kernels of their own, and leaves such a variable.
  pub generate_filter_bitmap-Same :
      (ctx : ExecutionContext) (e : BooleanExpr) (static : Static Layers Machine Layout)
      → Quiet static
      → Same Quiet
          (Own.generate_filter_bitmap arrow floats ctx e)
          (generate_filter_bitmap arrow floats llvm code_at ctx e static)
  unfolding Own.generate_filter_bitmap generate_filter_bitmap
  generate_filter_bitmap-Same ctx e static quiet =
      elim (Bool-cases (has_no_rows ctx.table.columns)) [
        | inl empty ↦ rw empty (Same-lift Quiet (new_context arrow ctx.table) static quiet)
        | inr full ↦ rw full (
            Same-bind Quiet (Own.visit arrow floats ctx.table e new_executor) _ _ _
              (visit-Same ctx.table e new_executor static quiet)
              (λ x s good.
                Same-bind Quiet (new_context arrow ctx.table) _ _ _
                  (Same-lift Quiet (new_context arrow ctx.table) s good)
                  (λ res t fine. (refl, fine))))
      ]
