-- ===== src/Program/Leaks.antt =====
-- The resolvers that the kernels of a filter leave in the map of the JIT.
use pefa.Base.{
  ℕ, ◌+◌, ◌≡◌, refl, sym, arith, length, Option, none, some, Outcome, ok, throw, fault, false, true,
  inl, inr, Option-cases, Outcome-cases, Bool-cases,
}
use pefa.Base.Exec.{after}
use pefa.Arrow.{Arrow, Table, get_field_by_name}
use pefa.Expressions.{
  BooleanExpr, boolean_const, predicate_expr, compare_expr, ColumnRef, LiteralExpr, CompareOp,
  boolean_expr,
}
use pefa.Kernel.Ir.{Floats}
use pefa.Jit.Interface.{Body, Llvm}
use pefa.Jit.{Jit, new_jit, create_engine_builder, get_jit}
use pefa.Jit.Kernels.{new_kernel}
use pefa.Jit.Laws.{LlvmLaws}
use pefa.Jit.Verified.{AllVerified}
use pefa.Execution.Context.{ExecutionContext, new_context, create_columns}
use pefa.Execution.Materialize.{materialize_filter}
use pefa.Execution.Filter.{Executor, join_buffers, has_no_rows, new_executor}
use pefa.Execution.Filter as Own
use pefa.Program.Kernels.{with_kernel}
use pefa.Program.Filter.{Static, on_jit, compare_bitmap, visit, generate_filter_bitmap}
use pefa.Program.Laws.{CodeLaws, IsQuiet, get_jit-IsIdle}
use pefa.Program.Lifetime.{life-Spent}
use pefa.Program.Filters.{
  plain_body, jit_body, jit_body-plain, compare_bitmap-Same, visit-Same,
  generate_filter_bitmap-Same,
}
use pefa.Program.Same.{Same-lift, Spent, Spent-lift, Spent-bind}

-- The comparisons of a condition, each of which has a kernel.
abbrev pub comparisons : BooleanExpr → ℕ
comparisons (boolean_const b) = 0
comparisons (compare_expr lhs rhs op) = 1
comparisons (predicate_expr l r op) = comparisons l + comparisons r

-- The entries of `m_resolvers`.
abbrev pub resolvers : {Layers Machine Layout : Type 0} → Static Layers Machine Layout → ℕ
resolvers none = 0
resolvers (some jit) = length jit.resolvers

Spent-some :
    {Layers Machine Layout A : Type 0} (n : ℕ) (r : Outcome A × Jit Layers Machine Layout)
    → Spent (λ (j : Jit Layers Machine Layout). length j.resolvers) n r
    → Spent resolvers n (r.0, some (r.1))
Spent-some n (ok a, j) h = h
Spent-some n (throw e, j) h = tt
Spent-some n (fault e, j) h = tt

resolvers-get_jit :
    {Mod Layers Machine Layout : Type 0} (llvm : Llvm Mod Layers Machine Layout)
    (static : Static Layers Machine Layout)
    → length (get_jit llvm static).resolvers ≡ resolvers static
unfolding get_jit new_jit
resolvers-get_jit llvm none = refl
resolvers-get_jit llvm (some jit) = refl

module _ {Mod Layers Machine Layout : Type 0} (arrow : Arrow) (floats : Floats)
    (llvm : Llvm Mod Layers Machine Layout) (machine : Machine) (laws : LlvmLaws llvm machine)
    (code_at : Layers → ℕ → Option Body) (code_laws : CodeLaws llvm machine laws code_at)
    (verified : AllVerified llvm machine laws)
    (same_machine : machine ≡ llvm.select_target (create_engine_builder llvm)) where
  abbrev Quiet : Static Layers Machine Layout → Type 0
  Quiet = IsQuiet llvm machine laws

  compare_bitmap-Spent :
      (table : Table) (lhs : ColumnRef) (rhs : LiteralExpr) (op : CompareOp)
      (static : Static Layers Machine Layout)
      → Quiet static
      → Spent resolvers
          (resolvers static + 1)
          (compare_bitmap arrow floats llvm code_at table lhs rhs op static)
  unfolding compare_bitmap on_jit with_kernel new_kernel
  compare_bitmap-Spent table lhs rhs op static quiet =
      elim (Option-cases (get_field_by_name arrow table lhs.name)) [
        | inl missing ↦ rw missing tt
        | inr (field, found) ↦
            rw (found, sym (resolvers-get_jit llvm static))
              (Spent-some _ _ (
                life-Spent arrow floats llvm machine laws code_at code_laws verified
                  (get_jit llvm static) (get_jit-IsIdle llvm machine laws same_machine static quiet)
                  (new_kernel field (boolean_expr (compare_expr lhs rhs op)))
                  (jit_body arrow floats llvm machine laws code_at code_laws verified same_machine
                    table lhs rhs op)
                  (plain_body arrow floats llvm machine laws code_at code_laws verified same_machine
                    table lhs rhs op)
                  (jit_body-plain arrow floats llvm machine laws code_at code_laws verified
                    same_machine table lhs rhs op field)))
      ]

  visit-Spent :
      (table : Table) (e : BooleanExpr) (x : Executor) (static : Static Layers Machine Layout)
      → Quiet static
      → Spent resolvers
          (resolvers static + comparisons e)
          (visit arrow floats llvm code_at table e x static)
  unfolding visit
  visit-Spent table (boolean_const b) x static quiet = omega arith
  visit-Spent table (compare_expr lhs rhs op) x static quiet =
      Spent-bind Quiet resolvers (resolvers static + 1) _
        (Own.compare_bitmap arrow floats table lhs rhs op) _ _
        (compare_bitmap-Same arrow floats llvm machine laws code_at code_laws verified same_machine
          table lhs rhs op static quiet)
        (compare_bitmap-Spent table lhs rhs op static quiet) (λ buffer s good counted. counted)
  visit-Spent table (predicate_expr l r op) x static quiet =
      Spent-bind Quiet resolvers (resolvers static + comparisons l) _
        (Own.visit arrow floats table l x) _ _
        (visit-Same arrow floats llvm machine laws code_at code_laws verified same_machine table l x
          static quiet)
        (visit-Spent table l x static quiet)
        (λ left s good counted.
          Spent-bind Quiet resolvers (resolvers s + comparisons r) _
            (Own.visit arrow floats table r left) _ _
            (visit-Same arrow floats llvm machine laws code_at code_laws verified same_machine table
              r left s good)
            (visit-Spent table r left s good)
            (λ right t fine more.
              Spent-lift resolvers _ (join_buffers op left right) t (omega (arith, counted, more))))

  -- On a table with rows, a filter that returns leaves a resolver for each comparison.
  generate_filter_bitmap-Spent :
      (ctx : ExecutionContext) (e : BooleanExpr) (static : Static Layers Machine Layout)
      → Quiet static
      → has_no_rows ctx.table.columns ≡ false
      → Spent resolvers
          (resolvers static + comparisons e)
          (generate_filter_bitmap arrow floats llvm code_at ctx e static)
  unfolding generate_filter_bitmap
  generate_filter_bitmap-Spent ctx e static quiet full = rw full (
      Spent-bind Quiet resolvers (resolvers static + comparisons e) _
        (Own.visit arrow floats ctx.table e new_executor) _ _
        (visit-Same arrow floats llvm machine laws code_at code_laws verified same_machine ctx.table
          e new_executor static quiet)
        (visit-Spent ctx.table e new_executor static quiet)
        (λ x s good counted.
          Spent-bind Quiet resolvers (resolvers static + comparisons e) _
            (new_context arrow ctx.table) _ _ (Same-lift Quiet (new_context arrow ctx.table) s good)
            (Spent-lift resolvers _ (new_context arrow ctx.table) s counted)
            (λ res t fine more. more)))

  abbrev materialized :
      ExecutionContext
      → BooleanExpr
      → Static Layers Machine Layout
      → Outcome ExecutionContext × Static Layers Machine Layout
  materialized ctx e static =
      let r = generate_filter_bitmap arrow floats llvm code_at ctx e static in
      after (r.0) (λ c s. (materialize_filter arrow c, s)) (r.1)

  -- On a table without rows, which has no kernel, a filter's materialization does not return.
  materialized_empty :
      (ctx : ExecutionContext) (e : BooleanExpr) (static : Static Layers Machine Layout) (n : ℕ)
      → has_no_rows ctx.table.columns ≡ true
      → Spent resolvers n (materialized ctx e static)
  unfolding generate_filter_bitmap new_context materialize_filter
  materialized_empty ctx e static n empty =
      elim (Outcome-cases (create_columns arrow ctx.table.columns)) [
        | inl (ms, c) ↦ rw (empty, c) tt
        | inr (inl (x, c)) ↦ rw (empty, c) tt
        | inr (inr (x, c)) ↦ rw (empty, c) tt
      ]

  pub materialized-Spent :
      (ctx : ExecutionContext) (e : BooleanExpr) (static : Static Layers Machine Layout)
      → Quiet static
      → Spent resolvers (resolvers static + comparisons e) (materialized ctx e static)
  materialized-Spent ctx e static quiet = elim (Bool-cases (has_no_rows ctx.table.columns)) [
    | inl empty ↦ materialized_empty ctx e static _ empty
    | inr full ↦
        Spent-bind Quiet resolvers (resolvers static + comparisons e) _
          (Own.generate_filter_bitmap arrow floats ctx e) _ _
          (generate_filter_bitmap-Same arrow floats llvm machine laws code_at code_laws verified
            same_machine ctx e static quiet)
          (generate_filter_bitmap-Spent ctx e static quiet full)
          (λ c s good counted. Spent-lift resolvers _ (materialize_filter arrow c) s counted)
  ]
