-- ===== src/Program/Query.antt =====
-- `QueryCompiler::execute` of pefa/query_compiler/query_compiler.cpp, with the JIT of its filters.
use pefa.Base.{ok, fault, Fault, ℕ, Option}
use pefa.Base.Exec.{Exec, lift, ◌>>=◌}
use pefa.Arrow.{Arrow, Table}
use pefa.Kernel.Ir.{Floats}
use pefa.Jit.Interface.{Body, Llvm}
use pefa.Plan.{Plan, source, Step, on_projection, on_filter, on_materialize, visit_plan}
use pefa.Execution.Context.{ExecutionContext, new_context}
use pefa.Execution.Project
use pefa.Execution.Materialize
use pefa.Query.{QueryCompiler, optimize}
use pefa.Program.Filter.{Static, generate_filter_bitmap}

module _ (arrow : Arrow) (floats : Floats) {Mod Layers Machine Layout : Type 0}
    (llvm : Llvm Mod Layers Machine Layout) (code_at : Layers → ℕ → Option Body) where
  unfoldable pub execute_step :
      Step → ExecutionContext → Exec (Static Layers Machine Layout) ExecutionContext
  unfolding generate_filter_bitmap
  execute_step (on_projection fields) ctx = lift (Project.project arrow ctx fields)
  execute_step (on_filter expr) ctx = generate_filter_bitmap arrow floats llvm code_at ctx expr
  execute_step on_materialize ctx = lift (Materialize.materialize_filter arrow ctx)

  unfoldable pub execute_plan :
      Plan
      → Exec (Static Layers Machine Layout) ExecutionContext
      → Exec (Static Layers Machine Layout) ExecutionContext
  unfolding execute_step visit_plan
  execute_plan plan ctx = visit_plan (λ step m. m >>= execute_step step) plan ctx

  unfoldable pub execute : QueryCompiler → Table → Exec (Static Layers Machine Layout) Table
  unfolding optimize execute_plan new_context
  execute query table = elim (query.plan) [
    | source ↦ lift (fault Fault.null_pointer)
    | plan ↦ do
      ctx ← execute_plan (optimize plan) (lift (new_context arrow table))
      lift (ok (ctx.table))
  ]
