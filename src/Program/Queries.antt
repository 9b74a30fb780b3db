-- ===== src/Program/Queries.antt =====
-- Queries whose kernels live on the shared JIT, against queries whose kernels have functions of their
-- own.
use pefa.Base.{ℕ, ◌≡◌, refl, Option, Outcome, ok, ◌>>=◌}
use pefa.Base.Exec.{Exec, lift, after}
use pefa.Arrow.{Arrow, Table}
use pefa.Kernel.Ir.{Floats}
use pefa.Jit.Interface.{Body, Llvm}
use pefa.Jit.{create_engine_builder}
use pefa.Jit.Laws.{LlvmLaws}
use pefa.Jit.Verified.{AllVerified}
use pefa.Plan.{
  Plan, source, projection_node, filter_node, materialize_filter_node, Step, on_projection,
  on_filter, on_materialize, visit_plan,
}
use pefa.Execution.Context.{ExecutionContext, new_context}
use pefa.Execution.Project
use pefa.Execution.Materialize
use pefa.Query.{QueryCompiler, optimize}
use pefa.Query as OwnQuery
use pefa.Program.Filter.{Static}
use pefa.Program.Query.{execute_step, execute_plan, execute}
use pefa.Program.Laws.{CodeLaws, IsQuiet}
use pefa.Program.Same.{Same, Same-lift, Same-bind}
use pefa.Program.Filters.{generate_filter_bitmap-Same}

module _ {Mod Layers Machine Layout : Type 0} (arrow : Arrow) (floats : Floats)
    (llvm : Llvm Mod Layers Machine Layout) (machine : Machine) (laws : LlvmLaws llvm machine)
    (code_at : Layers → ℕ → Option Body) (code_laws : CodeLaws llvm machine laws code_at)
    (verified : AllVerified llvm machine laws)
    (same_machine : machine ≡ llvm.select_target (create_engine_builder llvm)) where
  abbrev Quiet : Static Layers Machine Layout → Type 0
  Quiet = IsQuiet llvm machine laws

  execute_step-Same :
      (step : Step) (ctx : ExecutionContext) (static : Static Layers Machine Layout)
      → Quiet static
      → Same Quiet
          (OwnQuery.execute_step arrow floats step ctx)
          (execute_step arrow floats llvm code_at step ctx static)
  unfolding OwnQuery.execute_step execute_step
  execute_step-Same (on_projection fields) ctx static quiet =
      Same-lift Quiet (Project.project arrow ctx fields) static quiet
  execute_step-Same (on_filter e) ctx static quiet =
      generate_filter_bitmap-Same arrow floats llvm machine laws code_at code_laws verified
        same_machine ctx e static quiet
  execute_step-Same on_materialize ctx static quiet =
      Same-lift Quiet (Materialize.materialize_filter arrow ctx) static quiet

  -- The plan, from any start of one outcome.
  pub execute_plan-Same :
      (plan : Plan) (m : Outcome ExecutionContext)
      (start : Exec (Static Layers Machine Layout) ExecutionContext)
      (static : Static Layers Machine Layout)
      → Same Quiet m (start static)
      → Same Quiet
          (OwnQuery.execute_plan arrow floats plan m)
          (execute_plan arrow floats llvm code_at plan start static)
  unfolding OwnQuery.execute_plan execute_plan visit_plan
  execute_plan-Same source m start static same = same
  execute_plan-Same (projection_node input fields) m start static same =
      Same-bind Quiet (OwnQuery.execute_plan arrow floats input m) _ _ _
        (execute_plan-Same input m start static same)
        (λ ctx s good. execute_step-Same (on_projection fields) ctx s good)
  execute_plan-Same (filter_node input e) m start static same =
      Same-bind Quiet (OwnQuery.execute_plan arrow floats input m) _ _ _
        (execute_plan-Same input m start static same)
        (λ ctx s good. execute_step-Same (on_filter e) ctx s good)
  execute_plan-Same (materialize_filter_node input) m start static same =
      Same-bind Quiet (OwnQuery.execute_plan arrow floats input m) _ _ _
        (execute_plan-Same input m start static same)
        (λ ctx s good. execute_step-Same on_materialize ctx s good)

  run_plan-Same :
      (plan : Plan) (table : Table) (static : Static Layers Machine Layout)
      → Quiet static
      → Same Quiet
          (OwnQuery.execute_plan arrow floats (optimize plan) (new_context arrow table) >>= λ ctx.
            ok (ctx.table))
          (let r =
              execute_plan arrow floats llvm code_at
                (optimize plan)
                (lift (new_context arrow table))
                static in
            after (r.0) (λ ctx s. (ok (ctx.table), s)) (r.1))
  run_plan-Same plan table static quiet =
      Same-bind Quiet (OwnQuery.execute_plan arrow floats (optimize plan) (new_context arrow table))
        _ _ _
        (execute_plan-Same (optimize plan) (new_context arrow table)
          (lift (new_context arrow table)) static
          (Same-lift Quiet (new_context arrow table) static quiet))
        (λ ctx s good. (refl, good))

  -- From a static variable of `get_JIT` that is null, or has a valid JIT without modules, every query on
  -- every table has the outcome, a table, an exception or a fault, that it has with kernels that find
  -- the functions of their own modules; and a table or an exception leaves a static variable that is
  -- null, or has a valid JIT without modules. Modules whose
  -- predicates are well typed are verified.
  pub execute-Same :
      (query : QueryCompiler) (table : Table) (static : Static Layers Machine Layout)
      → IsQuiet llvm machine laws static
      → Same
          (IsQuiet llvm machine laws)
          (OwnQuery.execute arrow floats query table)
          (execute arrow floats llvm code_at query table static)
  execute-Same query table static quiet = of_plan (query.plan)
    where
      of_plan :
          (plan : Plan)
          → Same Quiet
              (OwnQuery.execute arrow floats (record { plan = plan }) table)
              (execute arrow floats llvm code_at (record { plan = plan }) table static)
      of_plan source = unfold OwnQuery.execute in unfold execute in (refl, tt)
      of_plan (projection_node input fields) =
          unfold OwnQuery.execute in
          unfold execute in run_plan-Same (projection_node input fields) table static quiet
      of_plan (filter_node input e) =
          unfold OwnQuery.execute in
          unfold execute in run_plan-Same (filter_node input e) table static quiet
      of_plan (materialize_filter_node input) =
          unfold OwnQuery.execute in
          unfold execute in run_plan-Same (materialize_filter_node input) table static quiet
