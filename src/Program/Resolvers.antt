-- ===== src/Program/Resolvers.antt =====
-- The resolvers that a query leaves in the map of the JIT.
use mathlib.Core.Path.{subst}
use pefa.Base.{ℕ, ◌+◌, ◌≡◌, ◌∙◌, refl, sym, ap, arith, Option, Outcome, ok, throw, fault, ok_inj}
use pefa.Base.Exec.{Exec, lift, after}
use pefa.Arrow.{Arrow, Table}
use pefa.Expressions.{BooleanExpr, and_expr}
use pefa.Kernel.Ir.{Floats}
use pefa.Jit.Interface.{Body, Llvm}
use pefa.Jit.{create_engine_builder}
use pefa.Jit.Laws.{LlvmLaws}
use pefa.Jit.Verified.{AllVerified}
use pefa.Plan.{Plan, source, projection_node, filter_node, materialize_filter_node, visit_plan}
use pefa.Plan.Optimizer.{copy_node, join_filter, join_filter_on_visit, execute_pass}
use pefa.Plan.Joined.{IsQuery, IsJoined, optimize-IsJoined}
use pefa.Execution.Context.{ExecutionContext, new_context}
use pefa.Execution.Project
use pefa.Execution.Materialize
use pefa.Query.{QueryCompiler, optimize}
use pefa.Query as OwnQuery
use pefa.Program.Filter.{Static, generate_filter_bitmap}
use pefa.Program.Query.{execute_step, execute_plan, execute}
use pefa.Program.Laws.{CodeLaws, IsQuiet}
use pefa.Program.Queries.{execute_plan-Same, execute-Same}
use pefa.Program.Leaks.{comparisons, resolvers, materialized-Spent}
use pefa.Program.Same.{Same, Same-lift, Spent, Spent-lift, Spent-eq, Spent-bind}

-- The comparisons in the conditions of a plan.
abbrev pub plan_comparisons : Plan → ℕ
plan_comparisons source = 0
plan_comparisons (projection_node input fields) = plan_comparisons input
plan_comparisons (filter_node input e) = plan_comparisons input + comparisons e
plan_comparisons (materialize_filter_node input) = plan_comparisons input

join_filter-comparisons :
    (plan : Plan) (e : BooleanExpr)
    → plan_comparisons (join_filter plan e) ≡ plan_comparisons plan + comparisons e
unfolding join_filter and_expr
join_filter-comparisons source e = refl
join_filter-comparisons (projection_node input fields) e = refl
join_filter-comparisons (filter_node input expr) e = omega arith
join_filter-comparisons (materialize_filter_node input) e = join_filter-comparisons input e

-- The optimizer keeps every comparison.
pub optimize-comparisons : (plan : Plan) → plan_comparisons (optimize plan) ≡ plan_comparisons plan
unfolding optimize execute_pass visit_plan join_filter_on_visit copy_node
optimize-comparisons source = refl
optimize-comparisons (projection_node input fields) = optimize-comparisons input
optimize-comparisons (filter_node input e) =
    join_filter-comparisons (optimize input) e ∙ ap (◌+ comparisons e) (optimize-comparisons input)
optimize-comparisons (materialize_filter_node input) = optimize-comparisons input

after_assoc :
    {S A B C : Type 0} (r : Outcome A × S) (f : A → Exec S B) (g : B → Exec S C)
    → (let q = after (r.0) f (r.1) in after (q.0) g (q.1))
      ≡ after (r.0) (λ a s. after ((f a s).0) g ((f a s).1)) (r.1)
after_assoc (ok a, s) f g = refl
after_assoc (throw e, s) f g = refl
after_assoc (fault e, s) f g = refl

-- What an outcome without a JIT says of the run on one.
conclude :
    {S A : Type 0} (IsGood : S → Type 0) (count : S → ℕ) (n : ℕ) (m : Outcome A) (r : Outcome A × S)
    {a : A}
    → Same IsGood m r
    → Spent count n r
    → m ≡ ok a
    → (s : S) × (r ≡ (ok a, s)) × IsGood s × (count s ≡ n)
conclude {S} {A} IsGood count n (ok b) (ok a, s) h counted e =
    (s, ap (λ (x : A). (ok x, s)) (ok_inj (h.0 ∙ e)), h.1, counted)
conclude IsGood count n (ok b) (throw x, s) h counted e = cc
conclude IsGood count n (ok b) (fault x, s) h counted e = cc
conclude IsGood count n (throw x) r h counted e = cc
conclude IsGood count n (fault x) r h counted e = cc

module _ {Mod Layers Machine Layout : Type 0} (arrow : Arrow) (floats : Floats)
    (llvm : Llvm Mod Layers Machine Layout) (machine : Machine) (laws : LlvmLaws llvm machine)
    (code_at : Layers → ℕ → Option Body) (code_laws : CodeLaws llvm machine laws code_at)
    (verified : AllVerified llvm machine laws)
    (same_machine : machine ≡ llvm.select_target (create_engine_builder llvm)) (table : Table)
    (static : Static Layers Machine Layout) (quiet : IsQuiet llvm machine laws static) where
  abbrev start : Exec (Static Layers Machine Layout) ExecutionContext
  start = lift (new_context arrow table)

  plan-Same :
      (plan : Plan)
      → Same
          (IsQuiet llvm machine laws)
          (OwnQuery.execute_plan arrow floats plan (new_context arrow table))
          (execute_plan arrow floats llvm code_at plan start static)
  plan-Same plan =
      execute_plan-Same arrow floats llvm machine laws code_at code_laws verified same_machine plan
        (new_context arrow table) start static
        (Same-lift (IsQuiet llvm machine laws) (new_context arrow table) static quiet)

  abbrev RunSpent : Plan → Type 0
  RunSpent plan =
      Spent resolvers (resolvers static + plan_comparisons plan)
        (execute_plan arrow floats llvm code_at plan start static)

  -- One more step of a plan.
  step-Spent :
      {A : Type 0} (plan : Plan) (n : ℕ)
      (g : ExecutionContext → Exec (Static Layers Machine Layout) A)
      → RunSpent plan
      → ((ctx : ExecutionContext) (s : Static Layers Machine Layout)
          → IsQuiet llvm machine laws s
          → resolvers s ≡ resolvers static + plan_comparisons plan
          → Spent resolvers n (g ctx s))
      → (let r = execute_plan arrow floats llvm code_at plan start static in
          Spent resolvers n (after (r.0) g (r.1)))
  step-Spent plan n g h each =
      Spent-bind (IsQuiet llvm machine laws) resolvers (resolvers static + plan_comparisons plan) n
        (OwnQuery.execute_plan arrow floats plan (new_context arrow table)) _ g (plan-Same plan) h
        each

  execute_plan-Spent : (plan : Plan) → IsJoined plan → RunSpent plan
  unfolding execute_plan visit_plan execute_step
  execute_plan-Spent source h =
      Spent-lift resolvers _ (new_context arrow table) static (omega arith)
  execute_plan-Spent (projection_node input fields) h =
      step-Spent input _ _ (execute_plan-Spent input h)
        (λ ctx s good counted. Spent-lift resolvers _ (Project.project arrow ctx fields) s counted)
  execute_plan-Spent (filter_node input expr) h = absurd h
  execute_plan-Spent (materialize_filter_node source) h = absurd h
  execute_plan-Spent (materialize_filter_node (projection_node input fields)) h = absurd h
  execute_plan-Spent (materialize_filter_node (materialize_filter_node input)) h = absurd h
  execute_plan-Spent (materialize_filter_node (filter_node input e)) h =
      subst (Spent resolvers _)
        (sym (
          after_assoc (execute_plan arrow floats llvm code_at input start static)
            (λ ctx. generate_filter_bitmap arrow floats llvm code_at ctx e)
            (λ ctx. lift (Materialize.materialize_filter arrow ctx))))
        (step-Spent input (resolvers static + (plan_comparisons input + comparisons e)) _
          (execute_plan-Spent input h.1)
          (λ ctx s good counted.
            Spent-eq resolvers (resolvers s + comparisons e) _ _
              (materialized-Spent arrow floats llvm machine laws code_at code_laws verified
                same_machine ctx e s good)
              (omega (arith, counted))))

  optimized_run :
      (plan : Plan)
      → IsJoined (optimize plan)
      → Spent resolvers (resolvers static + plan_comparisons plan) (
          let r = execute_plan arrow floats llvm code_at (optimize plan) start static in
          after (r.0) (λ ctx s. (ok (ctx.table), s)) (r.1))
  optimized_run plan h =
      step-Spent (optimize plan) (resolvers static + plan_comparisons plan)
        (λ ctx. lift (ok (ctx.table))) (execute_plan-Spent (optimize plan) h)
        (λ ctx s good counted. counted ∙ ap (resolvers static +◌) (optimize-comparisons plan))

  execute-Spent :
      (plan : Plan)
      → IsJoined (optimize plan)
      → Spent resolvers
          (resolvers static + plan_comparisons plan)
          (execute arrow floats llvm code_at (record { plan = plan }) table static)
  execute-Spent source h = unfold execute in tt
  execute-Spent (projection_node input fields) h =
      unfold execute in optimized_run (projection_node input fields) h
  execute-Spent (filter_node input e) h = unfold execute in optimized_run (filter_node input e) h
  execute-Spent (materialize_filter_node input) h =
      unfold execute in optimized_run (materialize_filter_node input) h

  -- From a static variable of `get_JIT` that is null, or has a valid JIT without modules, and for a query
  -- that the interface can build and that returns a table with kernels of their own: it returns the
  -- table, and leaves such a variable, whose map of resolvers has grown by as many entries as the
  -- query's conditions have comparisons. Modules whose
  -- predicates are well typed are verified.
  pub execute-resolvers :
      (query : QueryCompiler)
      → IsQuery query
      → {result : Table} → OwnQuery.execute arrow floats query table ≡ ok result
      → (s : Static Layers Machine Layout) × (execute arrow floats llvm code_at query table static
          ≡ (ok result, s))
        × IsQuiet llvm machine laws s
        × (resolvers s ≡ resolvers static + plan_comparisons query.plan)
  execute-resolvers query built returns =
      conclude (IsQuiet llvm machine laws) resolvers _ (OwnQuery.execute arrow floats query table) _
        (execute-Same arrow floats llvm machine laws code_at code_laws verified same_machine query
          table static quiet)
        (execute-Spent query.plan (optimize-IsJoined query built)) returns
