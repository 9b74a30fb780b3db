-- ===== src/Query.antt =====
-- pefa/query_compiler/query_compiler.h and query_compiler.cpp: queries are built as plans, which
-- are optimized and carried out on a table.
pub mod Filters
pub mod Projections
pub mod Refines
use pefa.Base.{List, [], String, Outcome, ok, fault, Fault, ◌>>=◌}
use pefa.Arrow.{Arrow, Table}
use pefa.Expressions.{BooleanExpr}
use pefa.Kernel.Ir.{Floats}
use pefa.Plan.{
  Plan, source, projection_node, filter_node, materialize_filter_node, Step, on_projection,
  on_filter, on_materialize, visit_plan,
}
use pefa.Plan.Optimizer.{add_pass, run, create_join_filter_pass}
use pefa.Execution.Context.{ExecutionContext, new_context}
use pefa.Execution.Project
use pefa.Execution.Filter
use pefa.Execution.Materialize

pub record QueryCompiler : Type 0 where
  pub plan : Plan

unfoldable pub new_query : QueryCompiler
new_query = record { plan = source }

unfoldable pub from_plan : Plan → QueryCompiler
from_plan plan = record { plan = plan }

unfoldable pub project : QueryCompiler → List String → QueryCompiler
unfolding from_plan
project query columns = from_plan (projection_node query.plan columns)

unfoldable pub filter : QueryCompiler → BooleanExpr → QueryCompiler
unfolding from_plan
filter query expr = from_plan (materialize_filter_node (filter_node query.plan expr))

-- The optimizer of `QueryCompiler::execute`.
unfoldable pub optimize : Plan → Plan
unfolding run add_pass create_join_filter_pass
optimize plan = run (add_pass [] create_join_filter_pass) plan

module _ (arrow : Arrow) (floats : Floats) where
  -- `ExecutePlanVisitor::on_visit`
  unfoldable pub execute_step : Step → ExecutionContext → Outcome ExecutionContext
  execute_step (on_projection fields) ctx = Project.project arrow ctx fields
  execute_step (on_filter expr) ctx = Filter.generate_filter_bitmap arrow floats ctx expr
  execute_step on_materialize ctx = Materialize.materialize_filter arrow ctx

  -- A step is taken where none before it has thrown.
  unfoldable pub execute_plan : Plan → Outcome ExecutionContext → Outcome ExecutionContext
  unfolding execute_step visit_plan
  execute_plan plan ctx = visit_plan (λ step m. m >>= execute_step step) plan ctx

  -- The optimizer and the visitor call the plan, which is null for a query with no step.
  unfoldable pub execute : QueryCompiler → Table → Outcome Table
  unfolding optimize execute_plan new_context
  execute query table = elim (query.plan) [
    | source ↦ fault Fault.null_pointer
    | plan ↦ do ctx ← execute_plan (optimize plan) (new_context arrow table); ok (ctx.table)
  ]
