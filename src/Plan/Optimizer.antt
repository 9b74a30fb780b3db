-- ===== src/Plan/Optimizer.antt =====
-- pefa/query_compiler/lp_optimizer: the passes over a plan. A pass builds a new plan in its
-- `m_result`; the nodes that `JoinFilterPass` changes in place are its own.
use pefa.Base.{List, [], ◌∷◌, ◌++◌}
use pefa.Expressions.{BooleanExpr, and_expr}
use pefa.Plan.{
  Plan, source, projection_node, filter_node, materialize_filter_node, Step, on_projection,
  on_filter, on_materialize, visit_plan,
}

-- `OptimizerPass::on_visit`
unfoldable pub copy_node : Step → Plan → Plan
copy_node (on_projection fields) result = projection_node result fields
copy_node (on_filter expr) result = filter_node result expr
copy_node on_materialize result = materialize_filter_node result

-- `JoinFilterPass::on_visit(const FilterNode &)`
unfoldable pub join_filter : Plan → BooleanExpr → Plan
unfolding and_expr
join_filter (filter_node input expr) e = filter_node input (and_expr expr e)
join_filter (materialize_filter_node input) e = join_filter input e
join_filter source e = filter_node source e
join_filter (projection_node input fields) e = filter_node (projection_node input fields) e

unfoldable pub join_filter_on_visit : Step → Plan → Plan
unfolding join_filter copy_node
join_filter_on_visit (on_filter expr) result = join_filter result expr
join_filter_on_visit (on_projection fields) result = copy_node (on_projection fields) result
join_filter_on_visit on_materialize result = copy_node on_materialize result

-- A pass is its `on_visit`.
abbrev OptimizerPass : Type 0
OptimizerPass = Step → Plan → Plan

-- `OptimizerPass::execute`, with a null `m_result` at first.
unfoldable pub execute_pass : OptimizerPass → Plan → Plan
unfolding visit_plan
execute_pass pass input = visit_plan pass input source

-- `JoinFilterPass::create`
unfoldable pub create_join_filter_pass : OptimizerPass
unfolding join_filter_on_visit
create_join_filter_pass = join_filter_on_visit

-- `PlanOptimizer`, by its `m_passes`.
abbrev PlanOptimizer : Type 0
PlanOptimizer = List OptimizerPass

unfoldable pub add_pass : PlanOptimizer → OptimizerPass → PlanOptimizer
add_pass passes pass = passes ++ pass ∷ []

-- `PlanOptimizer::run`
unfoldable pub run : PlanOptimizer → Plan → Plan
unfolding execute_pass
run [] input = input
run (pass ∷ passes) input = run passes (execute_pass pass input)
