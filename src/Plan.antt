-- ===== src/Plan.antt =====
-- pefa/query_compiler/logical_plan.h and logical_plan.cpp: the plan of a query. A node's `input` is
-- null at the end of the plan, which is the constructor `source` here.
pub mod Optimizer
pub mod Meaning
pub mod Joined
use pefa.Base.{List, [], ◌∷◌, ◌++◌, String, ◌≡◌, refl, ◌∙◌}
use pefa.Expressions.{BooleanExpr}

pub data Plan : Type 0 where
  source : Plan
  projection_node : Plan → List String → Plan
  filter_node : Plan → BooleanExpr → Plan
  materialize_filter_node : Plan → Plan

-- What `on_visit` is called with, without the node's input.
pub data Step : Type 0 where
  on_projection : List String → Step
  on_filter : BooleanExpr → Step
  on_materialize : Step

-- `PlanVisitor::visit` calls `on_visit` behind the visit of the input, if there is one: `f` is
-- `on_visit`, and the state goes through the nodes from the source on.
unfoldable pub visit_plan {ℓ} : {S : Type ℓ} → (Step → S → S) → Plan → S → S
visit_plan f source s = s
visit_plan f (projection_node input fields) s = f (on_projection fields) (visit_plan f input s)
visit_plan f (filter_node input expr) s = f (on_filter expr) (visit_plan f input s)
visit_plan f (materialize_filter_node input) s = f on_materialize (visit_plan f input s)
