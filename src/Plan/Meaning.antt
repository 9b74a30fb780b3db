-- ===== src/Plan/Meaning.antt =====
-- What a plan means: what it makes of a list of rows. The optimizer keeps it.
use pefa.Base.{List, String, Bool, ◌≡◌, refl, sym, ◌∙◌, ap, map}
use pefa.Expressions.{BooleanExpr, ColumnRef, Literal, CompareOp, and_expr}
use pefa.Expressions.Meaning.{holds, connect}
use pefa.Plan.{
  Plan, source, projection_node, filter_node, materialize_filter_node, Step, on_projection,
  on_filter, on_materialize, visit_plan,
}
use pefa.Plan.Optimizer.{copy_node, join_filter, join_filter_on_visit, execute_pass}
use pefa.Query.{optimize}
use pefa.Relation.Lists.{keep, keep-keep}

-- The rows of a table are of any type, with a meaning for comparisons and a projection.
module _ {A : Type 0} (atom : A → ColumnRef → Literal → CompareOp → Bool)
    (restrict : List String → A → A) where
  -- A filter drops the rows at which it is false, and its materialization changes no row.
  unfoldable pub denote_step : Step → List A → List A
  unfolding keep
  denote_step (on_projection fields) rows = map (restrict fields) rows
  denote_step (on_filter e) rows = keep (λ (x : A). holds (atom x) e) rows
  denote_step on_materialize rows = rows

  unfoldable pub denote : Plan → List A → List A
  unfolding visit_plan denote_step
  denote plan rows = visit_plan denote_step plan rows

  join_filter-denote :
      (result : Plan) (e : BooleanExpr) (rows : List A)
      → denote (join_filter result e) rows ≡ denote_step (on_filter e) (denote result rows)
  unfolding denote join_filter and_expr holds connect
  join_filter-denote source e rows = refl
  join_filter-denote (projection_node input fields) e rows = refl
  join_filter-denote (materialize_filter_node input) e rows = join_filter-denote input e rows
  join_filter-denote (filter_node input expr) e rows =
      sym (
        keep-keep (λ (x : A). holds (atom x) expr) (λ (x : A). holds (atom x) e)
          (denote input rows))

  on_visit-denote :
      (step : Step) (result : Plan) (rows : List A)
      → denote (join_filter_on_visit step result) rows ≡ denote_step step (denote result rows)
  unfolding denote join_filter_on_visit copy_node
  on_visit-denote (on_filter e) result rows = join_filter-denote result e rows
  on_visit-denote (on_projection fields) result rows = refl
  on_visit-denote on_materialize result rows = refl

  execute_pass-denote :
      (plan : Plan) (rows : List A)
      → denote (execute_pass join_filter_on_visit plan) rows ≡ denote plan rows
  unfolding execute_pass denote
  execute_pass-denote source rows = refl
  execute_pass-denote (projection_node input fields) rows =
      on_visit-denote (on_projection fields) (execute_pass join_filter_on_visit input) rows
      ∙ ap (denote_step (on_projection fields)) (execute_pass-denote input rows)
  execute_pass-denote (filter_node input e) rows =
      on_visit-denote (on_filter e) (execute_pass join_filter_on_visit input) rows
      ∙ ap (denote_step (on_filter e)) (execute_pass-denote input rows)
  execute_pass-denote (materialize_filter_node input) rows =
      on_visit-denote on_materialize (execute_pass join_filter_on_visit input) rows
      ∙ ap (denote_step on_materialize) (execute_pass-denote input rows)

  -- The optimized plan makes of every list of rows what the plan makes of it, for any meaning of
  -- the comparisons and of the projections.
  pub optimize-denote :
      (plan : Plan) (rows : List A) → denote (optimize plan) rows ≡ denote plan rows
  unfolding optimize
  optimize-denote plan rows = execute_pass-denote plan rows
