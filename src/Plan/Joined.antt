-- ===== src/Plan/Joined.antt =====
-- The shape of plans: those that queries build, and those that the optimizer makes of them.
use pefa.Base.{List, String, ◌≡◌, refl, ◌∙◌, ap}
use pefa.Expressions.{BooleanExpr}
use pefa.Plan.{Plan, source, projection_node, filter_node, materialize_filter_node, visit_plan}
use pefa.Plan.Optimizer.{copy_node, join_filter, join_filter_on_visit, execute_pass}
use pefa.Query.{QueryCompiler, new_query, project, filter, optimize}

-- The queries that the interface can build.
pub data IsQuery : QueryCompiler → Type 0 where
  is_new : IsQuery new_query
  is_project :
      {query : QueryCompiler}
      → IsQuery query
      → (columns : List String) → IsQuery (project query columns)
  is_filter :
      {query : QueryCompiler} → IsQuery query → (expr : BooleanExpr) → IsQuery (filter query expr)

-- A plan that does not end in a filter.
abbrev NoFilterLast : Plan → Type 0
NoFilterLast source = Unit {0}
NoFilterLast (projection_node input fields) = Unit {0}
NoFilterLast (filter_node input expr) = ⊥
NoFilterLast (materialize_filter_node input) = ⊥

-- Each filter is materialized at once, nothing else is, and no filter follows another.
abbrev pub IsJoined : Plan → Type 0
IsJoined source = Unit {0}
IsJoined (projection_node input fields) = IsJoined input
IsJoined (filter_node input expr) = ⊥
IsJoined (materialize_filter_node source) = ⊥
IsJoined (materialize_filter_node (projection_node input fields)) = ⊥
IsJoined (materialize_filter_node (materialize_filter_node input)) = ⊥
IsJoined (materialize_filter_node (filter_node input expr)) = NoFilterLast input × IsJoined input

join_filter-IsJoined :
    (plan : Plan) (e : BooleanExpr)
    → IsJoined plan
    → IsJoined (materialize_filter_node (join_filter plan e))
unfolding join_filter
join_filter-IsJoined source e h = (tt, tt)
join_filter-IsJoined (projection_node input fields) e h = (tt, h)
join_filter-IsJoined (filter_node input expr) e h = absurd h
join_filter-IsJoined (materialize_filter_node source) e h = absurd h
join_filter-IsJoined (materialize_filter_node (projection_node input fields)) e h = absurd h
join_filter-IsJoined (materialize_filter_node (materialize_filter_node input)) e h = absurd h
join_filter-IsJoined (materialize_filter_node (filter_node input expr)) e h = h

-- The optimizer makes of every query a plan in which each filter is materialized at once, nothing
-- else is materialized, and no filter follows another.
pub optimize-IsJoined : (query : QueryCompiler) → IsQuery query → IsJoined (optimize query.plan)
unfolding optimize execute_pass visit_plan join_filter_on_visit copy_node project filter new_query
optimize-IsJoined query is_new = tt
optimize-IsJoined query (is_project {query = q} h columns) = optimize-IsJoined q h
optimize-IsJoined query (is_filter {query = q} h expr) =
    join_filter-IsJoined (optimize q.plan) expr (optimize-IsJoined q h)

join_filter_source :
    (plan : Plan) (e : BooleanExpr) → NoFilterLast plan → join_filter plan e ≡ filter_node plan e
unfolding join_filter
join_filter_source source e h = refl
join_filter_source (projection_node input fields) e h = refl
join_filter_source (filter_node input expr) e h = absurd h
join_filter_source (materialize_filter_node input) e h = absurd h

-- A plan in that form is left as it is, so the optimizer is idempotent on queries.
pub optimize_joined : (plan : Plan) → IsJoined plan → optimize plan ≡ plan
unfolding optimize execute_pass visit_plan join_filter_on_visit copy_node
optimize_joined source h = refl
optimize_joined (projection_node input fields) h =
    ap (λ (p : Plan). projection_node p fields) (optimize_joined input h)
optimize_joined (filter_node input expr) h = absurd h
optimize_joined (materialize_filter_node source) h = absurd h
optimize_joined (materialize_filter_node (projection_node input fields)) h = absurd h
optimize_joined (materialize_filter_node (materialize_filter_node input)) h = absurd h
optimize_joined (materialize_filter_node (filter_node input expr)) h =
    ap (λ (p : Plan). materialize_filter_node (join_filter p expr)) (optimize_joined input h.1)
    ∙ ap materialize_filter_node (join_filter_source input expr h.0)
