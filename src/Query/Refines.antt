-- ===== src/Query/Refines.antt =====
-- `QueryCompiler::execute` of every query that the interface can build, against the rows that the plan
-- means: chunks, bitmaps, kernels and the optimizer are not seen from outside.
use mathlib.Core.Path.{subst}
use pefa.Base.{ℕ, List, [], ◌∷◌, ◌≡◌, ◌∙◌, refl, ap, sym, map, Outcome, ok, ◌>>=◌, none}
use pefa.Arrow.{Arrow, ArrowLaws, ChunkedArray, Table}
use pefa.Expressions.{BooleanExpr, and_expr}
use pefa.Expressions.Meaning.{holds}
use pefa.Kernel.Ir.{Floats}
use pefa.Plan.{
  Plan, source, projection_node, filter_node, materialize_filter_node, on_projection, on_filter,
  on_materialize, visit_plan,
}
use pefa.Plan.Optimizer.{copy_node, join_filter, join_filter_on_visit, execute_pass}
use pefa.Plan.Joined.{IsQuery, IsJoined, optimize-IsJoined}
use pefa.Plan.Meaning.{denote, denote_step, optimize-denote}
use pefa.Execution.Context.{ExecutionContext, new_context}
use pefa.Execution.Metadata.{AllMaterialized, new_context-AllMaterialized}
use pefa.Query.{QueryCompiler, optimize, execute_step, execute_plan, execute}
use pefa.Relation.{
  Header, Row, row_atom, restrict, restrict_header, AllNames, header_after, IsCondition, IsTyped,
  header_of, rows_of,
}
use pefa.Relation.Lists.{keep}
use pefa.Relation.Tables.{IsTable, AreColumns}
use pefa.Relation.Filter.{filter-Filtered}
use pefa.Relation.Project.{project-Projected}

-- The optimizer keeps the header behind a plan, and a typed plan typed.
module _ (arrow : Arrow) (h : Header) where
  header_after-join_filter :
      (result : Plan) (e : BooleanExpr)
      → header_after arrow (join_filter result e) h ≡ header_after arrow result h
  unfolding join_filter
  header_after-join_filter source e = refl
  header_after-join_filter (projection_node input fields) e = refl
  header_after-join_filter (filter_node input expr) e = refl
  header_after-join_filter (materialize_filter_node input) e = header_after-join_filter input e

  join_filter-IsTyped :
      (result : Plan) (e : BooleanExpr)
      → IsTyped arrow result h
      → IsCondition arrow (header_after arrow result h) e
      → IsTyped arrow (join_filter result e) h
  unfolding join_filter and_expr
  join_filter-IsTyped source e typed condition = (tt, condition)
  join_filter-IsTyped (projection_node input fields) e typed condition = (typed, condition)
  join_filter-IsTyped (filter_node input expr) e typed condition = (typed.0, (typed.1, condition))
  join_filter-IsTyped (materialize_filter_node input) e typed condition =
      join_filter-IsTyped input e typed condition

  pub header_after-optimize :
      (plan : Plan) → header_after arrow (optimize plan) h ≡ header_after arrow plan h
  unfolding optimize execute_pass visit_plan join_filter_on_visit copy_node
  header_after-optimize source = refl
  header_after-optimize (projection_node input fields) =
      ap (restrict_header arrow fields) (header_after-optimize input)
  header_after-optimize (filter_node input e) =
      header_after-join_filter (optimize input) e ∙ header_after-optimize input
  header_after-optimize (materialize_filter_node input) = header_after-optimize input

  pub optimize-IsTyped : (plan : Plan) → IsTyped arrow plan h → IsTyped arrow (optimize plan) h
  unfolding optimize execute_pass visit_plan join_filter_on_visit copy_node
  optimize-IsTyped source typed = tt
  optimize-IsTyped (projection_node input []) typed = absurd typed
  optimize-IsTyped (projection_node input (name ∷ names)) typed = (
    optimize-IsTyped input typed.0,
    subst (λ (k : Header). AllNames arrow k (name ∷ names)) (sym (header_after-optimize input))
        typed.1,
  )
  optimize-IsTyped (filter_node input e) typed =
      join_filter-IsTyped (optimize input) e (optimize-IsTyped input typed.0)
        (subst (λ (k : Header). IsCondition arrow k e) (sym (header_after-optimize input)) typed.1)
  optimize-IsTyped (materialize_filter_node input) typed = optimize-IsTyped input typed

-- A query that is not empty.
abbrev pub HasStep : Plan → Type 0
HasStep source = ⊥
HasStep (projection_node input fields) = Unit {0}
HasStep (filter_node input expr) = Unit {0}
HasStep (materialize_filter_node input) = Unit {0}

AreColumns-AllMaterialized :
    (rows : ℕ) (cs : List ChunkedArray) → AreColumns rows cs → AllMaterialized cs
AreColumns-AllMaterialized rows [] h = tt
AreColumns-AllMaterialized rows (c ∷ cs) h =
    (h.0.materialized, AreColumns-AllMaterialized rows cs h.1)

module _ (arrow : Arrow) (floats : Floats) where
  -- The rows that a plan means.
  abbrev pub meaning : Plan → List Row → List Row
  meaning plan rows = denote (row_atom arrow floats) (restrict arrow) plan rows

  -- What a plan has made of a table.
  pub record Carried (plan : Plan) (table : Table) (result : Outcome ExecutionContext)
      : Type 0 where
    pub after : ExecutionContext
    pub returns : result ≡ ok after
    pub valid : IsTable after.table
    pub header : header_of after.table ≡ header_after arrow plan (header_of table)
    pub rows : rows_of after.table ≡ meaning plan (rows_of table)

  -- The table of a query's plan: its header and its rows are those that the plan means.
  pub record Answered (plan : Plan) (table : Table) (result : Outcome Table) : Type 0 where
    pub answer : Table
    pub returns : result ≡ ok answer
    pub valid : IsTable answer
    pub header : header_of answer ≡ header_after arrow plan (header_of table)
    pub rows : rows_of answer ≡ meaning plan (rows_of table)

  module _ (laws : ArrowLaws arrow) (table : Table) (valid : IsTable table) where
    -- Plans in the form that the optimizer leaves.
    execute_plan-Carried :
        (plan : Plan)
        → IsJoined plan
        → IsTyped arrow plan (header_of table)
        → Carried plan table (execute_plan arrow floats plan (new_context arrow table))
    unfolding execute_plan visit_plan execute_step denote denote_step
    execute_plan-Carried source joined typed =
        let (ms, made) =
          new_context-AllMaterialized arrow table
            (AreColumns-AllMaterialized table.num_rows table.columns valid.columns_valid) in
        record {
          after = record {
            table = table;
            metadata = record { columns = ms; filter_bitmap = none };
          };
          returns = made;
          valid = valid;
          header = refl;
          rows = refl;
        }
    execute_plan-Carried (projection_node input []) joined typed = absurd typed
    execute_plan-Carried (projection_node input (name ∷ names)) joined typed =
        let before = execute_plan-Carried input joined typed.0 in
        let step =
          project-Projected arrow laws before.after name names before.valid
            (subst (λ (k : Header). AllNames arrow k (name ∷ names)) (sym before.header) typed.1) in
        record {
          after = step.after;
          returns =
              ap (◌>>= execute_step arrow floats (on_projection (name ∷ names))) (before.returns)
              ∙ step.returns;
          valid = step.valid;
          header = step.header_restricted ∙ ap (restrict_header arrow (name ∷ names)) before.header;
          rows = step.rows_restricted ∙ ap (map (restrict arrow (name ∷ names))) before.rows;
        }
    execute_plan-Carried (filter_node input e) joined typed = absurd joined
    execute_plan-Carried (materialize_filter_node source) joined typed = absurd joined
    execute_plan-Carried (materialize_filter_node (projection_node input fields)) joined typed =
        absurd joined
    execute_plan-Carried (materialize_filter_node (materialize_filter_node input)) joined typed =
        absurd joined
    execute_plan-Carried (materialize_filter_node (filter_node input e)) joined typed =
        let before = execute_plan-Carried input joined.1 typed.0 in
        let step =
          filter-Filtered arrow floats laws before.after e before.valid
            (subst (λ (k : Header). IsCondition arrow k e) (sym before.header) typed.1) in
        record {
          after = step.after;
          returns =
              ap
                (λ (m : Outcome ExecutionContext).
                  m
                  >>= execute_step arrow floats (on_filter e)
                  >>= execute_step arrow floats on_materialize)
                (before.returns)
              ∙ step.returns;
          valid = step.valid;
          header = step.same_header ∙ before.header;
          rows =
              step.rows_kept
              ∙ ap (keep (λ (row : Row). holds (row_atom arrow floats row) e)) before.rows;
        }

    -- The answer of a plan that is carried out in the form that the optimizer gives it.
    Carried-Answered :
        (plan : Plan)
        → Carried
            (optimize plan)
            table
            (execute_plan arrow floats (optimize plan) (new_context arrow table))
        → Answered plan table (
            execute_plan arrow floats (optimize plan) (new_context arrow table) >>= λ ctx.
            ok (ctx.table))
    Carried-Answered plan run = record {
      answer = run.after.table;
      returns = rw (run.returns) refl;
      valid = run.valid;
      header = run.header ∙ header_after-optimize arrow (header_of table) plan;
      rows =
          run.rows ∙ optimize-denote (row_atom arrow floats) (restrict arrow) plan (rows_of table);
    }

    execute-Carried :
        (plan : Plan)
        → HasStep plan
        → Carried
            (optimize plan)
            table
            (execute_plan arrow floats (optimize plan) (new_context arrow table))
        → Answered plan table (execute arrow floats (record { plan = plan }) table)
    unfolding execute
    execute-Carried source steps run = absurd steps
    execute-Carried (projection_node input fields) steps run =
        Carried-Answered (projection_node input fields) run
    execute-Carried (filter_node input e) steps run = Carried-Answered (filter_node input e) run
    execute-Carried (materialize_filter_node input) steps run =
        Carried-Answered (materialize_filter_node input) run

    -- For a table of at least one column and fewer than 2 ^ 31 rows, each of whose columns
    -- has as many rows, at least one chunk, and one of the ten types that can be materialized
    -- (the integers of 8 to 64 bits, float and double), and each of whose chunks is of its
    -- column's type, is no slice, has its rows in a mutable buffer as bit patterns of that
    -- type, has fewer than 2 ^ 57 of them, and starts at a multiple of 8 rows or reaches the
    -- end of the byte of the bitmap that it starts in, also when its length is cut down to 8
    -- bits, and for every query of at least one step that the interface can build, whose
    -- projections name columns that are there, at least one, and whose conditions, without
    -- constants, compare columns, which they find under their own names and types, with
    -- literals of their types (an integer in the range of the column's, or a number for a
    -- floating point column): execute returns a table whose header and whose rows, in order,
    -- are those that the query's own plan means.
    pub execute-Answered :
        (query : QueryCompiler)
        → IsQuery query
        → HasStep query.plan
        → IsTyped arrow query.plan (header_of table)
        → Answered query.plan table (execute arrow floats query table)
    execute-Answered query built steps typed = execute-Carried query.plan steps (
        execute_plan-Carried (optimize query.plan) (optimize-IsJoined query built)
          (optimize-IsTyped arrow (header_of table) query.plan typed))
