-- ===== src/Query/Filters.antt =====
-- Queries of filters alone, from the interface to the table that `execute` returns.
use pefa.Base.{ℕ, List, [], ◌∷◌, String, ◌≡◌, ◌≢◌, none, refl, ◌∙◌, ap, sym, Outcome, ok, ◌>>=◌}
use pefa.Base.Int.{ℤ}
use pefa.Arrow.{Arrow, ArrowLaws, Table}
use pefa.Expressions.{BooleanExpr, and_expr}
use pefa.Expressions.Meaning.{holds}
use pefa.Kernel.Ir.{Floats}
use pefa.Plan.{Plan, source, projection_node, filter_node, materialize_filter_node, visit_plan}
use pefa.Plan.Optimizer.{copy_node, join_filter, join_filter_on_visit, execute_pass}
use pefa.Execution.Context.{ExecutionContext, new_context}
use pefa.Execution.Filter.{generate_filter_bitmap}
use pefa.Execution.Materialize.{materialize_filter}
use pefa.Execution.Selection.{AreSelected, IsFilterable, filterable-new_context}
use pefa.Execution.Integers.{integer_atom, IsIntegerCondition, filter_integers-Selected}
use pefa.Query.{QueryCompiler, new_query, filter, optimize, execute_step, execute_plan, execute}

-- One filter after another.
abbrev pub filter_all : QueryCompiler → List BooleanExpr → QueryCompiler
filter_all query [] = query
filter_all query (e ∷ es) = filter_all (filter query e) es

abbrev pub conjunction : BooleanExpr → List BooleanExpr → BooleanExpr
conjunction e [] = e
conjunction e (f ∷ es) = conjunction (and_expr e f) es

abbrev one_filter : BooleanExpr → Plan
one_filter e = materialize_filter_node (filter_node source e)

optimize-filter_all :
    (query : QueryCompiler) (e : BooleanExpr) (es : List BooleanExpr)
    → optimize query.plan ≡ one_filter e
    → optimize (filter_all query es).plan ≡ one_filter (conjunction e es)
optimize-filter_all query e [] h = h
optimize-filter_all query e (f ∷ es) h = optimize-filter_all (filter query f) (and_expr e f) es (
    unfold optimize execute_pass visit_plan join_filter_on_visit copy_node filter in
    ap (λ (p : Plan). materialize_filter_node (join_filter p f)) h ∙ unfold join_filter in refl)

first_filter : (e : BooleanExpr) → optimize (filter new_query e).plan ≡ one_filter e
unfolding optimize execute_pass visit_plan join_filter_on_visit copy_node join_filter filter
    new_query
first_filter e = refl

source_first : (e : BooleanExpr) → source ≢ one_filter e
source_first e h = cc

module _ (arrow : Arrow) (floats : Floats) where
  abbrev run_optimized : Table → Plan → Outcome Table
  run_optimized table plan =
      execute_plan arrow floats plan (new_context arrow table) >>= λ ctx. ok (ctx.table)

  -- With the plan that the optimizer leaves.
  execute-one_filter :
      (plan : Plan) (e : BooleanExpr) (table : Table)
      → optimize plan ≡ one_filter e
      → execute arrow floats (record { plan = plan }) table ≡ (
          new_context arrow table
          >>= (λ ctx. generate_filter_bitmap arrow floats ctx e)
          >>= materialize_filter arrow
          >>= λ ctx. ok (ctx.table))
  unfolding execute execute_plan visit_plan execute_step
  execute-one_filter source e table h =
      absurd (source_first e (sym (unfold optimize execute_pass visit_plan in refl) ∙ h))
  execute-one_filter (projection_node input fields) e table h = ap (run_optimized table) h
  execute-one_filter (filter_node input expr) e table h = ap (run_optimized table) h
  execute-one_filter (materialize_filter_node input) e table h = ap (run_optimized table) h

  filtered_table :
      (laws : ArrowLaws arrow) (value : ℕ → String → ℤ) (table : Table) (e : BooleanExpr)
      → IsFilterable table
      → IsIntegerCondition arrow table value e
      → (t : Table) × ((new_context arrow table
            >>= (λ ctx. generate_filter_bitmap arrow floats ctx e)
            >>= materialize_filter arrow
            >>= λ ctx. ok (ctx.table))
          ≡ ok t)
        × (t.schema ≡ table.schema)
        × AreSelected (λ r. holds (integer_atom value r) e) table.columns t.columns
  filtered_table laws value table e filterable h =
      let (ms, made) = filterable-new_context arrow laws floats table filterable in
      let ctx : ExecutionContext = record {
        table = table;
        metadata = record { columns = ms; filter_bitmap = none };
      } in
      let run = filter_integers-Selected arrow floats laws value ctx e filterable h in
      (run.after.table, rw made (rw (run.returns) refl), run.same_schema, run.columns_selected)

  -- For a query of one or more filters, on a filterable table (fewer than 2 ^ 31 rows, a chunk
  -- in the first column, columns of as many rows and of types that can be materialized, no
  -- slices, the rows in mutable buffers), with conditions that compare laid out columns of
  -- integers with integers of their types and have no constants: execute returns a table of the
  -- same schema whose columns have, in order, exactly the rows at which all the conditions are
  -- true.
  pub execute-filter_all :
      (laws : ArrowLaws arrow) (value : ℕ → String → ℤ) (table : Table) (e : BooleanExpr)
      (es : List BooleanExpr)
      → IsFilterable table
      → IsIntegerCondition arrow table value (conjunction e es)
      → (t : Table) × (execute arrow floats (filter_all new_query (e ∷ es)) table ≡ ok t)
        × (t.schema ≡ table.schema)
        × AreSelected (λ r. holds (integer_atom value r) (conjunction e es)) table.columns t.columns
  execute-filter_all laws value table e es filterable h =
      let (t, runs, same_schema, selected) =
        filtered_table laws value table (conjunction e es) filterable h in
      (
        t,
        execute-one_filter (filter_all new_query (e ∷ es)).plan (conjunction e es) table
              (optimize-filter_all (filter new_query e) e es (first_filter e))
            ∙ runs,
        same_schema,
        selected,
      )
