-- ===== src/Query/Projections.antt =====
-- A query of a projection alone, from the interface to the table that `execute` returns.
use pefa.Base.{List, String, ◌≡◌, refl, none, ok}
use pefa.Arrow.{Arrow, ArrowLaws, ChunkedArray, Table}
use pefa.Kernel.Ir.{Floats}
use pefa.Plan.{visit_plan}
use pefa.Plan.Optimizer.{copy_node, join_filter_on_visit, execute_pass}
use pefa.Execution.Context.{ExecutionContext}
use pefa.Execution.Metadata.{AllMaterialized, new_context-AllMaterialized}
use pefa.Execution.Project.Columns.{AreNamed, fields_of, project-AreNamed}
use pefa.Query.{new_query, project, optimize, execute_plan, execute_step, execute}

-- For a table whose columns have types that can be materialized, and names that it has, `execute` of
-- the query that projects on these names returns the table of exactly the columns that the names
-- find, unchanged and in the order of the names, under fields of these names and the columns' types.
pub execute-project :
    (arrow : Arrow) (floats : Floats) (laws : ArrowLaws arrow) (table : Table) (names : List String)
    (cs : List ChunkedArray)
    → AllMaterialized table.columns
    → AreNamed arrow table names cs
    → (t : Table) × (execute arrow floats (project new_query names) table ≡ ok t)
      × (t.columns ≡ cs)
      × (t.schema ≡ fields_of names cs)
unfolding execute project new_query execute_plan visit_plan execute_step optimize execute_pass
    join_filter_on_visit copy_node
execute-project arrow floats laws table names cs typed named =
    let (ms, made) = new_context-AllMaterialized arrow table typed in
    let ctx : ExecutionContext = record {
      table = table;
      metadata = record { columns = ms; filter_bitmap = none };
    } in
    let (after, runs, columns, schema, bare) = project-AreNamed arrow laws ctx names cs named in
    (after.table, rw (made, runs) refl, columns, schema)
