-- ===== src/Tests/Runs.antt =====
-- Queries from end to end on the test table: the rows `a > -2 and b < 220`, and the column `b`.
use pefa.Base.{ℕ, ◌≡◌, refl, List, [], ◌∷◌, map, Outcome, ok, ◌>>=◌}
use pefa.Arrow.{TypeId, get_column_by_name, ChunkedArray, Table}
use pefa.Query.Projections.{execute-project}
use pefa.Execution.Project.Columns.{AreNamed, fields_of, none_named, one_named}
use pefa.Query.{project, new_query, filter, execute}
use pefa.Expressions.{gt_expr, lt_expr, col, lit}
use pefa.Execution.Filter.{generate_filter_bitmap}
use pefa.Execution.Materialize.{materialize_filter, read_bit, is_materialized}
use pefa.Execution.Rows.{column_rows}
use pefa.Tests.Data.{
  test_arrow-ArrowLaws, b_chunks, test_arrow, test_floats, test_table, test_condition,
}

abbrev b_column : ChunkedArray
b_column = record { type = TypeId.uint8; length = 13; chunks = b_chunks }

abbrev rows_of_columns : Table → Outcome (List (List ℕ))
rows_of_columns t = ok (map (λ (c : ChunkedArray). column_rows c.chunks) t.columns)

filter_rows :
    (execute test_arrow test_floats (filter new_query test_condition) test_table
      >>= rows_of_columns)
    ≡ ok (
        (1 ∷ 4294967295 ∷ 7 ∷ 3 ∷ 9 ∷ 2 ∷ 0 ∷ 5 ∷ 6 ∷ 11 ∷ [])
        ∷ (10 ∷ 20 ∷ 30 ∷ 40 ∷ 60 ∷ 70 ∷ 80 ∷ 90 ∷ 200 ∷ 210 ∷ [])
        ∷ [])
unfolding execute filter new_query generate_filter_bitmap gt_expr lt_expr col lit materialize_filter
    read_bit
filter_rows = refl

b_named : AreNamed test_arrow test_table ("b" ∷ []) (b_column ∷ [])
unfolding get_column_by_name is_materialized
b_named = one_named refl refl none_named

execute-project_example :
    (t : Table) × (execute test_arrow test_floats (project new_query ("b" ∷ [])) test_table ≡ ok t)
    × (t.columns ≡ b_column ∷ [])
    × (t.schema ≡ fields_of ("b" ∷ []) (b_column ∷ []))
execute-project_example =
    execute-project test_arrow test_floats test_arrow-ArrowLaws test_table ("b" ∷ [])
      (b_column ∷ []) (unfold is_materialized in (refl, (refl, tt))) b_named
