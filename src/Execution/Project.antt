-- ===== src/Execution/Project.antt =====
-- `project` of pefa/execution/execution.cpp.
pub mod Columns
use pefa.Base.{List, [], ◌∷◌, String, Outcome, ok, Fault, ◌>>=◌, deref}
use pefa.Arrow.{Arrow, Field, ChunkedArray, Table, get_column_by_name}
use pefa.Execution.Context.{ExecutionContext, new_context}

module _ (arrow : Arrow) where
  -- The loop: a field and a column for each name; the type of a missing column is read through
  -- a null pointer.
  unfoldable pub project_columns : Table → List String → Outcome (List Field × List ChunkedArray)
  unfolding get_column_by_name
  project_columns table [] = ok ([], [])
  project_columns table (name ∷ names) = do
    col ← deref (get_column_by_name arrow table name) Fault.null_pointer
    (fields, columns) ← project_columns table names
    ok (record { name = name; type = col.type } ∷ fields, col ∷ columns)

  unfoldable pub project : ExecutionContext → List String → Outcome ExecutionContext
  unfolding project_columns new_context
  project ctx column_names = do
    (fields, columns) ← project_columns ctx.table column_names
    new_context arrow (arrow.make_table fields columns)
