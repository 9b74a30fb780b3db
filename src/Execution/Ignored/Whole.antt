-- ===== src/Execution/Ignored/Whole.antt =====
-- A filter on sliced chunks and on chunks with nulls.
use pefa.Base.{
  Option-cases, Outcome-cases, ◌≡◌, refl, true, false, Bool-cases, inl, inr, List, [], ◌∷◌, map,
  ◌>>=◌,
}
use pefa.Arrow.{Arrow, TypeId, Array, ChunkedArray}
use pefa.Expressions.{BooleanExpr}
use pefa.Kernel.Ir.{Floats}
use pefa.Execution.Context.{ExecutionContext, create_chunks, create_columns, new_context}
use pefa.Execution.Filter.{visit, result, new_executor, has_no_rows, generate_filter_bitmap}
use pefa.Execution.Materialize.{materialize_filter}
use pefa.Execution.Ignored.{plain, plain_column, plain_table}
use pefa.Execution.Ignored.Bitmaps.{visit-plain}
use pefa.Execution.Ignored.Copies.{materialize_columns-plain}

abbrev pub plain_context : ExecutionContext → ExecutionContext
plain_context ctx = record ctx { table = plain_table ctx.table }

has_no_rows-plain : (cs : List ChunkedArray) → has_no_rows (map plain_column cs) ≡ has_no_rows cs
unfolding has_no_rows
has_no_rows-plain [] = refl
has_no_rows-plain (c ∷ cs) = no_chunk c.chunks
  where
    no_chunk :
        (chunks : List Array)
        → (elim (map plain chunks) [ [] ↦ true | x ∷ xs ↦ false ])
          ≡ (elim chunks [ [] ↦ true | x ∷ xs ↦ false ])
    no_chunk [] = refl
    no_chunk (x ∷ xs) = refl

module _ (arrow : Arrow) where
  create_chunks-plain :
      (type : TypeId) (cs : List Array)
      → create_chunks arrow type (map plain cs) ≡ create_chunks arrow type cs
  unfolding create_chunks
  create_chunks-plain type [] = refl
  create_chunks-plain type (c ∷ cs) = rw (create_chunks-plain type cs) refl

  create_columns-plain :
      (cs : List ChunkedArray)
      → create_columns arrow (map plain_column cs) ≡ create_columns arrow cs
  unfolding create_columns
  create_columns-plain [] = refl
  create_columns-plain (c ∷ cs) =
      rw (create_chunks-plain c.type c.chunks, create_columns-plain cs) refl

  -- A filter of any condition, on any table, returns what it returns on the table whose chunks start at
  -- the beginning of their buffers and have no nulls: the offsets and the validity are not read.
  pub filter-plain :
      (floats : Floats) (ctx : ExecutionContext) (e : BooleanExpr)
      → (generate_filter_bitmap arrow floats (plain_context ctx) e >>= materialize_filter arrow)
        ≡ (generate_filter_bitmap arrow floats ctx e >>= materialize_filter arrow)
  unfolding generate_filter_bitmap new_context materialize_filter
  filter-plain floats ctx e =
      let rows = has_no_rows-plain ctx.table.columns in
      let made = create_columns-plain ctx.table.columns in
      let visited = visit-plain arrow floats ctx.table e new_executor in
      elim (Bool-cases (has_no_rows ctx.table.columns)) [
        | inl h ↦ elim (Outcome-cases (create_columns arrow ctx.table.columns)) [
          | inl (ms, c) ↦ rw (rows, h, made, c) refl
          | inr (inl (x, c)) ↦ rw (rows, h, made, c) refl
          | inr (inr (x, c)) ↦ rw (rows, h, made, c) refl
        ]
        | inr h ↦ elim (Outcome-cases (visit arrow floats ctx.table e new_executor)) [
          | inr (inl (x, v)) ↦ rw (rows, h, visited, v) refl
          | inr (inr (x, v)) ↦ rw (rows, h, visited, v) refl
          | inl (s, v) ↦ elim (Outcome-cases (create_columns arrow ctx.table.columns)) [
            | inr (inl (x, c)) ↦ rw (rows, h, visited, v, made, c) refl
            | inr (inr (x, c)) ↦ rw (rows, h, visited, v, made, c) refl
            | inl (ms, c) ↦ elim (Option-cases (result s)) [
              | inl missing ↦ rw (rows, h, visited, v, made, c, missing) refl
              | inr (bitmap, found) ↦
                  rw
                    (
                      rows,
                      h,
                      visited,
                      v,
                      made,
                      c,
                      found,
                      materialize_columns-plain arrow bitmap ctx.table.columns,
                    )
                    refl
            ]
          ]
        ]
      ]
