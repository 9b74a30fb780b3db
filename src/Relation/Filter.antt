-- ===== src/Relation/Filter.antt =====
-- A filter keeps the rows at which its condition is true.
use mathlib.Core.Path.{subst}
use pefa.Base.{
  ℕ, AllBelow, ◌+◌, ◌<◌, ◌≡◌, ◌∙◌, refl, ap, ap₂, sym, arith, Bool, true, Bool-cases, inl, inr,
  List, [], ◌∷◌, length, map, get_or, Outcome, ok, ◌>>=◌,
}
use pefa.Arrow.{TypeId, Arrow, ArrowLaws, Field, Array, ChunkedArray, Table}
use pefa.Expressions.{BooleanExpr}
use pefa.Expressions.Meaning.{holds}
use pefa.Kernel.Ir.{Floats}
use pefa.Execution.Context.{ExecutionContext}
use pefa.Execution.Rows.{IsLaidOut, column_rows, length-column_rows}
use pefa.Execution.Filter.{generate_filter_bitmap}
use pefa.Execution.Materialize.{materialize_filter, is_materialized}
use pefa.Execution.Materialize.Select.{select}
use pefa.Execution.Materialize.Whole.{AllButLastFull}
use pefa.Execution.Selection.{AreSelected, Selected, filter_decided-Selected}
use pefa.Relation.{Header, Row, row_atom, IsCondition, header_of, cells_at, row_of, rows_of}
use pefa.Relation.Atoms.{atom_of_rows, IsCondition-IsDecided}
use pefa.Relation.Lists.{
  upto, keep, keep-map, chosen, select-chosen, length-map, get_or-map, map-get_or, map_congr,
  length-upto, length-keep-le,
}
use pefa.Relation.Tables.{
  pattern_limit, IsColumn, AreColumns, IsTable, length-column, IsTable-IsFilterable,
  IsMaterialized-IsLaidOut, IsMaterialized-AreMutable, has_column, has_chunk, counted_columns,
}

AllBelow-select :
    (n : ℕ) (p : ℕ → Bool) (i : ℕ) (xs : List ℕ) → AllBelow n xs → AllBelow n (select p i xs)
unfolding select
AllBelow-select n p i [] h = tt
AllBelow-select n p i (x ∷ xs) h = elim (Bool-cases (p i)) [
  | inl e ↦ rw e (h.0, AllBelow-select n p (i + 1) xs h.1)
  | inr e ↦ rw e (AllBelow-select n p (i + 1) xs h.1)
]

AllButLastFull-has_chunk : (cs : List Array) → AllButLastFull cs → has_chunk cs ≡ true
AllButLastFull-has_chunk [] h = absurd h
AllButLastFull-has_chunk (c ∷ cs) h = refl

module _ (p : ℕ → Bool) (rows : ℕ) where
  -- The rows of a selected column.
  select-column :
      (c d : ChunkedArray)
      → IsColumn rows c
      → column_rows d.chunks ≡ select p 0 (column_rows c.chunks)
      → column_rows d.chunks ≡ map (λ (r : ℕ). get_or (column_rows c.chunks) r 0) (chosen p rows)
  select-column c d col selected =
      selected
      ∙ select-chosen p (column_rows c.chunks)
      ∙ ap (λ (n : ℕ). map (λ (r : ℕ). get_or (column_rows c.chunks) r 0) (chosen p n))
          (length-column rows c col)

  AreColumns-AreSelected :
      (cs ds : List ChunkedArray)
      → AreColumns rows cs
      → AreSelected p cs ds
      → AreColumns (length (chosen p rows)) ds
  AreColumns-AreSelected [] [] valid selected = tt
  AreColumns-AreSelected [] (d ∷ ds) valid selected = absurd selected
  AreColumns-AreSelected (c ∷ cs) [] valid selected = absurd selected
  AreColumns-AreSelected (c ∷ cs) (d ∷ ds) (col, cols)
        (kept, same_type, made, full, counted, others) =
      let laid = IsMaterialized-IsLaidOut c.type 0 d.chunks made full refl in
      (
        record {
          laid_out = subst (λ (t : TypeId). IsLaidOut t 0 d.chunks) (sym same_type) laid;
          counted = counted ∙ length-column_rows c.type 0 d.chunks laid;
          same_rows =
              counted ∙ ap length (select-column c d col kept) ∙ length-map _ (chosen p rows);
          materialized = ap is_materialized same_type ∙ col.materialized;
          stored_mutable = IsMaterialized-AreMutable c.type d.chunks made;
          chunked = AllButLastFull-has_chunk d.chunks full;
          patterns =
              subst (λ (t : TypeId). AllBelow (pattern_limit t) (column_rows d.chunks))
                (sym same_type)
                (subst (AllBelow (pattern_limit c.type)) (sym kept)
                  (AllBelow-select (pattern_limit c.type) p 0 (column_rows c.chunks) col.patterns));
        },
        AreColumns-AreSelected cs ds cols others,
      )

  types-AreSelected :
      (cs ds : List ChunkedArray)
      → AreSelected p cs ds
      → map (λ (c : ChunkedArray). c.type) ds ≡ map (λ (c : ChunkedArray). c.type) cs
  types-AreSelected [] [] selected = refl
  types-AreSelected [] (d ∷ ds) selected = absurd selected
  types-AreSelected (c ∷ cs) [] selected = absurd selected
  types-AreSelected (c ∷ cs) (d ∷ ds) selected =
      ap₂ ◌∷◌ selected.1 (types-AreSelected cs ds selected.5)

  some_column-AreSelected :
      (cs ds : List ChunkedArray)
      → AreSelected p cs ds
      → has_column cs ≡ true
      → has_column ds ≡ true
  some_column-AreSelected [] ds selected h = cc
  some_column-AreSelected (c ∷ cs) [] selected h = absurd selected
  some_column-AreSelected (c ∷ cs) (d ∷ ds) selected h = refl

  -- Row `k` of the selected columns is the row at the number that is kept as number `k`.
  cells_at-AreSelected :
      (cs ds : List ChunkedArray) (k : ℕ)
      → AreColumns rows cs
      → AreSelected p cs ds
      → k < length (chosen p rows)
      → cells_at ds k ≡ cells_at cs (get_or (chosen p rows) k 0)
  cells_at-AreSelected [] [] k valid selected h = refl
  cells_at-AreSelected [] (d ∷ ds) k valid selected h = absurd selected
  cells_at-AreSelected (c ∷ cs) [] k valid selected h = absurd selected
  cells_at-AreSelected (c ∷ cs) (d ∷ ds) k valid selected h =
      ap₂ ◌∷◌
        (ap (λ (xs : List ℕ). get_or xs k 0) (select-column c d valid.0 selected.0)
          ∙ get_or-map (λ (r : ℕ). get_or (column_rows c.chunks) r 0) (chosen p rows) k 0 0 h)
        (cells_at-AreSelected cs ds k valid.1 selected.5 h)

-- The table that a filter has made of a table, with its rows.
pub record Filtered (arrow : Arrow) (floats : Floats) (e : BooleanExpr) (table : Table)
    (result : Outcome ExecutionContext) : Type 0 where
  pub after : ExecutionContext
  pub returns : result ≡ ok after
  pub valid : IsTable after.table
  pub same_header : header_of after.table ≡ header_of table
  pub rows_kept :
      rows_of after.table ≡ keep (λ row. holds (row_atom arrow floats row) e) (rows_of table)

module _ (arrow : Arrow) (floats : Floats) (laws : ArrowLaws arrow) where
  Selected-Filtered :
      (e : BooleanExpr) (table : Table) {result : Outcome ExecutionContext}
      → (valid : IsTable table)
      → Selected (λ r. holds (atom_of_rows arrow floats laws table valid r) e) table result
      → Filtered arrow floats e table result
  Selected-Filtered e table valid s =
      let p : ℕ → Bool = λ r. holds (atom_of_rows arrow floats laws table valid r) e in
      let n : ℕ = table.num_rows in
      let ds : List ChunkedArray = s.after.table.columns in
      let cols =
        AreColumns-AreSelected p n table.columns ds valid.columns_valid s.columns_selected in
      let one_column =
        some_column-AreSelected p n table.columns ds s.columns_selected valid.some_column in
      let count =
        counted_columns (length (chosen p n)) s.after.table.num_rows ds cols s.rows_counted
          one_column in
      let header : header_of s.after.table ≡ header_of table =
        ap₂
          (λ (schema : List Field) (types : List TypeId). record { schema = schema; types = types })
          s.same_schema (types-AreSelected p n table.columns ds s.columns_selected) in
      record {
        after = s.after;
        returns = s.returns;
        valid = record {
          columns_valid = subst (λ (k : ℕ). AreColumns k ds) (sym count) cols;
          limit = omega (arith, count, length-keep-le p (upto 0 n), length-upto 0 n, valid.limit);
          some_column = one_column;
        };
        same_header = header;
        rows_kept =
            ap (λ (k : ℕ). map (row_of s.after.table) (upto 0 k)) count
            ∙ map_congr (row_of s.after.table) (λ (k : ℕ). row_of table (get_or (chosen p n) k 0)) 0
                (length (chosen p n))
                (λ k lo hi.
                  ap₂ (λ (h : Header) (cells : List ℕ). record { header = h; cells = cells }) header
                    (cells_at-AreSelected p n table.columns ds k valid.columns_valid
                      s.columns_selected (omega arith)))
            ∙ map-get_or (row_of table) (chosen p n)
            ∙ sym (
                keep-map (λ (row : Row). holds (row_atom arrow floats row) e) (row_of table)
                  (upto 0 n));
      }

  -- For a table of at least one column and fewer than 2 ^ 31 rows, each of whose columns has as
  -- many rows, at least one chunk, and one of the ten types that can be materialized (the
  -- integers of 8 to 64 bits, float and double), and each of whose chunks is of its column's
  -- type, is no slice, has its rows in a mutable buffer as bit patterns of that type, has fewer
  -- than 2 ^ 57 of them, and starts at a multiple of 8 rows or reaches the end of the byte of
  -- the bitmap that it starts in, also when its length is cut down to 8 bits, and for a
  -- condition without constants that compares columns, which it finds under their own names and
  -- types, with literals of their types (an integer in the range of the column's, or a number
  -- for a floating point column): generate_filter_bitmap and then materialize_filter return a
  -- table with the same header, whose rows are those of the table at which the condition is
  -- true, in their order.
  pub filter-Filtered :
      (ctx : ExecutionContext) (e : BooleanExpr)
      → IsTable ctx.table
      → IsCondition arrow (header_of ctx.table) e
      → Filtered arrow floats e ctx.table
          (generate_filter_bitmap arrow floats ctx e >>= materialize_filter arrow)
  filter-Filtered ctx e valid condition = Selected-Filtered e ctx.table valid (
      filter_decided-Selected arrow laws floats (atom_of_rows arrow floats laws ctx.table valid) ctx
        e (IsTable-IsFilterable ctx.table valid)
        (IsCondition-IsDecided arrow floats laws ctx.table valid e condition))
