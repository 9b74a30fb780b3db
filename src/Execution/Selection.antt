-- ===== src/Execution/Selection.antt =====
-- A filter with its materialization: `generate_filter_bitmap` and then `materialize_filter`.
use pefa.Base.{
  ℕ, ◌+◌, ◌*◌, ◌≤◌, ◌<◌, ◌≡◌, ◌∙◌, refl, ap, sym, arith, Bool, true, false, List, [], ◌∷◌, length,
  get_elem?, none, some, Outcome, ok, ◌>>=◌,
}
use pefa.Arrow.{Field, Arrow, ArrowLaws, ChunkedArray, Table, total_length}
use pefa.Bitmap.Bits.{bitmap_bit}
use pefa.Expressions.{BooleanExpr}
use pefa.Expressions.Meaning.{holds}
use pefa.Kernel.Ir.{Floats}
use pefa.Execution.Context.{ExecutionContext, new_context, ColumnMetadata}
use pefa.Execution.Rows.{column_rows}
use pefa.Execution.Filter.{
  generate_filter_bitmap, has_no_rows, new_executor, result, visit, Executor,
}
use pefa.Execution.Filter.Condition.{RowMeaning, IsDecided, visit-Visited}
use pefa.Execution.Counter.{int_max}
use pefa.Execution.Materialize.{is_materialized, materialize_columns, materialize_filter}
use pefa.Execution.Materialize.Select.{select}
use pefa.Execution.Materialize.Whole.{
  AllButLastFull, IsWhole, IsWhole-IsStored, IsMaterialized, column_rows-buffer_column,
  length-buffer_column,
}
use pefa.Execution.Materialize.Column.{materialize_column-Materialized}
use pefa.Execution.Metadata.{AllMaterialized, new_context-AllMaterialized}

-- Columns that can be materialized, each of `rows` rows.
abbrev pub AreFull : ℕ → List ChunkedArray → Type 0
AreFull rows [] = Unit {0}
AreFull rows (c ∷ cs) =
    IsWhole c.chunks
    × (c.length ≡ total_length c.chunks)
    × (c.length ≡ rows)
    × (is_materialized c.type ≡ true)
    × AreFull rows cs

-- The new columns have the rows at which `p` is true, in the types of the old.
abbrev pub AreSelected : (ℕ → Bool) → List ChunkedArray → List ChunkedArray → Type 0
AreSelected p [] [] = Unit {0}
AreSelected p [] (d ∷ ds) = ⊥
AreSelected p (c ∷ cs) [] = ⊥
AreSelected p (c ∷ cs) (d ∷ ds) =
    (column_rows d.chunks ≡ select p 0 (column_rows c.chunks))
    × (d.type ≡ c.type)
    × IsMaterialized c.type d.chunks
    × AllButLastFull d.chunks
    × (d.length ≡ length (column_rows d.chunks))
    × AreSelected p cs ds

pub select_congr :
    (p q : ℕ → Bool) (i : ℕ) (xs : List ℕ)
    → ((r : ℕ) → i ≤ r → r < i + length xs → p r ≡ q r)
    → select p i xs ≡ select q i xs
unfolding select
select_congr p q i [] same = refl
select_congr p q i (x ∷ xs) same =
    rw
      (
        same i (omega arith) (omega arith),
        select_congr p q (i + 1) xs (λ r h h'. same r (omega arith) (omega arith)),
      )
      refl

AreFull-AllMaterialized : (rows : ℕ) (cs : List ChunkedArray) → AreFull rows cs → AllMaterialized cs
AreFull-AllMaterialized rows [] h = tt
AreFull-AllMaterialized rows (c ∷ cs) h = (h.3, AreFull-AllMaterialized rows cs h.4)

AreSelected-AllMaterialized :
    (p : ℕ → Bool) (rows : ℕ) (cs ds : List ChunkedArray)
    → AreFull rows cs
    → AreSelected p cs ds
    → AllMaterialized ds
AreSelected-AllMaterialized p rows [] [] full selected = tt
AreSelected-AllMaterialized p rows [] (d ∷ ds) full selected = absurd selected
AreSelected-AllMaterialized p rows (c ∷ cs) [] full selected = absurd selected
AreSelected-AllMaterialized p rows (c ∷ cs) (d ∷ ds) full selected = (
  ap is_materialized selected.1 ∙ full.3,
  AreSelected-AllMaterialized p rows cs ds full.4 selected.5,
)

module _ (arrow : Arrow) (laws : ArrowLaws arrow) (bitmap : List ℕ) (rows : ℕ) (p : ℕ → Bool)
    (bits : rows ≤ length bitmap * 8) (limit : rows ≤ int_max)
    (same : (r : ℕ) → r < rows → bitmap_bit bitmap r ≡ p r) where
  materialize_columns-AreSelected :
      (cs : List ChunkedArray)
      → AreFull rows cs
      → (ds : List ChunkedArray) × (materialize_columns arrow bitmap cs ≡ ok ds)
        × AreSelected p cs ds
  unfolding materialize_columns
  materialize_columns-AreSelected [] full = ([], refl, tt)
  materialize_columns-AreSelected (c ∷ cs) full =
      let made =
        materialize_column-Materialized arrow laws c bitmap full.0 full.1
          (omega (arith, full.2, bits)) (omega (arith, full.2, limit)) in
      let (ds, runs, selected) = materialize_columns-AreSelected cs full.4 in
      let size : length (column_rows c.chunks) ≡ rows =
        ap length (column_rows-buffer_column c.chunks full.0)
        ∙ length-buffer_column c.chunks (IsWhole-IsStored c.chunks full.0)
        ∙ sym full.1
        ∙ full.2 in
      (
        made.out ∷ ds,
        rw (full.3, made.returns, runs) refl,
        (
          made.selected
              ∙ select_congr (bitmap_bit bitmap) p 0 (column_rows c.chunks)
                  (λ r h h'. same r (omega (arith, size))),
          made.same_type,
          made.well_made,
          made.full,
          made.counted,
          selected,
        ),
      )

-- The number of rows is the length of the first column, if there is one.
abbrev pub CountsFirst : ℕ → List ChunkedArray → Type 0
CountsFirst rows [] = Unit {0}
CountsFirst rows (c ∷ cs) = rows ≡ c.length

pub make_table-CountsFirst :
    (arrow : Arrow) (laws : ArrowLaws arrow) (schema : List Field) (ds : List ChunkedArray)
    → CountsFirst (arrow.make_table schema ds).num_rows ds
make_table-CountsFirst arrow laws schema [] = tt
make_table-CountsFirst arrow laws schema (d ∷ ds) = laws.rows_inferred schema d ds

-- The filter has returned a table with the rows at which `p` is true, and without a bitmap.
pub record Selected (p : ℕ → Bool) (table : Table) (result : Outcome ExecutionContext)
    : Type 0 where
  pub after : ExecutionContext
  pub returns : result ≡ ok after
  pub same_schema : after.table.schema ≡ table.schema
  pub columns_selected : AreSelected p table.columns after.table.columns
  pub no_bitmap : after.metadata.filter_bitmap ≡ none
  pub rows_counted : CountsFirst after.table.num_rows after.table.columns

-- A filterable table: it has fewer than 2 ^ 31 rows, its first column has a chunk, and its columns have
-- as many rows, no slices, and types that can be materialized.
abbrev pub IsFilterable : Table → Type 0
IsFilterable table =
    AreFull table.num_rows table.columns
    × (table.num_rows ≤ int_max)
    × (has_no_rows table.columns ≡ false)

module _ (arrow : Arrow) (laws : ArrowLaws arrow) where
  materialize_filter-Selected :
      (p : ℕ → Bool) (ctx : ExecutionContext) (bitmap : List ℕ)
      → ctx.metadata.filter_bitmap ≡ some bitmap
      → IsFilterable ctx.table
      → ctx.table.num_rows ≤ length bitmap * 8
      → ((r : ℕ) → r < ctx.table.num_rows → bitmap_bit bitmap r ≡ p r)
      → Selected p ctx.table (materialize_filter arrow ctx)
  unfolding materialize_filter
  materialize_filter-Selected p ctx bitmap e filterable bits same =
      let (ds, runs, selected) =
        materialize_columns-AreSelected arrow laws bitmap ctx.table.num_rows p bits filterable.1
          same ctx.table.columns filterable.0 in
      let new : Table = arrow.make_table ctx.table.schema ds in
      let kept = laws.columns_kept ctx.table.schema ds in
      let (ms, made) = new_context-AllMaterialized arrow new (
        rw kept (
          AreSelected-AllMaterialized p ctx.table.num_rows ctx.table.columns ds filterable.0
            selected)) in
      record {
        after = record { table = new; metadata = record { columns = ms; filter_bitmap = none } };
        returns = rw (e, runs) made;
        same_schema = laws.schema_kept ctx.table.schema ds;
        columns_selected = rw kept selected;
        no_bitmap = refl;
        rows_counted = rw kept (make_table-CountsFirst arrow laws ctx.table.schema ds);
      }

  module _ (floats : Floats) where
    generate_filter_bitmap-ok :
        (ctx : ExecutionContext) (expr : BooleanExpr) (s : Executor) (ms : List ColumnMetadata)
        → has_no_rows ctx.table.columns ≡ false
        → visit arrow floats ctx.table expr new_executor ≡ ok s
        → new_context arrow ctx.table
          ≡ ok (record {
            table = ctx.table;
            metadata = record { columns = ms; filter_bitmap = none };
          })
        → generate_filter_bitmap arrow floats ctx expr
          ≡ ok (record {
            table = ctx.table;
            metadata = record { columns = ms; filter_bitmap = result s };
          })
    unfolding generate_filter_bitmap
    generate_filter_bitmap-ok ctx expr s ms rows runs made = simp (rows, runs, made)

    result-eq :
        (s : Executor) (p : ℕ) {out : List ℕ}
        → s.buffer ≡ some p
        → get_elem? s.heap p ≡ some out
        → result s ≡ some out
    unfolding result
    result-eq s p e at = rw e at

    -- A condition whose comparisons are decided filters its table.
    pub filter_decided-Selected :
        (atom : RowMeaning) (ctx : ExecutionContext) (e : BooleanExpr)
        → IsFilterable ctx.table
        → IsDecided arrow floats laws ctx.table atom e
        → Selected
            (λ r. holds (atom r) e)
            ctx.table
            (generate_filter_bitmap arrow floats ctx e >>= materialize_filter arrow)
    filter_decided-Selected atom ctx e filterable decided =
        let seen =
          visit-Visited arrow floats laws ctx.table atom
            (omega (arith, laws.bitmap_tight ctx.table.num_rows, filterable.1)) e new_executor
            decided in
        let (ms, made) =
          new_context-AllMaterialized arrow ctx.table
            (AreFull-AllMaterialized ctx.table.num_rows ctx.table.columns filterable.0) in
        let mid : ExecutionContext = record {
          table = ctx.table;
          metadata = record { columns = ms; filter_bitmap = result seen.after };
        } in
        rw (generate_filter_bitmap-ok ctx e seen.after ms filterable.2 seen.returns made) (
          materialize_filter-Selected (λ r. holds (atom r) e) mid seen.out
            (result-eq seen.after seen.pointer seen.buffer_set seen.stored) filterable
            (omega (arith, laws.bitmap_fits ctx.table.num_rows, seen.bitmap.0)) seen.bitmap.1)

    pub filterable-new_context :
        (table : Table)
        → IsFilterable table
        → (ms : List ColumnMetadata) × (new_context arrow table
            ≡ ok (record {
              table = table;
              metadata = record { columns = ms; filter_bitmap = none };
            }))
    filterable-new_context table filterable =
        new_context-AllMaterialized arrow table
          (AreFull-AllMaterialized table.num_rows table.columns filterable.0)
