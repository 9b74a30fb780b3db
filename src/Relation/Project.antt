-- ===== src/Relation/Project.antt =====
-- A projection picks cells.
use mathlib.Core.List.{map-map}
use mathlib.Core.Path.{subst}
use pefa.Base.{
  ℕ, zero, suc, ◌<◌, ◌≡◌, ◌∙◌, refl, ap, ap₂, sym, arith, true, List, [], ◌∷◌, length, map, get_or,
  get_elem?, String, some, Outcome, ok,
}
use pefa.Arrow.{TypeId, Arrow, ArrowLaws, Field, ChunkedArray, Table, get_column_by_name}
use pefa.Execution.Context.{ExecutionContext}
use pefa.Execution.Project.{project}
use pefa.Execution.Project.Columns.{AreNamed, none_named, one_named, fields_of, project-Projection}
use pefa.Execution.Selection.{make_table-CountsFirst}
use pefa.Relation.{
  Header, type_at, cell_at, restrict_header, restrict, AllNames, header_of, cells_at, row_of,
  rows_of,
}
use pefa.Relation.Lists.{upto, length-map, map_congr}
use pefa.Relation.Tables.{
  AreColumns, IsTable, AreColumns-IsColumn, has_column, counted_columns, cells_at-column,
}

get_elem?-some :
    {A : Type 0} (xs : List A) (i : ℕ) → i < length xs → (a : A) × (get_elem? xs i ≡ some a)
get_elem?-some [] i h = absurd (omega arith)
get_elem?-some (x ∷ xs) zero h = (x, refl)
get_elem?-some (x ∷ xs) (suc i) h = get_elem?-some xs i (omega arith)

type-of-column :
    (cs : List ChunkedArray) (i : ℕ) {c : ChunkedArray}
    → get_elem? cs i ≡ some c
    → get_or (map (λ (d : ChunkedArray). d.type) cs) i TypeId.na ≡ c.type
type-of-column [] i h = cc
type-of-column (d ∷ ds) zero {c} h = let e : d ≡ c = cc in ap (λ (x : ChunkedArray). x.type) e
type-of-column (d ∷ ds) (suc i) h = type-of-column ds i h

module _ (arrow : Arrow) (table : Table) (valid : IsTable table) where
  -- The columns that names find, with their types and cells.
  record Picked (names : List String) : Type 0 where
    pub columns : List ChunkedArray
    pub named : AreNamed arrow table names columns
    pub columns_valid : AreColumns table.num_rows columns
    pub fields : fields_of names columns ≡ (restrict_header arrow names (header_of table)).schema
    pub types :
        map (λ (c : ChunkedArray). c.type) columns ≡ map (type_at arrow (header_of table)) names
    pub cells : (r : ℕ) → cells_at columns r ≡ map (cell_at arrow (row_of table r)) names

  AllNames-Picked : (names : List String) → AllNames arrow (header_of table) names → Picked names
  unfolding get_column_by_name get_elem?-some
  AllNames-Picked [] h = record {
    columns = [];
    named = none_named;
    columns_valid = tt;
    fields = refl;
    types = refl;
    cells = λ r. refl;
  }
  AllNames-Picked (name ∷ names) ((i, found, inside), others) =
      let rest = AllNames-Picked names others in
      let (c, at) =
        get_elem?-some table.columns i
          (omega (arith, length-map (λ (c : ChunkedArray). c.type) table.columns)) in
      let col = AreColumns-IsColumn table.num_rows table.columns i valid.columns_valid at in
      let type : type_at arrow (header_of table) name ≡ c.type =
        rw (found, type_at) (type-of-column table.columns i at) in
      record {
        columns = c ∷ rest.columns;
        named = one_named (rw (found, get_column_by_name) at) col.materialized rest.named;
        columns_valid = (col, rest.columns_valid);
        fields =
            ap₂ (λ (t : TypeId) (fs : List Field). record { name = name; type = t } ∷ fs) (sym type)
              rest.fields;
        types = ap₂ ◌∷◌ (sym type) rest.types;
        cells = λ r.
            ap₂ ◌∷◌ (sym (rw (found, cell_at) (cells_at-column table.columns i r at)))
              (rest.cells r);
      }

some_columns :
    {t : TypeId} {ts : List TypeId} (cs : List ChunkedArray)
    → map (λ (c : ChunkedArray). c.type) cs ≡ t ∷ ts
    → has_column cs ≡ true
some_columns [] h = cc
some_columns (c ∷ cs) h = refl

-- The table that a projection has made of a table, with its rows.
pub record Projected (arrow : Arrow) (names : List String) (table : Table)
    (result : Outcome ExecutionContext) : Type 0 where
  pub after : ExecutionContext
  pub returns : result ≡ ok after
  pub valid : IsTable after.table
  pub header_restricted : header_of after.table ≡ restrict_header arrow names (header_of table)
  pub rows_restricted : rows_of after.table ≡ map (restrict arrow names) (rows_of table)

module _ (arrow : Arrow) (laws : ArrowLaws arrow) where
  -- For a table of at least one column and fewer than 2 ^ 31 rows, each of whose columns has as
  -- many rows, at least one chunk, and one of the ten types that can be materialized (the
  -- integers of 8 to 64 bits, float and double), and each of whose chunks is of its column's
  -- type, is no slice, has its rows in a mutable buffer as bit patterns of that type, has fewer
  -- than 2 ^ 57 of them, and starts at a multiple of 8 rows or reaches the end of the byte of
  -- the bitmap that it starts in, also when its length is cut down to 8 bits, and for names
  -- that its header has, at least one: a projection returns a table whose header and rows are
  -- those of the table, restricted to the names.
  pub project-Projected :
      (ctx : ExecutionContext) (name : String) (names : List String)
      → IsTable ctx.table
      → AllNames arrow (header_of ctx.table) (name ∷ names)
      → Projected arrow (name ∷ names) ctx.table (project arrow ctx (name ∷ names))
  project-Projected ctx name names valid all =
      let picked = AllNames-Picked arrow ctx.table valid (name ∷ names) all in
      let all_names = name ∷ names in
      let cs = picked.columns in
      let run = project-Projection arrow laws ctx all_names cs picked.named in
      let columns : run.after.table.columns ≡ cs =
        ap (λ (t : Table). t.columns) (run.made) ∙ laws.columns_kept (fields_of all_names cs) cs in
      let schema : run.after.table.schema
          ≡ (restrict_header arrow all_names (header_of ctx.table)).schema =
        ap (λ (t : Table). t.schema) (run.made)
        ∙ laws.schema_kept (fields_of all_names cs) cs
        ∙ picked.fields in
      let one_column = some_columns cs picked.types in
      let count : run.after.table.num_rows ≡ ctx.table.num_rows =
        ap (λ (t : Table). t.num_rows) (run.made)
        ∙ counted_columns ctx.table.num_rows _ cs picked.columns_valid
            (make_table-CountsFirst arrow laws _ cs) one_column in
      let header : header_of run.after.table
          ≡ restrict_header arrow all_names (header_of ctx.table) =
        ap₂
          (λ (fields : List Field) (types : List TypeId). record { schema = fields; types = types })
          schema (ap (map (λ (c : ChunkedArray). c.type)) columns ∙ picked.types) in
      record {
        after = run.after;
        returns = run.returns;
        valid = record {
          columns_valid =
              subst (λ (k : ℕ). AreColumns k run.after.table.columns) (sym count)
                (subst (AreColumns ctx.table.num_rows) (sym columns) picked.columns_valid);
          limit = omega (arith, count, valid.limit);
          some_column = ap has_column columns ∙ one_column;
        };
        header_restricted = header;
        rows_restricted =
            ap (λ (k : ℕ). map (row_of run.after.table) (upto 0 k)) count
            ∙ map_congr (row_of run.after.table)
                (λ (r : ℕ). restrict arrow all_names (row_of ctx.table r)) 0 ctx.table.num_rows
                (λ r lo hi.
                  ap₂ (λ (h : Header) (cells : List ℕ). record { header = h; cells = cells }) header
                    (ap (λ (ds : List ChunkedArray). cells_at ds r) columns ∙ picked.cells r))
            ∙ sym (map-map _ _ (upto 0 ctx.table.num_rows));
      }
