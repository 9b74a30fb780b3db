-- ===== src/Relation.antt =====
-- What the interface promises, without chunks, bitmaps and plans that are optimized: a table is a
-- header and a list of rows, a projection picks cells, and a filter drops rows.
pub mod Lists
pub mod Tables
pub mod Atoms
pub mod Filter
pub mod Project
use pefa.Base.{
  ℕ, ◌≡◌, ◌<◌, true, false, Bool, List, [], ◌∷◌, map, String, Option, none, some, get_or, get_elem?,
  length,
}
use text.Mathlib.Text.{◌==◌ as str_eq}
use pefa.Arrow.{TypeId, Arrow, Field, ChunkedArray, Table}
use pefa.Expressions.{BooleanExpr, ColumnRef, Literal, CompareOp}
use pefa.Expressions.Meaning.{AllAtoms}
use pefa.Kernel.Ir.{Floats}
use pefa.Kernel.Numbers.{Number, number_of, compare_number, Admits}
use pefa.Execution.Rows.{column_rows}
use pefa.Plan.{Plan, source, projection_node, filter_node, materialize_filter_node}
use pefa.Relation.Lists.{upto}

pub record Header : Type 0 where
  pub schema : List Field
  pub types : List TypeId

pub record Row : Type 0 where
  pub header : Header
  pub cells : List ℕ

module _ (arrow : Arrow) where
  abbrev pub position : Header → String → Option ℕ
  position h name = arrow.field_index h.schema name

  -- The type and the cell of a name; a name that is missing has none.
  abbrev pub type_at : Header → String → TypeId
  type_at h name = elim (position h name) [ none ↦ TypeId.na | some i ↦ get_or h.types i TypeId.na ]

  abbrev pub cell_at : Row → String → ℕ
  cell_at row name = elim (position row.header name) [ none ↦ 0 | some i ↦ get_or row.cells i 0 ]

  -- A comparison in a row, by the type of the column that it names.
  abbrev pub row_atom : Floats → Row → ColumnRef → Literal → CompareOp → Bool
  row_atom floats row c l op =
      compare_number floats (number_of (type_at row.header c.name)) op (cell_at row c.name) l

  abbrev pub restrict_header : List String → Header → Header
  restrict_header names h = record {
    schema = map (λ (name : String). record { name = name; type = type_at h name }) names;
    types = map (type_at h) names;
  }

  abbrev pub restrict : List String → Row → Row
  restrict names row = record {
    header = restrict_header names row.header;
    cells = map (cell_at row) names;
  }

  -- The header behind a plan.
  abbrev pub header_after : Plan → Header → Header
  header_after source h = h
  header_after (projection_node input fields) h = restrict_header fields (header_after input h)
  header_after (filter_node input expr) h = header_after input h
  header_after (materialize_filter_node input) h = header_after input h

  -- The header has a column of that name.
  abbrev pub HasName : Header → String → Type 0
  HasName h name = (i : ℕ) × (position h name ≡ some i) × (i < length h.types)

  abbrev pub AllNames : Header → List String → Type 0
  AllNames h [] = Unit {0}
  AllNames h (name ∷ names) = HasName h name × AllNames h names

  -- A column of numbers, under its own name and type, and a literal to compare it with.
  pub record Comparable (h : Header) (c : ColumnRef) (l : Literal) : Type 0 where
    pub index : ℕ
    pub found : position h c.name ≡ some index
    pub field : Field
    pub field_found : get_elem? h.schema index ≡ some field
    pub type_found : get_elem? h.types index ≡ some field.type
    pub same_name : str_eq c.name field.name ≡ true
    pub number : Number
    pub is_number : number_of field.type ≡ some number
    pub admits : Admits (some number) l

  -- A condition that compares columns of numbers, without constants.
  abbrev pub IsCondition : Header → BooleanExpr → Type 0
  IsCondition h = AllAtoms (λ b. ⊥) (λ c l op. Comparable h c l)

  -- A plan whose projections name columns, at least one, and whose conditions are such conditions,
  -- on the headers where they stand.
  abbrev pub IsTyped : Plan → Header → Type 0
  IsTyped source h = Unit {0}
  IsTyped (projection_node input []) h = ⊥
  IsTyped (projection_node input (name ∷ names)) h =
      IsTyped input h × AllNames (header_after input h) (name ∷ names)
  IsTyped (filter_node input expr) h = IsTyped input h × IsCondition (header_after input h) expr
  IsTyped (materialize_filter_node input) h = IsTyped input h

-- What a table of Arrow stands for.
abbrev pub header_of : Table → Header
header_of table = record {
  schema = table.schema;
  types = map (λ (c : ChunkedArray). c.type) table.columns;
}

abbrev pub cells_at : List ChunkedArray → ℕ → List ℕ
cells_at columns r = map (λ (c : ChunkedArray). get_or (column_rows c.chunks) r 0) columns

abbrev pub row_of : Table → ℕ → Row
row_of table r = record { header = header_of table; cells = cells_at table.columns r }

abbrev pub rows_of : Table → List Row
rows_of table = map (row_of table) (upto 0 table.num_rows)
