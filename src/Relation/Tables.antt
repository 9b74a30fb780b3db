-- ===== src/Relation/Tables.antt =====
-- The tables that a query can be run on, and that it makes.
use mathlib.Core.Path.{subst}
use pefa.Base.{
  ℕ, zero, suc, ◌+◌, ◌%◌, ◌^◌, ◌≤◌, ◌<◌, ◌≡◌, ◌∙◌, refl, ap, sym, arith, Bool, true, false, inl,
  List, [], ◌∷◌, length, get_or, get_elem?, none, some, AllBelow,
}
use pefa.Arrow.{TypeId, Array, ChunkedArray, Table, total_length}
use pefa.Kernel.Ir.{int_width}
use pefa.Kernel.Numbers.{number_of, element_of}
use pefa.Execution.Rows.{IsLaidOut, column_rows, length-column_rows}
use pefa.Execution.Filter.{has_no_rows}
use pefa.Execution.Counter.{int_max}
use pefa.Execution.Materialize.{is_materialized}
use pefa.Execution.Materialize.Whole.{IsWhole, IsMaterialized, AllButLastFull}
use pefa.Execution.Selection.{AreFull, IsFilterable, CountsFirst}
use pefa.Relation.{cells_at}

-- The patterns of a type of numbers are below this bound.
abbrev pub pattern_limit : TypeId → ℕ
pattern_limit type = elim (number_of type) [ none ↦ 0 | some n ↦ 2 ^ int_width (element_of n) ]

abbrev pub has_chunk : List Array → Bool
has_chunk [] = false
has_chunk (c ∷ cs) = true

abbrev pub AreMutable : List Array → Type 0
AreMutable [] = Unit {0}
AreMutable (c ∷ cs) = (c.is_mutable ≡ true) × AreMutable cs

-- A column of `rows` rows, in chunks on which a filter is right, in mutable buffers, of a type that can be
-- materialized.
pub record IsColumn (rows : ℕ) (c : ChunkedArray) : Type 0 where
  pub laid_out : IsLaidOut c.type 0 c.chunks
  pub counted : c.length ≡ total_length c.chunks
  pub same_rows : c.length ≡ rows
  pub materialized : is_materialized c.type ≡ true
  pub chunked : has_chunk c.chunks ≡ true
  pub stored_mutable : AreMutable c.chunks
  pub patterns : AllBelow (pattern_limit c.type) (column_rows c.chunks)

abbrev pub AreColumns : ℕ → List ChunkedArray → Type 0
AreColumns rows [] = Unit {0}
AreColumns rows (c ∷ cs) = IsColumn rows c × AreColumns rows cs

abbrev pub has_column : List ChunkedArray → Bool
has_column [] = false
has_column (c ∷ cs) = true

-- A table of at least one column, and of fewer than 2 ^ 31 rows.
pub record IsTable (table : Table) : Type 0 where
  pub columns_valid : AreColumns table.num_rows table.columns
  pub limit : table.num_rows ≤ int_max
  pub some_column : has_column table.columns ≡ true

pub length-column :
    (rows : ℕ) (c : ChunkedArray) → IsColumn rows c → length (column_rows c.chunks) ≡ rows
length-column rows c h =
    length-column_rows c.type 0 c.chunks h.laid_out ∙ sym h.counted ∙ h.same_rows

pub IsLaidOut-IsWhole :
    (type : TypeId) (off : ℕ) (cs : List Array) → IsLaidOut type off cs → AreMutable cs → IsWhole cs
IsLaidOut-IsWhole type off [] h m = tt
IsLaidOut-IsWhole type off (c ∷ cs) h m =
    (h.1, h.2, m.0, IsLaidOut-IsWhole type (off + c.length) cs h.5 m.1)

AreColumns-AreFull : (rows : ℕ) (cs : List ChunkedArray) → AreColumns rows cs → AreFull rows cs
AreColumns-AreFull rows [] h = tt
AreColumns-AreFull rows (c ∷ cs) (col, cols) = (
  IsLaidOut-IsWhole c.type 0 c.chunks col.laid_out col.stored_mutable,
  col.counted,
  col.same_rows,
  col.materialized,
  AreColumns-AreFull rows cs cols,
)

-- The first column has a chunk.
first_chunk :
    (rows : ℕ) (cs : List ChunkedArray)
    → AreColumns rows cs
    → has_column cs ≡ true
    → has_no_rows cs ≡ false
unfolding has_no_rows
first_chunk rows [] h some_column = cc
first_chunk rows (c ∷ cs) h some_column = has_chunk-cases c.chunks h.0.chunked
  where
    has_chunk-cases :
        (chunks : List Array)
        → has_chunk chunks ≡ true
        → (elim chunks [ [] ↦ true | x ∷ xs ↦ false ]) ≡ false
    has_chunk-cases [] h = cc
    has_chunk-cases (d ∷ ds) h = refl

pub IsTable-IsFilterable : (table : Table) → IsTable table → IsFilterable table
IsTable-IsFilterable table h = (
  AreColumns-AreFull table.num_rows table.columns h.columns_valid,
  h.limit,
  first_chunk table.num_rows table.columns h.columns_valid h.some_column,
)

pub AreColumns-IsColumn :
    (rows : ℕ) (cs : List ChunkedArray) (i : ℕ) {c : ChunkedArray}
    → AreColumns rows cs
    → get_elem? cs i ≡ some c
    → IsColumn rows c
AreColumns-IsColumn rows [] i h found = cc
AreColumns-IsColumn rows (d ∷ ds) zero {c} h found =
    let e : d ≡ c = cc in subst (IsColumn rows) e h.0
AreColumns-IsColumn rows (d ∷ ds) (suc i) h found = AreColumns-IsColumn rows ds i h.1 found

pub AllBelow-get_or :
    (n : ℕ) (xs : List ℕ) (i : ℕ) → AllBelow n xs → i < length xs → get_or xs i 0 < n
AllBelow-get_or n [] i h below = absurd (omega arith)
AllBelow-get_or n (x ∷ xs) zero h below = h.0
AllBelow-get_or n (x ∷ xs) (suc i) h below = AllBelow-get_or n xs i h.1 (omega arith)

-- The number of rows is that of the first column.
pub counted_columns :
    (rows n : ℕ) (cs : List ChunkedArray)
    → AreColumns rows cs
    → CountsFirst n cs
    → has_column cs ≡ true
    → n ≡ rows
counted_columns rows n [] valid counts h = cc
counted_columns rows n (c ∷ cs) valid counts h = counts ∙ valid.0.same_rows

-- A cell of a row is a row of its column.
pub cells_at-column :
    (cs : List ChunkedArray) (i r : ℕ) {c : ChunkedArray}
    → get_elem? cs i ≡ some c
    → get_or (cells_at cs r) i 0 ≡ get_or (column_rows c.chunks) r 0
cells_at-column [] i r h = cc
cells_at-column (d ∷ ds) zero r {c} h =
    let e : d ≡ c = cc in ap (λ (x : ChunkedArray). get_or (column_rows x.chunks) r 0) e
cells_at-column (d ∷ ds) (suc i) r h = cells_at-column ds i r h

-- Chunks as the code makes them are such that a filter is right on them.
pub IsMaterialized-IsLaidOut :
    (type : TypeId) (off : ℕ) (cs : List Array)
    → IsMaterialized type cs
    → AllButLastFull cs
    → off % 8 ≡ 0
    → IsLaidOut type off cs
IsMaterialized-IsLaidOut type off [] made full at = absurd full
IsMaterialized-IsLaidOut type off (c ∷ []) made full at =
    (made.0, made.1, made.4, omega (arith, made.3), inl at, tt)
IsMaterialized-IsLaidOut type off (c ∷ d ∷ ds) made full at = (
  made.0,
  made.1,
  made.4,
  omega (arith, made.3),
  inl at,
  IsMaterialized-IsLaidOut type (off + c.length) (d ∷ ds) made.6 full.1 (omega (arith, full.0)),
)

pub IsMaterialized-AreMutable :
    (type : TypeId) (cs : List Array) → IsMaterialized type cs → AreMutable cs
IsMaterialized-AreMutable type [] made = tt
IsMaterialized-AreMutable type (c ∷ cs) made = (made.5, IsMaterialized-AreMutable type cs made.6)
