-- ===== src/Execution/Materialize/Whole.antt =====
-- Columns whose chunks are no slices, and those that the code makes.
use pefa.Base.{
  ℕ, ◌≤◌, ◌≡◌, refl, ap, ap₂, arith, List, [], ◌∷◌, ◌++◌, length, length-append, length-take, take,
  drop, none, true,
}
use pefa.Arrow.{TypeId, Array, total_length}
use pefa.Execution.Rows.{column_rows}
use pefa.Execution.Materialize.{chunk_size}
use pefa.Execution.Materialize.Remaining.{buffer_rows, buffer_column, IsStored}

-- Chunks that are no slices, with their rows in their buffers, which are mutable.
abbrev pub IsWhole : List Array → Type 0
IsWhole [] = Unit {0}
IsWhole (c ∷ cs) =
    (c.offset ≡ 0) × (c.length ≤ length c.values) × (c.is_mutable ≡ true) × IsWhole cs

-- Chunks as the code makes them: of one type, whole, mutable, without nulls and not too long.
abbrev pub IsMaterialized : TypeId → List Array → Type 0
IsMaterialized type [] = Unit {0}
IsMaterialized type (c ∷ cs) =
    (c.type ≡ type)
    × (c.offset ≡ 0)
    × (c.validity ≡ none)
    × (c.length ≤ chunk_size)
    × (c.length ≤ length c.values)
    × (c.is_mutable ≡ true)
    × IsMaterialized type cs

-- All chunks but the last, and there is one, are of the full size.
abbrev pub AllButLastFull : List Array → Type 0
AllButLastFull [] = ⊥
AllButLastFull (c ∷ []) = Unit {0}
AllButLastFull (c ∷ d ∷ ds) = (c.length ≡ chunk_size) × AllButLastFull (d ∷ ds)

pub IsWhole-IsStored : (cs : List Array) → IsWhole cs → IsStored cs
IsWhole-IsStored [] h = tt
IsWhole-IsStored (c ∷ cs) h = (h.1, h.2, IsWhole-IsStored cs h.3)

pub IsMaterialized-IsWhole : (type : TypeId) (cs : List Array) → IsMaterialized type cs → IsWhole cs
IsMaterialized-IsWhole type [] h = tt
IsMaterialized-IsWhole type (c ∷ cs) h = (h.1, h.4, h.5, IsMaterialized-IsWhole type cs h.6)

pub nothing_left : (xs : List ℕ) → length xs ≡ 0 → xs ≡ []
nothing_left [] h = refl
nothing_left (x ∷ xs) h = absurd (omega arith)

-- The rows of such chunks are those in their buffers.
pub column_rows-buffer_column : (cs : List Array) → IsWhole cs → column_rows cs ≡ buffer_column cs
column_rows-buffer_column [] h = refl
column_rows-buffer_column (c ∷ cs) h =
    ap₂ ◌++◌ (ap (λ (o : ℕ). take c.length (drop o c.values)) h.0)
      (column_rows-buffer_column cs h.3)

pub length-buffer_column :
    (cs : List Array) → IsStored cs → length (buffer_column cs) ≡ total_length cs
unfolding total_length
length-buffer_column [] h = refl
length-buffer_column (c ∷ cs) h = omega (
  arith,
  length-append (buffer_rows c) (buffer_column cs),
  length-take c.length c.values,
  length-buffer_column cs h.2,
)
