-- ===== src/Execution/Rows.antt =====
-- The rows of a column, over its chunks, and the layouts on which a filter is right.
use Prim.Native.Nat.add
use pefa.Base.{
  ℕ, ◌+◌, ◌%◌, ◌^◌, ◌≤◌, ◌<◌, ◌≡◌, refl, ap, sym, ◌∙◌, arith, ◌⊎◌, List, [], ◌∷◌, ◌++◌, length,
  get_or, take, drop, length-append, length-take, get_or-append_left, get_or-take,
}
use pefa.Arrow.{TypeId, Array, total_length}

-- What Arrow takes for the rows of a chunk.
abbrev chunk_rows : Array → List ℕ
chunk_rows c = take c.length (drop c.offset c.values)

abbrev pub column_rows : List Array → List ℕ
column_rows [] = []
column_rows (c ∷ cs) = chunk_rows c ++ column_rows cs

-- The chunks of a column of type `type`, the first of whose rows is row `off` of the table. No
-- chunk is a slice of a longer one, and all rows are in the buffer. A chunk that starts within a
-- byte of the bitmap reaches the end of that byte, also when its length is cut down to 8 bits.
abbrev pub IsLaidOut : TypeId → ℕ → List Array → Type 0
IsLaidOut type off [] = Unit {0}
IsLaidOut type off (c ∷ cs) =
    (c.type ≡ type)
    × (c.offset ≡ 0)
    × (c.length ≤ length c.values)
    × (c.length < 2 ^ 57)
    × ((off % 8 ≡ 0) ⊎ (8 ≤ off % 8 + c.length % 256))
    × IsLaidOut type (off + c.length) cs

pub total_length-append :
    (cs : List Array) (c : Array) → total_length (cs ++ c ∷ []) ≡ total_length cs + c.length
unfolding total_length
total_length-append [] c = omega arith
total_length-append (d ∷ cs) c = omega (arith, total_length-append cs c)

get_or-append_right {ℓ} :
    {A : Type ℓ} (xs ys : List A) (i : ℕ) (d : A)
    → get_or (xs ++ ys) (length xs + i) d ≡ get_or ys i d
get_or-append_right [] ys i d = rw add.zero
get_or-append_right (x ∷ xs) ys i d = rw add.suc (get_or-append_right xs ys i d)

length-chunk_rows :
    (c : Array) → c.offset ≡ 0 → c.length ≤ length c.values → length (chunk_rows c) ≡ c.length
length-chunk_rows c e h = rw e (omega (arith, length-take c.length c.values))

pub length-column_rows :
    (type : TypeId) (off : ℕ) (cs : List Array)
    → IsLaidOut type off cs
    → length (column_rows cs) ≡ total_length cs
unfolding total_length
length-column_rows type off [] laid = refl
length-column_rows type off (c ∷ cs) laid = omega (
  arith,
  length-append (chunk_rows c) (column_rows cs),
  length-chunk_rows c laid.1 laid.2,
  length-column_rows type (off + c.length) cs laid.5,
)

-- The rows of the first chunk, and those behind it.
pub get_or-column_rows :
    (c : Array) (cs : List Array) (k : ℕ)
    → c.offset ≡ 0
    → c.length ≤ length c.values
    → k < c.length
    → get_or (column_rows (c ∷ cs)) k 0 ≡ get_or c.values k 0
get_or-column_rows c cs k e h below =
    get_or-append_left (chunk_rows c) (column_rows cs) k 0 (rw (length-chunk_rows c e h) below)
    ∙ rw e (get_or-take c.length c.values k 0 below)

pub get_or-column_rows_tail :
    (c : Array) (cs : List Array) (k : ℕ)
    → c.offset ≡ 0
    → c.length ≤ length c.values
    → get_or (column_rows (c ∷ cs)) (c.length + k) 0 ≡ get_or (column_rows cs) k 0
get_or-column_rows_tail c cs k e h =
    ap (λ (t : ℕ). get_or (column_rows (c ∷ cs)) (t + k) 0) (sym (length-chunk_rows c e h))
    ∙ get_or-append_right (chunk_rows c) (column_rows cs) k 0
