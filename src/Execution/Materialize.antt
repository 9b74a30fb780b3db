-- ===== src/Execution/Materialize.antt =====
-- `materialize_column` and `materialize_filter` of pefa/execution/execution.cpp. The template
-- argument only sets the size of an element, so one function stands for all its instances.
pub mod Whole
pub mod Remaining
pub mod Select
pub mod Copy
pub mod Fill
pub mod Column
pub mod Immutable
use Prim.Native.String.{◌++◌ as append}
use pefa.Base.{
  ℕ, zero, suc, ◌+◌, ◌-◌, ◌*◌, ◌/◌, ◌%◌, ◌^◌, ltb, ◌==◌, if◌then◌else◌, Bool, true, false, ◌&&◌,
  List, [], ◌∷◌, ◌++◌, length, get_elem?, set, Option, none, some, Outcome, ok, throw, fault, Fault,
  ◌>>=◌, deref, unreachable, not_implemented,
}
use pefa.Arrow.{TypeId, Arrow, Array, ChunkedArray, Table, mutable_data}
use pefa.Execution.Counter.{increment}
use pefa.Execution.Context.{ExecutionContext, new_context}

-- `2 << 13`
abbrev pub chunk_size : ℕ
chunk_size = 2 * 2 ^ 13

-- The variables of the loops. `current_chunk` is the list of the chunks from it on.
pub record Cursor : Type 0 where
  pub current_chunk : List Array
  pub current_chunk_pos : ℕ
  pub total_elements_pos : ℕ
  pub new_chunk_pos : ℕ
  pub data_out : List ℕ

-- `(bitmap[i / 8] >> (7 - (i % 8))) & 1`
unfoldable pub read_bit : List ℕ → ℕ → Outcome ℕ
read_bit bitmap i = do
  byte ← deref (get_elem? bitmap (i / 8)) Fault.out_of_bounds
  ok (byte / 2 ^ (7 - i % 8) % 2)

-- `data_out[i] = v`
unfoldable store : List ℕ → ℕ → ℕ → Outcome (List ℕ)
store data_out i v =
    if ltb i (length data_out) then ok (set data_out i v) else fault Fault.out_of_bounds

module _ (bitmap : List ℕ) where
  unfoldable pub copy_row : Array → Cursor → Outcome Cursor
  unfolding store increment mutable_data
  copy_row chunk s = do
    chunk_data ← deref (mutable_data chunk) Fault.null_pointer
    v ← deref (get_elem? chunk_data s.current_chunk_pos) Fault.out_of_bounds
    data_out ← store s.data_out s.new_chunk_pos v
    bit ← read_bit bitmap s.total_elements_pos
    chunk_pos ← increment s.current_chunk_pos
    total_pos ← increment s.total_elements_pos
    ok (record s {
      current_chunk_pos = chunk_pos;
      total_elements_pos = total_pos;
      new_chunk_pos = s.new_chunk_pos + bit;
      data_out = data_out;
    })

  -- The `for` loop, with the rows of the chunk that are left.
  unfoldable pub copy_rows : ℕ → Array → Cursor → Outcome Cursor
  unfolding copy_row
  copy_rows zero chunk s = ok s
  copy_rows (suc rows) chunk s =
      if ltb s.new_chunk_pos chunk_size then copy_row chunk s >>= copy_rows rows chunk else ok s

  -- The `while` loop. Where the `for` loop ends before its chunk, the new chunk is full, and so
  -- the `while` loop ends too.
  unfoldable pub fill_chunk : ℕ → List Array → Cursor → Outcome Cursor
  unfolding copy_rows
  fill_chunk total [] s =
      if ltb s.new_chunk_pos chunk_size && ltb s.total_elements_pos total
      then fault Fault.out_of_bounds
      else ok s
  fill_chunk total (chunk ∷ chunks) s =
      if ltb s.new_chunk_pos chunk_size && ltb s.total_elements_pos total
      then (copy_rows (chunk.length - s.current_chunk_pos) chunk s >>= λ s'.
          if s'.current_chunk_pos == chunk.length
          then fill_chunk total chunks (record s' { current_chunk = chunks; current_chunk_pos = 0 })
          else ok s')
      else ok s

-- The variables before the `do` loop.
unfoldable pub start : List Array → Cursor
start chunks = record {
  current_chunk = chunks;
  current_chunk_pos = 0;
  total_elements_pos = 0;
  new_chunk_pos = 0;
  data_out = [];
}

-- The `switch` on a column's type.
unfoldable pub is_materialized : TypeId → Bool
is_materialized TypeId.int8 = true
is_materialized TypeId.int16 = true
is_materialized TypeId.int32 = true
is_materialized TypeId.int64 = true
is_materialized TypeId.uint8 = true
is_materialized TypeId.uint16 = true
is_materialized TypeId.uint32 = true
is_materialized TypeId.uint64 = true
is_materialized TypeId.float = true
is_materialized TypeId.double = true
is_materialized _ = false

module _ (arrow : Arrow) where
  -- One round of the `do` loop: the new chunk and the cursor behind it.
  unfoldable pub next_chunk : ℕ → TypeId → List ℕ → Cursor → Outcome (Array × Cursor)
  unfolding fill_chunk
  next_chunk total type bitmap s = do
    let buffer = arrow.allocate_buffer chunk_size
    s' ← fill_chunk bitmap total s.current_chunk (record s { new_chunk_pos = 0; data_out = buffer })
    ok (
      record {
        type = type;
        length = s'.new_chunk_pos;
        offset = 0;
        validity = none;
        values = s'.data_out;
        is_mutable = true;
      },
      s',
    )

  unfoldable pub materialize_chunks : ℕ → ℕ → TypeId → List ℕ → Cursor → Outcome (List Array)
  unfolding next_chunk
  materialize_chunks zero total type bitmap s = fault Fault.no_fuel
  materialize_chunks (suc fuel) total type bitmap s = do
    (chunk, s') ← next_chunk total type bitmap s
    let more = materialize_chunks fuel total type bitmap s'
    rest ← if ltb s'.total_elements_pos total then more else ok []
    ok (chunk ∷ rest)

  unfoldable pub materialize_column : ChunkedArray → List ℕ → Outcome ChunkedArray
  unfolding materialize_chunks start
  materialize_column column bitmap = do
    new_column ←
        materialize_chunks (suc column.length) column.length column.type bitmap
          (start column.chunks)
    ok (arrow.make_chunked new_column)

  unfoldable pub materialize_columns : List ℕ → List ChunkedArray → Outcome (List ChunkedArray)
  unfolding materialize_column is_materialized
  materialize_columns bitmap [] = ok []
  materialize_columns bitmap (col ∷ cols) = do
    new ←
        if is_materialized col.type
        then materialize_column col bitmap
        else throw (
            not_implemented
              (append "Type " (append (arrow.to_string col.type) " is not supported yet")))
    rest ← materialize_columns bitmap cols
    ok (new ∷ rest)

  unfoldable pub materialize_filter : ExecutionContext → Outcome ExecutionContext
  unfolding materialize_columns new_context
  materialize_filter ctx = elim (ctx.metadata.filter_bitmap) [
    | none ↦ throw unreachable
    | some bitmap ↦ do
      columns ← materialize_columns bitmap ctx.table.columns
      new_context arrow (arrow.make_table ctx.table.schema columns)
  ]
