-- ===== src/Execution/Materialize/Column.antt =====
-- A column with the rows that a bitmap selects.
use pefa.Base.{
  ℕ, zero, suc, ◌+◌, ◌*◌, ◌≤◌, ◌<◌, ◌≡◌, ◌∙◌, refl, ap, sym, arith, ltb, if◌then◌else◌, Bool-cases,
  inl, inr, List, [], ◌∷◌, ◌++◌, length, none, Outcome, ok, ◌>>=◌, true,
}
use pefa.Arrow.{TypeId, Arrow, ArrowLaws, Array, ChunkedArray, total_length}
use pefa.Bitmap.Bits.{bitmap_bit}
use pefa.Execution.Rows.{column_rows}
use pefa.Execution.Counter.{int_max}
use pefa.Execution.Materialize.{
  Cursor, chunk_size, next_chunk, materialize_chunks, materialize_column, start,
}
use pefa.Execution.Materialize.Select.{select}
use pefa.Execution.Materialize.Copy.{kept}
use pefa.Execution.Materialize.Fill.{Position, Filled, fill_chunk-Filled}
use pefa.Execution.Materialize.Remaining.{
  buffer_column, IsStored, remaining, remaining_zero, Inside-zero,
}
use pefa.Execution.Materialize.Whole.{
  AllButLastFull, IsWhole, IsMaterialized, IsWhole-IsStored, IsMaterialized-IsWhole, nothing_left,
  column_rows-buffer_column, length-buffer_column,
}

-- The cursor with a new chunk begun.
abbrev begun : Arrow → Cursor → Cursor
begun arrow s = record s { new_chunk_pos = 0; data_out = arrow.allocate_buffer chunk_size }

abbrev chunk_of : TypeId → Cursor → Array
chunk_of type t = record {
  type = type;
  length = t.new_chunk_pos;
  offset = 0;
  validity = none;
  values = t.data_out;
  is_mutable = true;
}

module _ (arrow : Arrow) (laws : ArrowLaws arrow) (type : TypeId) (bitmap : List ℕ) (total : ℕ)
    (bits : total ≤ length bitmap * 8) (limit : total ≤ int_max) where
  next_chunk_lem :
      (s : Cursor)
      → Position bitmap total s.current_chunk (begun arrow s)
      → (t : Cursor) × (next_chunk arrow total type bitmap s ≡ ok (chunk_of type t, t))
        × Filled bitmap total s.current_chunk (begun arrow s) t
  unfolding next_chunk
  next_chunk_lem s here =
      let (t, runs, filled) =
        fill_chunk-Filled bitmap total bits limit s.current_chunk (begun arrow s) refl here in
      (t, rw runs, filled)

  -- The cursor of the next round.
  Position-begun :
      (t : Cursor)
      → Position bitmap total t.current_chunk t
      → Position bitmap total t.current_chunk (begun arrow t)
  Position-begun t here = record {
    stored = here.stored;
    inside = here.inside;
    behind = here.behind;
    buffer = laws.buffer_fits chunk_size;
    room = omega arith;
    counted = here.counted;
  }

  -- What the rounds from a cursor on make.
  record Made (s : Cursor) (result : Outcome (List Array)) : Type 0 where
    pub first : Array
    pub others : List Array
    pub returns : result ≡ ok (first ∷ others)
    pub selected :
        buffer_column (first ∷ others)
        ≡ select
            (bitmap_bit bitmap)
            s.total_elements_pos
            (remaining s.current_chunk s.current_chunk_pos)
    pub well_made : IsMaterialized type (first ∷ others)
    pub full : AllButLastFull (first ∷ others)

  materialize_chunks-suc :
      (fuel : ℕ) (s t : Cursor)
      → next_chunk arrow total type bitmap s ≡ ok (chunk_of type t, t)
      → materialize_chunks arrow (suc fuel) total type bitmap s ≡ (
          (if ltb t.total_elements_pos total
            then materialize_chunks arrow fuel total type bitmap t
            else ok [])
          >>= λ rest. ok (chunk_of type t ∷ rest))
  unfolding materialize_chunks
  materialize_chunks-suc fuel s t runs = rw runs

  chunk_of-IsMaterialized :
      (t : Cursor) (rest : List Array)
      → Position bitmap total t.current_chunk t
      → IsMaterialized type rest
      → IsMaterialized type (chunk_of type t ∷ rest)
  chunk_of-IsMaterialized t rest here made =
      (refl, refl, refl, here.room, omega (arith, here.room, here.buffer), refl, made)

  last_chunk :
      (s t : Cursor)
      → Filled bitmap total s.current_chunk (begun arrow s) t
      → t.total_elements_pos ≡ total
      → buffer_column (chunk_of type t ∷ [])
        ≡ select
            (bitmap_bit bitmap)
            s.total_elements_pos
            (remaining s.current_chunk s.current_chunk_pos)
  unfolding select
  last_chunk s t filled end =
      ap (λ (l : List ℕ). kept t ++ select (bitmap_bit bitmap) t.total_elements_pos l)
        (sym (
          nothing_left (remaining t.current_chunk t.current_chunk_pos)
            (omega (arith, filled.stands.counted))))
      ∙ filled.preserved

  -- Enough rounds go on to the end of the column.
  materialize_chunks-Made :
      (fuel : ℕ) (s : Cursor)
      → Position bitmap total s.current_chunk (begun arrow s)
      → total < fuel + s.total_elements_pos
      → Made s (materialize_chunks arrow fuel total type bitmap s)
  materialize_chunks-Made zero s here enough = absurd (omega (arith, here.counted))
  materialize_chunks-Made (suc fuel) s here enough =
      let (t, runs, filled) = next_chunk_lem s here in
      let step = materialize_chunks-suc fuel s t runs in
      elim (Bool-cases (ltb t.total_elements_pos total)) [
        | inr stop ↦ record {
          first = chunk_of type t;
          others = [];
          returns = step ∙ rw stop;
          selected = last_chunk s t filled (ground (arith, filled.stands.counted));
          well_made = chunk_of-IsMaterialized t [] filled.stands tt;
          full = tt;
        }
        | inl more ↦
            let below : t.total_elements_pos < total = ground arith in
            let rest =
              materialize_chunks-Made fuel t (Position-begun t filled.stands)
                (omega (arith, filled.progress (omega arith) (omega (arith, filled.grows)))) in
            record {
              first = chunk_of type t;
              others = rest.first ∷ rest.others;
              returns = step ∙ rw more (rw (rest.returns));
              selected = ap (λ (l : List ℕ). kept t ++ l) rest.selected ∙ filled.preserved;
              well_made =
                  chunk_of-IsMaterialized t (rest.first ∷ rest.others) filled.stands rest.well_made;
              full = (ground (arith, filled.ends), rest.full);
            }
      ]

-- A column is materialized as the code means to: the rows at whose bits the bitmap has a one, in
-- their order, in chunks of the column's type.
pub record Materialized (arrow : Arrow) (column : ChunkedArray) (bitmap : List ℕ)
    (result : Outcome ChunkedArray) : Type 0 where
  pub out : ChunkedArray
  pub returns : result ≡ ok out
  pub selected : column_rows out.chunks ≡ select (bitmap_bit bitmap) 0 (column_rows column.chunks)
  pub well_made : IsMaterialized column.type out.chunks
  pub full : AllButLastFull out.chunks
  pub same_type : out.type ≡ column.type
  pub counted : out.length ≡ length (column_rows out.chunks)

module _ (arrow : Arrow) (laws : ArrowLaws arrow) (column : ChunkedArray) (bitmap : List ℕ) where
  Position-start :
      IsStored column.chunks
      → column.length ≡ total_length column.chunks
      → Position bitmap column.length column.chunks (begun arrow (start column.chunks))
  unfolding start
  Position-start stored size = record {
    stored = stored;
    inside = Inside-zero column.chunks;
    behind = omega arith;
    buffer = laws.buffer_fits chunk_size;
    room = omega arith;
    counted = omega (
      arith,
      size,
      ap length (remaining_zero column.chunks),
      length-buffer_column column.chunks stored,
    );
  }

  -- For a column whose length is that of its chunks and below 2 ^ 31, whose chunks are no
  -- slices and have their rows in mutable buffers, and a bitmap with a bit for each row:
  -- materialize_column ends with a column of the same type of exactly the rows at whose bits
  -- the bitmap has a one, in order, in chunks of at most 2 ^ 14 rows.
  pub materialize_column-Materialized :
      IsWhole column.chunks
      → column.length ≡ total_length column.chunks
      → column.length ≤ length bitmap * 8
      → column.length ≤ int_max
      → Materialized arrow column bitmap (materialize_column arrow column bitmap)
  unfolding materialize_column start
  materialize_column-Materialized whole size bits limit =
      let made =
        materialize_chunks-Made arrow laws column.type bitmap column.length bits limit
          (suc column.length) (start column.chunks)
          (Position-start (IsWhole-IsStored column.chunks whole) size) (omega arith) in
      let new : List Array = made.first ∷ made.others in
      let whole' = IsMaterialized-IsWhole column.type new made.well_made in
      let kept_chunks = laws.chunks_kept new in
      let rows : column_rows (arrow.make_chunked new).chunks ≡ buffer_column new =
        ap column_rows kept_chunks ∙ column_rows-buffer_column new whole' in
      record {
        out = arrow.make_chunked new;
        returns = rw (made.returns);
        selected =
            rows
            ∙ made.selected
            ∙ ap (select (bitmap_bit bitmap) 0) (
                remaining_zero column.chunks ∙ sym (column_rows-buffer_column column.chunks whole));
        well_made = rw kept_chunks made.well_made;
        full = rw kept_chunks made.full;
        same_type = laws.type_kept made.first made.others ∙ made.well_made.0;
        counted =
            laws.length_kept new
            ∙ sym (length-buffer_column new (IsWhole-IsStored new whole'))
            ∙ ap length (sym rows);
      }
