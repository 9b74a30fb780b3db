-- ===== src/Execution/Ignored/Copies.antt =====
-- The rows that are copied do not depend on the offsets and the validity of chunks.
use pefa.Base.{
  Option-cases, Outcome-cases, ℕ, zero, suc, ◌-◌, ◌==◌, ltb, ◌&&◌, ◌≡◌, ◌∙◌, refl, ap, Bool-cases,
  inl, inr, if◌then◌else◌, List, [], ◌∷◌, map, length, get_elem?, Outcome, ok, throw, fault, ◌>>=◌,
}
use pefa.Arrow.{TypeId, Arrow, Array, ChunkedArray, mutable_data}
use pefa.Execution.Counter.{int_max}
use pefa.Execution.Materialize.{
  chunk_size, read_bit, materialize_columns, Cursor, copy_row, copy_rows, fill_chunk, next_chunk,
  materialize_chunks, materialize_column, start,
}
use pefa.Execution.Ignored.{plain, plain_column}

-- The cursor among the plain chunks.
abbrev plain_cursor : Cursor → Cursor
plain_cursor s = record s { current_chunk = map plain s.current_chunk }

-- The outcome of a loop among the plain chunks.
abbrev plain_outcome : Outcome Cursor → Outcome Cursor
plain_outcome m = m >>= λ s. ok (plain_cursor s)

goes_on :
    (m : Outcome Cursor) (f h : Cursor → Outcome Cursor)
    → ((s : Cursor) → h (plain_cursor s) ≡ plain_outcome (f s))
    → (plain_outcome m >>= h) ≡ plain_outcome (m >>= f)
goes_on (ok s) f h each = each s
goes_on (throw x) f h each = refl
goes_on (fault x) f h each = refl

module _ (bitmap : List ℕ) where
  copy_row-plain :
      (c : Array) (s : Cursor)
      → copy_row bitmap (plain c) (plain_cursor s) ≡ plain_outcome (copy_row bitmap c s)
  unfolding copy_row
  copy_row-plain c s = elim (Option-cases (mutable_data c)) [
    | inl z ↦ rw z refl
    | inr (buf, z) ↦ elim (Option-cases (get_elem? buf s.current_chunk_pos)) [
      | inl e ↦ rw (z, e) refl
      | inr (v, e) ↦ elim (Bool-cases (ltb s.new_chunk_pos (length s.data_out))) [
        | inr f ↦ rw (z, e, f) refl
        | inl f ↦ elim (Outcome-cases (read_bit bitmap s.total_elements_pos)) [
          | inr (inl (x, g)) ↦ rw (z, e, f, g) refl
          | inr (inr (x, g)) ↦ rw (z, e, f, g) refl
          | inl (b, g) ↦ elim (Bool-cases (ltb s.current_chunk_pos int_max)) [
            | inr h ↦ rw (z, e, f, g, h) refl
            | inl h ↦ elim (Bool-cases (ltb s.total_elements_pos int_max)) [
              | inr k ↦ rw (z, e, f, g, h, k) refl
              | inl k ↦ rw (z, e, f, g, h, k) refl
            ]
          ]
        ]
      ]
    ]
  ]

  copy_rows-plain :
      (rows : ℕ) (c : Array) (s : Cursor)
      → copy_rows bitmap rows (plain c) (plain_cursor s) ≡ plain_outcome (copy_rows bitmap rows c s)
  unfolding copy_rows
  copy_rows-plain zero c s = refl
  copy_rows-plain (suc rows) c s = elim (Bool-cases (ltb s.new_chunk_pos chunk_size)) [
    | inl e ↦ rw e (
        ap (◌>>= copy_rows bitmap rows (plain c)) (copy_row-plain c s)
        ∙ goes_on (copy_row bitmap c s) (copy_rows bitmap rows c) (copy_rows bitmap rows (plain c))
            (copy_rows-plain rows c))
    | inr e ↦ rw e refl
  ]

  -- What follows a chunk.
  abbrev behind : ℕ → Array → List Array → Cursor → Outcome Cursor
  behind total c cs s =
      if s.current_chunk_pos == c.length
      then fill_chunk bitmap total cs (record s { current_chunk = cs; current_chunk_pos = 0 })
      else ok s

  fill_chunk-plain :
      (total : ℕ) (cs : List Array) (s : Cursor)
      → fill_chunk bitmap total (map plain cs) (plain_cursor s)
        ≡ plain_outcome (fill_chunk bitmap total cs s)
  unfolding fill_chunk
  fill_chunk-plain total [] s =
      elim (Bool-cases (ltb s.new_chunk_pos chunk_size && ltb s.total_elements_pos total)) [
        | inl e ↦ rw e refl
        | inr e ↦ rw e refl
      ]
  fill_chunk-plain total (c ∷ cs) s =
      elim (Bool-cases (ltb s.new_chunk_pos chunk_size && ltb s.total_elements_pos total)) [
        | inr e ↦ rw e refl
        | inl e ↦ rw e (
            ap (◌>>= behind total (plain c) (map plain cs))
              (copy_rows-plain (c.length - s.current_chunk_pos) c s)
            ∙ goes_on (copy_rows bitmap (c.length - s.current_chunk_pos) c s) (behind total c cs)
                (behind total (plain c) (map plain cs))
                (λ t. elim (Bool-cases (t.current_chunk_pos == c.length)) [
                  | inl f ↦ rw f (
                      fill_chunk-plain total cs
                        (record t { current_chunk = cs; current_chunk_pos = 0 }))
                  | inr f ↦ rw f refl
                ]))
      ]

module _ (arrow : Arrow) (total : ℕ) (type : TypeId) (bitmap : List ℕ) where
  next_chunk-plain :
      (s : Cursor)
      → next_chunk arrow total type bitmap (plain_cursor s)
        ≡ (next_chunk arrow total type bitmap s >>= λ p. ok (p.0, plain_cursor (p.1)))
  unfolding next_chunk
  next_chunk-plain s =
      let cleared : Cursor = record s {
        new_chunk_pos = 0;
        data_out = arrow.allocate_buffer chunk_size;
      } in
      let filled = fill_chunk-plain bitmap total s.current_chunk cleared in
      elim (Outcome-cases (fill_chunk bitmap total s.current_chunk cleared)) [
        | inl (t, e) ↦ rw (filled, e) refl
        | inr (inl (x, e)) ↦ rw (filled, e) refl
        | inr (inr (x, e)) ↦ rw (filled, e) refl
      ]

  materialize_chunks-plain :
      (fuel : ℕ) (s : Cursor)
      → materialize_chunks arrow fuel total type bitmap (plain_cursor s)
        ≡ materialize_chunks arrow fuel total type bitmap s
  unfolding materialize_chunks
  materialize_chunks-plain zero s = refl
  materialize_chunks-plain (suc fuel) s =
      elim (Outcome-cases (next_chunk arrow total type bitmap s)) [
        | inl ((c, t), e) ↦ rw (next_chunk-plain s, e, materialize_chunks-plain fuel t) refl
        | inr (inl (x, e)) ↦ rw (next_chunk-plain s, e) refl
        | inr (inr (x, e)) ↦ rw (next_chunk-plain s, e) refl
      ]

module _ (arrow : Arrow) (bitmap : List ℕ) where
  materialize_column-plain :
      (c : ChunkedArray)
      → materialize_column arrow (plain_column c) bitmap ≡ materialize_column arrow c bitmap
  unfolding materialize_column start
  materialize_column-plain c =
      ap (λ (m : Outcome (List Array)). m >>= λ new_column. ok (arrow.make_chunked new_column))
        (materialize_chunks-plain arrow c.length c.type bitmap (suc c.length) (start c.chunks))

  pub materialize_columns-plain :
      (cs : List ChunkedArray)
      → materialize_columns arrow bitmap (map plain_column cs) ≡ materialize_columns arrow bitmap cs
  unfolding materialize_columns
  materialize_columns-plain [] = refl
  materialize_columns-plain (c ∷ cs) =
      rw (materialize_column-plain c, materialize_columns-plain cs) refl
