-- ===== src/Execution/Materialize/Immutable.antt =====
-- Columns in buffers that are not mutable, which `materialize_column` of pefa/execution/execution.cpp reads
-- through `mutable_data`.
use pefa.Base.{
  ℕ, ltb, true, zero, suc, ◌-◌, ◌<◌, ◌≡◌, refl, arith, false, List, ◌∷◌, fault, Fault, lt→ltb,
}
use pefa.Arrow.{Arrow, Array, ChunkedArray, mutable_data}
use pefa.Execution.Materialize.{
  Cursor, chunk_size, copy_rows, fill_chunk, start, next_chunk, materialize_column,
}

module _ (bitmap : List ℕ) (c : Array) (immutable : c.is_mutable ≡ false) where
  copy_rows_immutable :
      (rows : ℕ) (s : Cursor)
      → 0 < rows
      → s.new_chunk_pos ≡ 0
      → copy_rows bitmap rows c s ≡ fault Fault.null_pointer
  unfolding copy_rows mutable_data
  copy_rows_immutable zero s some_rows at = absurd (omega arith)
  copy_rows_immutable (suc rows) s some_rows at = rw (at, immutable) refl

  fill_chunk_immutable :
      (total : ℕ) (cs : List Array) (s : Cursor)
      → s.current_chunk_pos < c.length
      → s.new_chunk_pos ≡ 0
      → s.total_elements_pos < total
      → fill_chunk bitmap total (c ∷ cs) s ≡ fault Fault.null_pointer
  unfolding fill_chunk
  fill_chunk_immutable total cs s some_rows at more =
      let runs = copy_rows_immutable (c.length - s.current_chunk_pos) s (omega arith) at in
      let room : ltb s.new_chunk_pos chunk_size ≡ true = ground arith in
      simp (room, lt→ltb s.total_elements_pos total more, runs)

-- For a column whose length is not 0, and whose first chunk has a row and an immutable value
-- buffer, materialize_column dereferences a null pointer, whatever the other chunks are and
-- whatever rows the bitmap selects.
pub materialize_column_immutable :
    (arrow : Arrow) (column : ChunkedArray) (bitmap : List ℕ) (c : Array) (cs : List Array)
    → column.chunks ≡ c ∷ cs
    → c.is_mutable ≡ false
    → 0 < c.length
    → 0 < column.length
    → materialize_column arrow column bitmap ≡ fault Fault.null_pointer
unfolding materialize_column start next_chunk
materialize_column_immutable arrow column bitmap c cs chunks immutable some_rows counted =
    rw
      (
        chunks,
        fill_chunk_immutable bitmap c immutable column.length cs
            (record (start (c ∷ cs)) { data_out = arrow.allocate_buffer chunk_size }) some_rows refl
            counted,
      )
      refl
