-- ===== src/Execution/Materialize/Copy.antt =====
-- The loop that copies the rows of one chunk.
use pefa.Base.{
  ℕ, zero, suc, ◌+◌, ◌-◌, ◌*◌, ◌≤◌, ◌<◌, ◌≡◌, ◌⊎◌, inl, inr, ◌∙◌, refl, ap, sym, arith, ltb,
  if◌then◌else◌, Bool, true, false, Bool-cases, List, [], ◌∷◌, ◌++◌, length, length-set,
  length-take, get_or-take, get_or, set, take, drop, ok, get_elem?-eq-get_or,
}
use mathlib.Core.List.{append_assoc}
use native.Mathlib.Nat.{add-zero}
use native.Mathlib.Numerals.{add-one}
use pefa.Arrow.{Array, mutable_data}
use pefa.Bitmap.Bits.{bitmap_bit}
use pefa.Execution.Counter.{int_max, increment}
use pefa.Execution.Materialize.{Cursor, chunk_size, copy_row, copy_rows}
use pefa.Execution.Materialize.Select.{select, drop-eq-cons, take-set, take-suc-set, read_bit_lem}

-- The rows that the new chunk holds so far.
abbrev pub kept : Cursor → List ℕ
kept s = take s.new_chunk_pos s.data_out

-- The cursor stands in `rows`, a chunk of the column, and the new chunk has room.
pub record InChunk (bitmap : List ℕ) (rows : List ℕ) (s : Cursor) : Type 0 where
  pub inside : s.current_chunk_pos ≤ length rows
  pub behind : s.current_chunk_pos ≤ s.total_elements_pos
  pub buffer : length s.data_out ≡ chunk_size
  pub room : s.new_chunk_pos ≤ chunk_size
  pub bits : s.total_elements_pos + (length rows - s.current_chunk_pos) ≤ length bitmap * 8
  pub counted : s.total_elements_pos + (length rows - s.current_chunk_pos) ≤ int_max

-- `t` comes from `s` by copying rows of the chunk.
pub record Copied (bitmap rows : List ℕ) (s t : Cursor) : Type 0 where
  pub stays : InChunk bitmap rows t
  pub same_chunk : t.current_chunk ≡ s.current_chunk
  pub moved : s.current_chunk_pos ≤ t.current_chunk_pos
  pub in_step :
      t.total_elements_pos + s.current_chunk_pos ≡ s.total_elements_pos + t.current_chunk_pos
  pub preserved :
      (rest : List ℕ)
      → kept t
          ++ select (bitmap_bit bitmap) t.total_elements_pos (drop t.current_chunk_pos rows ++ rest)
        ≡ kept s
          ++ select (bitmap_bit bitmap) s.total_elements_pos (drop s.current_chunk_pos rows ++ rest)

Copied-refl : {bitmap rows : List ℕ} {s : Cursor} → InChunk bitmap rows s → Copied bitmap rows s s
Copied-refl here = record {
  stays = here;
  same_chunk = refl;
  moved = omega arith;
  in_step = refl;
  preserved = λ rest. refl;
}

Copied-trans :
    {bitmap rows : List ℕ} {s t u : Cursor}
    → Copied bitmap rows s t
    → Copied bitmap rows t u
    → Copied bitmap rows s u
Copied-trans a b = record {
  stays = b.stays;
  same_chunk = b.same_chunk ∙ a.same_chunk;
  moved = omega (arith, a.moved, b.moved);
  in_step = omega (arith, a.in_step, b.in_step);
  preserved = λ rest. b.preserved rest ∙ a.preserved rest;
}

-- A write behind the kept elements, kept if its bit is set.
kept_step :
    (b : Bool) (out : List ℕ) (n v : ℕ) (ys : List ℕ)
    → n < length out
    → take (n + (if b then 1 else 0)) (set out n v) ++ ys ≡ take n out ++ (if b then v ∷ ys else ys)
kept_step true out n v ys h =
    rw (add-one, take-suc-set out n v h) (append_assoc (take n out) (v ∷ []) ys)
kept_step false out n v ys h = rw (add-zero, take-set out n v)

module _ (bitmap : List ℕ) (c : Array) (stored : c.length ≤ length c.values)
    (writable : c.is_mutable ≡ true) where
  abbrev rows : List ℕ
  rows = take c.length c.values

  rows_length : length rows ≡ c.length
  rows_length = omega (arith, length-take c.length c.values)

  -- The cursor behind the copy of a row with the value `v`.
  abbrev stepped : Cursor → ℕ → Cursor
  stepped s v = record s {
    current_chunk_pos = s.current_chunk_pos + 1;
    total_elements_pos = s.total_elements_pos + 1;
    new_chunk_pos = s.new_chunk_pos + (if bitmap_bit bitmap s.total_elements_pos then 1 else 0);
    data_out = set s.data_out s.new_chunk_pos v;
  }

  module _ (s : Cursor) (here : InChunk bitmap rows s) (below : s.current_chunk_pos < c.length)
      (room : s.new_chunk_pos < chunk_size) where
    copy_row_lem : copy_row bitmap c s ≡ ok (stepped s (get_or c.values s.current_chunk_pos 0))
    unfolding copy_row mutable_data increment
    copy_row_lem = rw writable (
        ground (
          arith,
          read_bit_lem bitmap s.total_elements_pos (omega (arith, rows_length)),
          get_elem?-eq-get_or c.values s.current_chunk_pos 0 (omega arith),
          rows_length,
        ))

    next_row :
        drop s.current_chunk_pos rows
        ≡ get_or c.values s.current_chunk_pos 0 ∷ drop (s.current_chunk_pos + 1) rows
    next_row =
        rw (add-one, ← get_or-take c.length c.values s.current_chunk_pos 0 below)
          (drop-eq-cons rows s.current_chunk_pos (omega (arith, rows_length)))

    stepped-Copied : Copied bitmap rows s (stepped s (get_or c.values s.current_chunk_pos 0))
    unfolding select
    stepped-Copied = record {
      stays = record {
        inside = omega (arith, rows_length);
        behind = omega arith;
        buffer = length-set s.data_out s.new_chunk_pos _ ∙ here.buffer;
        room = ground arith;
        bits = omega (arith, rows_length);
        counted = omega (arith, rows_length);
      };
      same_chunk = refl;
      moved = omega arith;
      in_step = omega arith;
      preserved = λ rest.
          kept_step (bitmap_bit bitmap s.total_elements_pos) s.data_out s.new_chunk_pos _ _
            (omega (arith, here.buffer))
          ∙ ap
              (λ (t : List ℕ).
                kept s ++ select (bitmap_bit bitmap) s.total_elements_pos (t ++ rest))
              (sym next_row);
    }

  -- The loop ends at the end of the chunk, or with the new chunk full.
  pub copy_rows-Copied :
      (n : ℕ) (s : Cursor)
      → InChunk bitmap rows s
      → s.current_chunk_pos + n ≡ c.length
      → (t : Cursor) × (copy_rows bitmap n c s ≡ ok t)
        × Copied bitmap rows s t
        × ((t.current_chunk_pos ≡ c.length) ⊎ (t.new_chunk_pos ≡ chunk_size))
        × (s.new_chunk_pos < chunk_size → 0 < n → s.current_chunk_pos < t.current_chunk_pos)
        × (n ≡ 0 → t.new_chunk_pos ≡ s.new_chunk_pos)
  unfolding copy_rows
  copy_rows-Copied zero s here e =
      (s, refl, Copied-refl here, inl (omega arith), λ h h'. absurd (omega arith), λ h. refl)
  copy_rows-Copied (suc n) s here e = elim (Bool-cases (ltb s.new_chunk_pos chunk_size)) [
    | inr full ↦
        (s, rw full, Copied-refl here, inr (ground arith), λ h h'. absurd (ground arith), λ h. refl)
    | inl room ↦
        let room' : s.new_chunk_pos < chunk_size = ground arith in
        let first = stepped-Copied s here (omega arith) room' in
        let (t, runs, copied, ends, _, _) =
          copy_rows-Copied n (stepped s (get_or c.values s.current_chunk_pos 0)) first.stays
            (omega arith) in
        (
          t,
          rw (room, copy_row_lem s here (omega arith) room') runs,
          Copied-trans first copied,
          ends,
          λ h h'. omega (arith, copied.moved),
          λ h. absurd (omega arith),
        )
  ]
