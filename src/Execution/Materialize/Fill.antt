-- ===== src/Execution/Materialize/Fill.antt =====
-- The loop that fills one new chunk from the chunks of a column.
use pefa.Base.{
  ℕ, ◌+◌, ◌-◌, ◌*◌, ◌≤◌, ◌<◌, ◌≡◌, ◌≢◌, ◌⊎◌, inl, inr, ◌∙◌, refl, ap, sym, arith, ltb, ◌==◌, ◌&&◌,
  true, false, Bool-cases, List, [], ◌∷◌, ◌++◌, length, ok, ==_iff,
}
use mathlib.Core.Path.{subst}
use native.Mathlib.Decide.{dec_lt}
use pefa.Arrow.{Array}
use pefa.Bitmap.Bits.{bitmap_bit}
use pefa.Execution.Counter.{int_max}
use pefa.Execution.Materialize.{Cursor, chunk_size, copy_rows, fill_chunk}
use pefa.Execution.Materialize.Select.{select}
use pefa.Execution.Materialize.Copy.{kept, InChunk, Copied, copy_rows-Copied}
use pefa.Execution.Materialize.Remaining.{
  buffer_rows, buffer_column, IsStored, remaining, Inside, Inside-zero, length-buffer_rows,
  length-remaining, remaining_end,
}

module _ (bitmap : List ℕ) (total : ℕ) where
  -- The cursor stands at row `total_elements_pos` of the column's `total` rows.
  pub record Position (chunks : List Array) (s : Cursor) : Type 0 where
    pub stored : IsStored chunks
    pub inside : Inside chunks s.current_chunk_pos
    pub behind : s.current_chunk_pos ≤ s.total_elements_pos
    pub buffer : length s.data_out ≡ chunk_size
    pub room : s.new_chunk_pos ≤ chunk_size
    pub counted : s.total_elements_pos + length (remaining chunks s.current_chunk_pos) ≡ total

  -- What is kept, with what the bitmap selects of the rows to come.
  abbrev pub outcome_rows : List Array → Cursor → List ℕ
  outcome_rows chunks s =
      kept s
      ++ select (bitmap_bit bitmap) s.total_elements_pos (remaining chunks s.current_chunk_pos)

  pub record Filled (chunks : List Array) (s t : Cursor) : Type 0 where
    pub stands : Position t.current_chunk t
    pub preserved : outcome_rows t.current_chunk t ≡ outcome_rows chunks s
    pub ends : (t.new_chunk_pos ≡ chunk_size) ⊎ (t.total_elements_pos ≡ total)
    pub progress :
        s.new_chunk_pos < chunk_size
        → s.total_elements_pos < total
        → s.total_elements_pos < t.total_elements_pos
    pub grows : s.total_elements_pos ≤ t.total_elements_pos

  module _ (bits : total ≤ length bitmap * 8) (limit : total ≤ int_max) where
    Position-InChunk :
        (c : Array) (cs : List Array) (s : Cursor)
        → Position (c ∷ cs) s
        → InChunk bitmap (buffer_rows c) s
    Position-InChunk c cs s here =
        let size = length-buffer_rows c here.stored.0 in
        let left = length-remaining c cs s.current_chunk_pos here.stored.0 in
        record {
          inside = omega (arith, size, here.inside);
          behind = here.behind;
          buffer = here.buffer;
          room = here.room;
          bits = omega (arith, size, left, here.counted);
          counted = omega (arith, size, left, here.counted);
        }

    -- Where the loop ends at once.
    Filled-stop :
        (chunks : List Array) (s : Cursor)
        → s.current_chunk ≡ chunks
        → Position chunks s
        → (s.new_chunk_pos ≡ chunk_size) ⊎ (s.total_elements_pos ≡ total)
        → Filled chunks s s
    Filled-stop chunks s e here stop = record {
      stands = subst (λ (l : List Array). Position l s) (sym e) here;
      preserved = ap (λ (l : List Array). outcome_rows l s) e;
      ends = stop;
      progress = λ h h'. absurd (omega arith);
      grows = omega arith;
    }

    Position-Copied :
        (c : Array) (cs : List Array) (s t : Cursor)
        → Position (c ∷ cs) s
        → Copied bitmap (buffer_rows c) s t
        → Position (c ∷ cs) t
    Position-Copied c cs s t here copied =
        let size = length-buffer_rows c here.stored.0 in
        record {
          stored = here.stored;
          inside = omega (arith, size, copied.stays.inside);
          behind = copied.stays.behind;
          buffer = copied.stays.buffer;
          room = copied.stays.room;
          counted = omega (
            arith,
            length-remaining c cs s.current_chunk_pos here.stored.0,
            length-remaining c cs t.current_chunk_pos here.stored.0,
            here.counted,
            copied.in_step,
            copied.stays.inside,
            size,
            here.inside,
          );
        }

    -- The next chunk of the column.
    abbrev advance : List Array → Cursor → Cursor
    advance cs t = record t { current_chunk = cs; current_chunk_pos = 0 }

    Position-advance :
        (c : Array) (cs : List Array) (t : Cursor)
        → Position (c ∷ cs) t
        → t.current_chunk_pos ≡ c.length
        → Position cs (advance cs t)
    Position-advance c cs t here e = record {
      stored = here.stored.2;
      inside = Inside-zero cs;
      behind = omega arith;
      buffer = here.buffer;
      room = here.room;
      counted = rw (remaining_end c cs t.current_chunk_pos here.stored.0 e) at here.counted;
    }

    fill_chunk-next :
        (c : Array) (cs : List Array) (s t u : Cursor)
        → (ltb s.new_chunk_pos chunk_size && ltb s.total_elements_pos total) ≡ true
        → copy_rows bitmap (c.length - s.current_chunk_pos) c s ≡ ok t
        → (t.current_chunk_pos == c.length) ≡ true
        → fill_chunk bitmap total cs (advance cs t) ≡ ok u
        → fill_chunk bitmap total (c ∷ cs) s ≡ ok u
    unfolding fill_chunk
    fill_chunk-next c cs s t u more runs end next = simp (more, runs, end, next)

    fill_chunk-full :
        (c : Array) (cs : List Array) (s t : Cursor)
        → (ltb s.new_chunk_pos chunk_size && ltb s.total_elements_pos total) ≡ true
        → copy_rows bitmap (c.length - s.current_chunk_pos) c s ≡ ok t
        → (t.current_chunk_pos == c.length) ≡ false
        → fill_chunk bitmap total (c ∷ cs) s ≡ ok t
    unfolding fill_chunk
    fill_chunk-full c cs s t more runs inner = simp (more, runs, inner)

    -- What the loop over one chunk has done, when it went from `s` to `t`.
    module _ (c : Array) (cs : List Array) (s t : Cursor) (here : Position (c ∷ cs) s)
        (copied : Copied bitmap (buffer_rows c) s t)
        (moves : s.new_chunk_pos < chunk_size
          → 0 < c.length - s.current_chunk_pos
          → s.current_chunk_pos < t.current_chunk_pos)
        (idle : c.length - s.current_chunk_pos ≡ 0 → t.new_chunk_pos ≡ s.new_chunk_pos) where
      Filled-next :
          (u : Cursor)
          → t.current_chunk_pos ≡ c.length
          → Filled cs (advance cs t) u
          → Filled (c ∷ cs) s u
      Filled-next u end filled = record {
        stands = filled.stands;
        preserved =
            filled.preserved
            ∙ ap (λ (l : List ℕ). kept t ++ select (bitmap_bit bitmap) t.total_elements_pos l)
                (sym (remaining_end c cs t.current_chunk_pos here.stored.0 end))
            ∙ copied.preserved (buffer_column cs);
        ends = filled.ends;
        progress = λ h h'. elim (dec_lt s.current_chunk_pos c.length) [
          | yes p ↦ omega (arith, moves h (omega arith), filled.grows, copied.in_step)
          | no p ↦ omega (
            arith,
            idle (omega arith),
            filled.progress (omega (arith, idle (omega arith)))
                (omega (arith, copied.in_step, here.inside)),
            copied.in_step,
            here.inside,
          )
        ];
        grows = omega (arith, filled.grows, copied.moved, copied.in_step);
      }

      Filled-full :
          s.current_chunk ≡ c ∷ cs
          → t.current_chunk_pos ≢ c.length
          → t.new_chunk_pos ≡ chunk_size
          → Filled (c ∷ cs) s t
      Filled-full e inner full = record {
        stands =
            subst (λ (l : List Array). Position l t) (sym (copied.same_chunk ∙ e))
              (Position-Copied c cs s t here copied);
        preserved =
            ap (λ (l : List Array). outcome_rows l t) (copied.same_chunk ∙ e)
            ∙ copied.preserved (buffer_column cs);
        ends = inl full;
        progress = λ h h'. omega (
          arith,
          moves h (
              omega (
                arith,
                length-buffer_rows c here.stored.0,
                copied.stays.inside,
                copied.moved,
                here.inside,
              )),
          copied.in_step,
        );
        grows = omega (arith, copied.moved, copied.in_step);
      }

    -- The loop fills the new chunk, or reaches the end of the column, and loses no row.
    pub fill_chunk-Filled :
        (chunks : List Array) (s : Cursor)
        → s.current_chunk ≡ chunks
        → Position chunks s
        → (t : Cursor) × (fill_chunk bitmap total chunks s ≡ ok t) × Filled chunks s t
    fill_chunk-Filled [] s e here = (
      s,
      unfold fill_chunk in ground (arith, here.counted),
      Filled-stop [] s e here (inr (omega (arith, here.counted))),
    )
    fill_chunk-Filled (c ∷ cs) s e here =
        elim (Bool-cases (ltb s.new_chunk_pos chunk_size && ltb s.total_elements_pos total)) [
          | inr stop ↦ (
            s,
            unfold fill_chunk in rw stop,
            Filled-stop (c ∷ cs) s e here (ground (arith, here.room, here.counted)),
          )
          | inl more ↦
              let (t, runs, copied, ends, moves, idle) =
                copy_rows-Copied bitmap c here.stored.0 here.stored.1
                  (c.length - s.current_chunk_pos) s (Position-InChunk c cs s here)
                  (omega (arith, here.inside)) in
              elim (Bool-cases (t.current_chunk_pos == c.length)) [
                | inl end ↦
                    let end' = (==_iff t.current_chunk_pos c.length).0 end in
                    let (u, runs', filled) =
                      fill_chunk-Filled cs (advance cs t) refl
                        (Position-advance c cs t (Position-Copied c cs s t here copied) end') in
                    (
                      u,
                      fill_chunk-next c cs s t u more runs end runs',
                      Filled-next c cs s t here copied moves idle u end' filled,
                    )
                | inr inner ↦ (
                  t,
                  fill_chunk-full c cs s t more runs inner,
                  Filled-full c cs s t here copied moves idle e (ground arith)
                      (ground (arith, ends)),
                )
              ]
        ]
