-- ===== src/Execution/Filter/Rows.antt =====
-- What the two loops of a comparison do to the rows of the bitmap.
use pefa.Base.{
  ℕ, ◌+◌, ◌-◌, ◌*◌, ◌/◌, ◌%◌, ◌≤◌, ◌<◌, ◌≡◌, ◌∙◌, ap, ap₂, sym, arith, ◌==◌, if◌then◌else◌, Bool,
  true, false, ◌&&◌, List, [], ◌∷◌, ◌++◌, length, get_or, some, ok, inl, inr, ◌⊎◌, Bool-cases,
}
use pefa.Arrow.{Arrow, Array, TypeId, total_length}
use pefa.Bitmap.Bits.{window, window_empty, window_append}
use pefa.Bitmap.Masks.{Masks, Masks-nothing, Masks-bind}
use pefa.Kernel.Ir.{Floats, int_width}
use pefa.Kernel.Object.{
  kernel_methods, FilterKernel, Compiled, run_predicate, execute_remaining, sub_size,
}
use pefa.Kernel.Execute.{IsReady, execute-Masks, head-Masks, tail-Masks}
use pefa.Execution.Rows.{
  IsLaidOut, column_rows, total_length-append, get_or-column_rows, get_or-column_rows_tail,
}
use pefa.Execution.Filter.{filter_chunks, filter_edges, filter_remaining_chunks}

-- A chunk that starts within a byte ends at the end of that byte or behind it.
abbrev Reaches : ℕ → Array → Type 0
Reaches off c = (off % 8 ≡ 0) ⊎ (8 ≤ off % 8 + c.length % 256)

module _ (q : ℕ → Bool) where
  body_rows : ℕ → Array → ℕ → Bool
  body_rows off c = window (off + (8 - off % 8) % 8) ((off + c.length) / 8 * 8) q

  edge_rows : ℕ → Array → ℕ → Bool
  edge_rows off c r =
      (if off % 8 == 0 then true else window off (off / 8 * 8 + 8) q r)
      && (if (off + c.length) % 8 == 0
          then true
          else window ((off + c.length) / 8 * 8) (off + c.length) q r)

  pub all_bodies : ℕ → List Array → ℕ → Bool
  all_bodies off [] r = true
  all_bodies off (c ∷ cs) r = body_rows off c r && all_bodies (off + c.length) cs r

  pub all_edges : ℕ → List Array → ℕ → Bool
  all_edges off [] r = true
  all_edges off (c ∷ cs) r = edge_rows off c r && all_edges (off + c.length) cs r

  -- The whole bytes and the edges of a chunk make up its rows.
  chunk_window :
      (off : ℕ) (c : Array) (r : ℕ)
      → Reaches off c
      → (body_rows off c r && edge_rows off c r) ≡ window off (off + c.length) q r
  unfolding body_rows edge_rows window
  chunk_window off c r reach = ground arith

  and_swap : (a b c d : Bool) → ((a && b) && (c && d)) ≡ ((a && c) && (b && d))
  and_swap a b c d = ground arith

  pub all_rows :
      (type : TypeId) (off : ℕ) (cs : List Array) (r : ℕ)
      → IsLaidOut type off cs
      → (all_bodies off cs r && all_edges off cs r) ≡ window off (off + total_length cs) q r
  unfolding all_bodies all_edges total_length
  all_rows type off [] r laid = sym (window_empty off (off + 0) q r (omega arith))
  all_rows type off (c ∷ cs) r laid =
      and_swap (body_rows off c r) (all_bodies (off + c.length) cs r) (edge_rows off c r)
        (all_edges (off + c.length) cs r)
      ∙ ap₂ ◌&&◌ (chunk_window off c r laid.4) (all_rows type (off + c.length) cs r laid.5)
      ∙ window_append off (off + c.length) _ q r (omega arith) (omega arith)
      ∙ ap (λ (t : ℕ). window off t q r) (omega arith)

module _ (arrow : Arrow) (floats : Floats) (kernel : FilterKernel) (code : Compiled) (type : TypeId)
    (compiled : kernel.code ≡ some code)
    (width : arrow.bit_width type ≡ some (int_width code.element)) (q : ℕ → Bool) where
  -- Row `off + k` of the table is row `k` of the chunks.
  abbrev Numbered : ℕ → List Array → Type 0
  Numbered off cs =
      (k : ℕ)
      → k < total_length cs
      → run_predicate arrow floats code (get_or (column_rows cs) k 0) ≡ q (off + k)

  chunk-IsReady :
      (off : ℕ) (c : Array) (cs : List Array)
      → IsLaidOut type off (c ∷ cs)
      → Numbered off (c ∷ cs)
      → IsReady arrow floats kernel code c q off
  unfolding total_length
  chunk-IsReady off c cs laid numbered = record {
    compiled = compiled;
    width = rw (laid.0) width;
    small = laid.3;
    stored = laid.2;
    passes = λ k h.
        ap (run_predicate arrow floats code) (sym (get_or-column_rows c cs k laid.1 laid.2 h))
        ∙ numbered k (omega arith);
  }

  rest-Numbered :
      (off : ℕ) (c : Array) (cs : List Array)
      → IsLaidOut type off (c ∷ cs)
      → Numbered off (c ∷ cs)
      → Numbered (off + c.length) cs
  unfolding total_length
  rest-Numbered off c cs laid numbered k h =
      ap (run_predicate arrow floats code) (sym (get_or-column_rows_tail c cs k laid.1 laid.2))
      ∙ numbered (c.length + k) (omega arith)
      ∙ ap q (omega arith)

  pub filter_chunks-Masks :
      (before cs : List Array) (off : ℕ) (dest : List ℕ)
      → total_length before ≡ off
      → IsLaidOut type off cs
      → Numbered off cs
      → off + total_length cs ≤ length dest * 8
      → Masks
          (all_bodies q off cs)
          dest
          (filter_chunks (kernel_methods arrow floats kernel) before cs dest)
  unfolding filter_chunks total_length all_bodies body_rows
  filter_chunks-Masks before [] off dest e laid numbered fits = Masks-nothing dest
  filter_chunks-Masks before (c ∷ cs) off dest e laid numbered fits = rw e (
      Masks-bind
        (execute-Masks arrow floats kernel code c q off (chunk-IsReady off c cs laid numbered) dest
          (omega (arith, laid.4)) (omega arith))
        (λ mid same.
          filter_chunks-Masks (before ++ c ∷ []) cs (off + c.length) mid
            (total_length-append before c ∙ ap (λ (t : ℕ). t + c.length) e) laid.5
            (rest-Numbered off c cs laid numbered) (omega arith)))

  filter_edges-Masks :
      (off : ℕ) (c : Array) (dest : List ℕ)
      → IsReady arrow floats kernel code c q off
      → Reaches off c
      → off + c.length ≤ length dest * 8
      → Masks
          (edge_rows q off c)
          dest
          (filter_edges (kernel_methods arrow floats kernel) off c dest)
  unfolding filter_edges edge_rows
  filter_edges-Masks off c dest ready reach fits =
      Masks-bind (head_part (Bool-cases (off % 8 == 0)))
        (λ mid same. tail_part mid same (Bool-cases ((off + c.length) % 8 == 0)))
    where
      head_part :
          ((off % 8 == 0) ≡ true) ⊎ ((off % 8 == 0) ≡ false)
          → Masks
              (λ r. if off % 8 == 0 then true else window off (off / 8 * 8 + 8) q r)
              dest
              (if off % 8 == 0
                then ok dest
                else execute_remaining arrow floats kernel c dest (off / 8) 0 (off % 8))
      head_part (inl e) = rw e (Masks-nothing dest)
      head_part (inr e) = rw e (
          head-Masks arrow floats kernel code c q off ready dest (ground arith) (ground arith) fits)

      tail_part :
          (mid : List ℕ)
          → length mid ≡ length dest
          → (((off + c.length) % 8 == 0) ≡ true) ⊎ (((off + c.length) % 8 == 0) ≡ false)
          → Masks
              (λ r.
                if (off + c.length) % 8 == 0
                then true
                else window ((off + c.length) / 8 * 8) (off + c.length) q r)
              mid
              (if (off + c.length) % 8 == 0
                then ok mid
                else execute_remaining arrow floats kernel c mid
                    ((off + c.length) / 8)
                    (sub_size c.length ((off + c.length) % 8))
                    0)
      tail_part mid same (inl e) = rw e (Masks-nothing mid)
      tail_part mid same (inr e) =
          rw e (tail-Masks arrow floats kernel code c q off ready mid (omega arith) (ground arith))

  pub filter_remaining_chunks-Masks :
      (off : ℕ) (cs : List Array) (dest : List ℕ)
      → IsLaidOut type off cs
      → Numbered off cs
      → off + total_length cs ≤ length dest * 8
      → Masks
          (all_edges q off cs)
          dest
          (filter_remaining_chunks (kernel_methods arrow floats kernel) off cs dest)
  unfolding filter_remaining_chunks total_length all_edges
  filter_remaining_chunks-Masks off [] dest laid numbered fits = Masks-nothing dest
  filter_remaining_chunks-Masks off (c ∷ cs) dest laid numbered fits =
      Masks-bind
        (filter_edges-Masks off c dest (chunk-IsReady off c cs laid numbered) laid.4 (omega arith))
        (λ mid same.
          filter_remaining_chunks-Masks (off + c.length) cs mid laid.5
            (rest-Numbered off c cs laid numbered) (omega arith))
