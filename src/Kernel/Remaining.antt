-- ===== src/Kernel/Remaining.antt =====
-- What the two emitted functions do to the rows of a bitmap.
use Prim.Native.Nat.{bit_and}
use pefa.Base.{
  ℕ, zero, suc, ◌+◌, ◌-◌, ◌*◌, ◌/◌, ◌%◌, ◌^◌, ◌≤◌, ◌<◌, ◌≡◌, ◌∙◌, ap, sym, arith, Bool, ◌&&◌,
  lt→ltb, List, length, get_or, set, Outcome, get_elem?-eq-get_or,
}
use pefa.Bitmap.{add8, not8, zext8}
use pefa.Bitmap.Bits.{window, byte_bit_masked, window_empty, window_append, window_row}
use pefa.Bitmap.Masks.{Masks, Masks-nothing, Masks-bind, Masks-byte, Masks-congr}
use pefa.Kernel.Code.{filter, remaining_loop, filter_remaining}
use pefa.Kernel.Loops.{Passes, shl8_lem, outer_loop-Masks}

module _ (predicate : ℕ → Bool) (load : ℕ → Outcome ℕ) (q : ℕ → Bool) where
  -- For a length below 2 ^ 64 whose whole bytes are in the bitmap, and with every row in them
  -- readable, where the predicate is `q`: `filter` clears exactly the rows of these bytes at which
  -- `q` is false, and leaves the up to seven rows behind them alone.
  pub filter-Masks :
      (dest : List ℕ) (out len : ℕ)
      → len < 2 ^ 64
      → out + len / 8 ≤ length dest
      → ((k : ℕ) → k < len / 8 * 8 → Passes predicate load k (q (out * 8 + k)))
      → Masks (window (out * 8) ((out + len / 8) * 8) q) dest (filter predicate load dest out len)
  unfolding filter
  filter-Masks dest out len small fits reads =
      let e : out + 0 ≡ out = omega arith in
      let e' : len % 2 ^ 64 ≡ len = omega arith in
      rw e' (
        rw e at (
          outer_loop-Masks predicate load q (len / 8) out 0 dest (omega arith)
            (λ k h h'. reads k (omega arith))))

  remaining_loop-suc :
      (rounds bit_offset out i : ℕ) (dest : List ℕ) (b : Bool)
      → i + bit_offset < 8
      → out < length dest
      → Passes predicate load i b
      → remaining_loop predicate load (suc rounds) bit_offset out i dest
        ≡ remaining_loop predicate load rounds bit_offset out (i + 1) (
            set dest out (
              bit_and
                (get_or dest out 0)
                (not8 (bit_and (not8 (zext8 b)) 1 * 2 ^ (7 - (i + bit_offset)) % 256))))
  unfolding remaining_loop add8
  remaining_loop-suc rounds bit_offset out i dest b h fits (v, reads, holds) =
      let e : (i + bit_offset) % 256 ≡ i + bit_offset = omega arith in
      let e' : (i + 1) % 256 ≡ i + 1 = omega arith in
      rw (
        reads,
        holds,
        e,
        e',
        shl8_lem (bit_and (not8 (zext8 b)) 1) (i + bit_offset) h,
        get_elem?-eq-get_or dest out 0 fits,
      )

  remaining_loop-Masks :
      (rounds bit_offset out i : ℕ) (dest : List ℕ)
      → i + rounds + bit_offset ≤ 8
      → out < length dest
      → ((k : ℕ)
          → i ≤ k
          → k < i + rounds
          → Passes predicate load k (q (out * 8 + (k + bit_offset))))
      → Masks
          (window (out * 8 + (i + bit_offset)) (out * 8 + (i + rounds + bit_offset)) q)
          dest
          (remaining_loop predicate load rounds bit_offset out i dest)
  unfolding remaining_loop
  remaining_loop-Masks zero bit_offset out i dest h fits reads =
      Masks-congr (λ r. sym (window_empty _ _ q r (omega arith))) (Masks-nothing dest)
  remaining_loop-Masks (suc rounds) bit_offset out i dest h fits reads =
      let j : ℕ = i + bit_offset in
      let t : ℕ = not8 (bit_and (not8 (zext8 (q (out * 8 + j)))) 1 * 2 ^ (7 - j) % 256) in
      rw
        (remaining_loop-suc rounds bit_offset out i dest (q (out * 8 + j)) (omega arith) fits
          (reads i (omega arith) (omega arith)))
        (Masks-congr
          (λ r.
            ap
              (λ (b : Bool).
                b
                && window (out * 8 + (i + 1 + bit_offset)) (out * 8 + (i + 1 + rounds + bit_offset))
                    q r)
              (window_row out t j q r (omega arith)
                (λ k hk. byte_bit_masked (q (out * 8 + j)) j k (omega arith) hk))
            ∙ joined r)
          (Masks-bind (Masks-byte dest out t fits) (λ mid same.
            remaining_loop-Masks rounds bit_offset out (i + 1) mid (omega arith) (omega arith)
              (λ k hk hk'. reads k (omega arith) (omega arith)))))
    where
      joined :
          (r : ℕ)
          → (window (out * 8 + (i + bit_offset)) (out * 8 + (i + bit_offset) + 1) q r
              && window
                  (out * 8 + (i + 1 + bit_offset))
                  (out * 8 + (i + 1 + rounds + bit_offset))
                  q
                  r)
            ≡ window (out * 8 + (i + bit_offset)) (out * 8 + (i + suc rounds + bit_offset)) q r
      joined r =
          let e : out * 8 + (i + 1 + bit_offset) ≡ out * 8 + (i + bit_offset) + 1 = omega arith in
          let e' : out * 8 + (i + 1 + rounds + bit_offset)
              ≡ out * 8 + (i + suc rounds + bit_offset) =
            omega arith in
          rw (e, e') (window_append _ _ _ q r (omega arith) (omega arith))

  -- For `len` rows from row `bit_offset` of one byte of the bitmap on, all within the byte, and
  -- readable, where the predicate is `q`: `filter_remaining` clears exactly those of them at which
  -- `q` is false, and changes nothing else.
  pub filter_remaining-Masks :
      (dest : List ℕ) (out len bit_offset : ℕ)
      → len + bit_offset ≤ 8
      → out < length dest
      → ((k : ℕ) → k < len → Passes predicate load k (q (out * 8 + (k + bit_offset))))
      → Masks
          (window (out * 8 + bit_offset) (out * 8 + (len + bit_offset)) q)
          dest
          (filter_remaining predicate load dest out len bit_offset)
  unfolding filter_remaining
  filter_remaining-Masks dest out len bit_offset h fits reads =
      let e : 0 + bit_offset ≡ bit_offset = omega arith in
      let e' : 0 + len ≡ len = omega arith in
      rw (lt→ltb len 128 (omega arith)) (
        rw (e, e') at
          (remaining_loop-Masks len bit_offset out 0 dest (omega arith) fits
            (λ k hk hk'. reads k (omega arith))))
