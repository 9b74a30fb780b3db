-- ===== src/Kernel/Loops.antt =====
-- What the emitted loops do to the rows of a bitmap.
use Prim.Native.Nat.{bit_or}
use pefa.Base.{
  ℕ, zero, suc, ◌+◌, ◌-◌, ◌*◌, ◌%◌, ◌^◌, ◌≤◌, ◌<◌, ◌≡◌, ◌∙◌, refl, ap, sym, arith, leb, Bool, ◌&&◌,
  ◌||◌, List, length, Outcome, ok, get_elem?-eq-get_or,
}
use pefa.Bitmap.{add8, sub8, shl8, zext8}
use pefa.Bitmap.Bits.{
  byte_bit, window, byte_bit-bit_or, byte_bit-zero, window_empty, window_append, window_byte,
  byte_bit_shifted,
}
use pefa.Bitmap.Masks.{Masks, Masks-nothing, Masks-bind, Masks-byte, Masks-congr}
use pefa.Kernel.Code.{inner_loop, outer_loop}

sub8_lem : (j : ℕ) → j < 8 → sub8 7 j ≡ 7 - j
unfolding sub8
sub8_lem j h = omega arith

pub shl8_lem : (a j : ℕ) → j < 8 → shl8 a (sub8 7 j) ≡ ok (a * 2 ^ (7 - j) % 256)
unfolding shl8
shl8_lem a j h = rw (sub8_lem j h) (ground arith)

module _ (predicate : ℕ → Bool) (load : ℕ → Outcome ℕ) where
  -- Element `k` can be read, and its predicate is `b`.
  abbrev pub Passes : ℕ → Bool → Type 0
  Passes k b = (v : ℕ) × (load k ≡ ok v) × (predicate v ≡ b)

  inner_loop-suc :
      (rounds src j tmp : ℕ) (b : Bool)
      → j < 8
      → Passes (src + j) b
      → inner_loop predicate load (suc rounds) src j tmp
        ≡ inner_loop predicate load rounds src (j + 1) (bit_or tmp (zext8 b * 2 ^ (7 - j) % 256))
  unfolding inner_loop add8
  inner_loop-suc rounds src j tmp b h (v, reads, holds) =
      rw (reads, holds, shl8_lem (zext8 b) j h) (ground arith)

  inner_loop_lem :
      (p : ℕ → Bool) (rounds src j tmp : ℕ)
      → j + rounds ≡ 8
      → ((k : ℕ) → k < 8 → Passes (src + k) (p k))
      → (t : ℕ) × (inner_loop predicate load rounds src j tmp ≡ ok t)
        × ((k : ℕ) → k < 8 → byte_bit t k ≡ (byte_bit tmp k || (leb j k && p k)))
  unfolding inner_loop
  inner_loop_lem p zero src j tmp e reads = (tmp, refl, λ k h. ground arith)
  inner_loop_lem p (suc rounds) src j tmp e reads =
      let tmp' : ℕ = bit_or tmp (zext8 (p j) * 2 ^ (7 - j) % 256) in
      let (t, runs, bits) = inner_loop_lem p rounds src (j + 1) tmp' (omega arith) reads in
      (
        t,
        inner_loop-suc rounds src j tmp (p j) (omega arith) (reads j (omega arith)) ∙ runs,
        λ k h. ground (
          arith,
          bits k h,
          byte_bit-bit_or tmp (zext8 (p j) * 2 ^ (7 - j) % 256) k,
          byte_bit_shifted (p j) j k (omega arith) h,
        ),
      )

  -- One round of the outer loop clears the rows of one byte.
  pub outer_loop-Masks :
      (q : ℕ → Bool) (rounds out i : ℕ) (dest : List ℕ)
      → out + i + rounds ≤ length dest
      → ((k : ℕ) → i * 8 ≤ k → k < (i + rounds) * 8 → Passes k (q (out * 8 + k)))
      → Masks
          (window ((out + i) * 8) ((out + i + rounds) * 8) q)
          dest
          (outer_loop predicate load rounds out i dest)
  unfolding outer_loop
  outer_loop-Masks q zero out i dest fits reads =
      Masks-congr (λ r. sym (window_empty _ _ q r (omega arith))) (Masks-nothing dest)
  outer_loop-Masks q (suc rounds) out i dest fits reads =
      let (t, runs, bits) =
        inner_loop_lem (λ k. q (out * 8 + (i * 8 + k))) 8 (i * 8) 0 0 refl
          (λ k h. reads (i * 8 + k) (omega arith) (omega arith)) in
      let row : (k : ℕ) → k < 8 → byte_bit t k ≡ q ((out + i) * 8 + k) =
        λ k h. ground (arith, bits k h, byte_bit-zero k h, ap q (arg k)) in
      rw (runs, get_elem?-eq-get_or dest (out + i) 0 (omega arith))
        (Masks-congr
          (λ r.
            ap (λ (b : Bool). b && window ((out + (i + 1)) * 8) ((out + (i + 1) + rounds) * 8) q r)
              (window_byte (out + i) t q r row)
            ∙ joined r)
          (Masks-bind (Masks-byte dest (out + i) t (omega arith)) (λ mid same.
            outer_loop-Masks q rounds out (i + 1) mid (omega arith)
              (λ k h h'. reads k (omega arith) (omega arith)))))
    where
      arg : (k : ℕ) → out * 8 + (i * 8 + k) ≡ (out + i) * 8 + k
      arg k = omega arith

      joined :
          (r : ℕ)
          → (window ((out + i) * 8) ((out + i) * 8 + 8) q r
              && window ((out + (i + 1)) * 8) ((out + (i + 1) + rounds) * 8) q r)
            ≡ window ((out + i) * 8) ((out + i + suc rounds) * 8) q r
      joined r =
          let e : (out + (i + 1)) * 8 ≡ (out + i) * 8 + 8 = omega arith in
          let e' : (out + (i + 1) + rounds) * 8 ≡ (out + i + suc rounds) * 8 = omega arith in
          rw (e, e') (window_append _ _ _ q r (omega arith) (omega arith))
