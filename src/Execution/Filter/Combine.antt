-- ===== src/Execution/Filter/Combine.antt =====
-- The loop that joins two bitmaps.
use pefa.Base.{
  ℕ, zero, suc, ◌+◌, ◌*◌, ◌/◌, ◌%◌, ◌<◌, ◌≡◌, ◌≢◌, ◌∙◌, refl, ap, sym, arith, ltb, if◌then◌else◌,
  List, length, get_or, get_elem?, set, length-set, get_elem?-eq-get_or, get_or-set_self,
  get_or-set_ne, get_elem?-set_self, get_elem?-set_ne, get_elem?-lt, set-set, set_same, some, ok,
  ◌≤◌,
}
use pefa.Bitmap.Bits.{bitmap_bit, byte_bit, byte_bit-bit_and, byte_bit-bit_or}
use pefa.Expressions.{PredicateOp, and, or}
use pefa.Expressions.Meaning.{connect}
use pefa.Execution.Counter.{int_max, increment_lem}
use pefa.Execution.Filter.{Heap, combine, combine_loop}

pub byte_bit-combine :
    (op : PredicateOp) (a b j : ℕ)
    → byte_bit (combine op a b) j ≡ connect op (byte_bit a j) (byte_bit b j)
unfolding combine connect
byte_bit-combine and a b j = byte_bit-bit_and a b j
byte_bit-combine or a b j = byte_bit-bit_or a b j

-- The bytes of `a` from `i` on are joined with those of `b`.
abbrev pub Joined : PredicateOp → ℕ → List ℕ → List ℕ → List ℕ → Type 0
Joined op i a b out =
    (length out ≡ length a)
    × ((j : ℕ)
        → j < length a
        → get_or out j 0
          ≡ (if ltb j i then get_or a j 0 else combine op (get_or a j 0) (get_or b j 0)))

module _ (op : PredicateOp) (lhs rhs : ℕ) (distinct : lhs ≢ rhs) (b : List ℕ) where
  combine_loop-Joined :
      (rounds i : ℕ) (a : List ℕ) (heap : Heap)
      → i + rounds ≡ length a
      → length a ≤ int_max
      → length a ≡ length b
      → get_elem? heap lhs ≡ some a
      → get_elem? heap rhs ≡ some b
      → (out : List ℕ) × (combine_loop op lhs rhs rounds i heap ≡ ok (set heap lhs out))
        × Joined op i a b out
  unfolding combine_loop
  combine_loop-Joined zero i a heap e limit same at_lhs at_rhs =
      (a, ap ok (sym (set_same heap lhs at_lhs)), (refl, λ j h. ground arith))
  combine_loop-Joined (suc rounds) i a heap e limit same at_lhs at_rhs =
      let v : ℕ = combine op (get_or a i 0) (get_or b i 0) in
      let heap' : Heap = set heap lhs (set a i v) in
      let (out, runs, (size, bytes)) =
        combine_loop-Joined rounds (i + 1) (set a i v) heap' (rw length-set (omega arith))
          (rw length-set limit) (rw length-set same)
          (get_elem?-set_self heap lhs (set a i v) (get_elem?-lt heap lhs at_lhs))
          (get_elem?-set_ne heap lhs rhs (set a i v) distinct ∙ at_rhs) in
      (
        out,
        rw
            (
              at_lhs,
              at_rhs,
              get_elem?-eq-get_or a i 0 (omega arith),
              get_elem?-eq-get_or b i 0 (omega arith),
              increment_lem i (omega arith),
            )
            (runs ∙ ap ok (set-set heap lhs (set a i v) out)),
        (
          size ∙ length-set a i v,
          λ j h.
              bytes j (rw length-set h)
              ∙ ground (arith, get_or-set_self a i v 0, get_or-set_ne a i j v 0),
        ),
      )

  -- For two buffers at different places of the heap and of one size, below 2 ^ 31 bytes, the
  -- loop of a predicate replaces the left buffer by the bitmap whose every bit is the
  -- connective of the two buffers' bits, and keeps all other buffers.
  pub combine_loop-bits :
      (a : List ℕ) (heap : Heap)
      → length a ≤ int_max
      → length a ≡ length b
      → get_elem? heap lhs ≡ some a
      → get_elem? heap rhs ≡ some b
      → (out : List ℕ) × (combine_loop op lhs rhs (length a) 0 heap ≡ ok (set heap lhs out))
        × (length out ≡ length a)
        × ((r : ℕ)
            → r < length a * 8
            → bitmap_bit out r ≡ connect op (bitmap_bit a r) (bitmap_bit b r))
  unfolding bitmap_bit
  combine_loop-bits a heap limit same at_lhs at_rhs =
      let (out, runs, (size, bytes)) =
        combine_loop-Joined (length a) 0 a heap (omega arith) limit same at_lhs at_rhs in
      (
        out,
        runs,
        size,
        λ r h.
            ap (λ (t : ℕ). byte_bit t (r % 8)) (bytes (r / 8) (omega arith) ∙ ground arith)
            ∙ byte_bit-combine op (get_or a (r / 8) 0) (get_or b (r / 8) 0) (r % 8),
      )
