-- ===== src/Execution/Filter/Constants.antt =====
-- Constants inside a condition. The visitor does nothing at one, so both pointers of a predicate
-- are to the buffer of its left side.
use pefa.Base.{
  ℕ, zero, suc, ◌+◌, ◌*◌, ◌/◌, ◌%◌, ◌<◌, ◌≡◌, ◌∙◌, refl, ap, sym, arith, Bool, true, false, List,
  length, get_or, get_elem?, set, length-set, get_elem?-eq-get_or, get_or-set_self, get_or-set_ne,
  get_elem?-set_self, get_elem?-set_ne, get_elem?-lt, set-set, set_same, some, ok, ◌≤◌,
}
use pefa.Arrow.{Arrow, ArrowLaws, Table}
use pefa.Bitmap.Bits.{bitmap_bit, byte_bit}
use pefa.Expressions.{BooleanExpr, boolean_const, predicate_expr, PredicateOp, and, or}
use pefa.Expressions.Meaning.{connect}
use pefa.Kernel.Ir.{Floats}
use pefa.Execution.Counter.{int_max, increment_lem}
use pefa.Execution.Filter.{Heap, Executor, combine, combine_loop, visit}
use pefa.Execution.Filter.Combine.{Joined, byte_bit-combine}
use pefa.Execution.Filter.Condition.{RowMeaning, Visited}

connect_self : (op : PredicateOp) (b : Bool) → connect op b b ≡ b
unfolding connect
connect_self and true = refl
connect_self and false = refl
connect_self or true = refl
connect_self or false = refl

module _ (op : PredicateOp) (p : ℕ) where
  combine_loop_self :
      (rounds i : ℕ) (a : List ℕ) (heap : Heap)
      → i + rounds ≡ length a
      → length a ≤ int_max
      → get_elem? heap p ≡ some a
      → (out : List ℕ) × (combine_loop op p p rounds i heap ≡ ok (set heap p out))
        × Joined op i a a out
  unfolding combine_loop
  combine_loop_self zero i a heap e limit at =
      (a, ap ok (sym (set_same heap p at)), (refl, λ j h. ground arith))
  combine_loop_self (suc rounds) i a heap e limit at =
      let v : ℕ = combine op (get_or a i 0) (get_or a i 0) in
      let (out, runs, (size, bytes)) =
        combine_loop_self rounds (i + 1) (set a i v) (set heap p (set a i v))
          (rw length-set (omega arith)) (rw length-set limit)
          (get_elem?-set_self heap p (set a i v) (get_elem?-lt heap p at)) in
      (
        out,
        rw (at, get_elem?-eq-get_or a i 0 (omega arith), increment_lem i (omega arith))
            (runs ∙ ap ok (set-set heap p (set a i v) out)),
        (
          size ∙ length-set a i v,
          λ j h.
              bytes j (rw length-set h)
              ∙ ground (arith, get_or-set_self a i v 0, get_or-set_ne a i j v 0),
        ),
      )

  -- A buffer that is joined with itself keeps its bits.
  combine_loop_same :
      (a : List ℕ) (heap : Heap)
      → length a ≤ int_max
      → get_elem? heap p ≡ some a
      → (out : List ℕ) × (combine_loop op p p (length a) 0 heap ≡ ok (set heap p out))
        × (length out ≡ length a)
        × ((r : ℕ) → r < length a * 8 → bitmap_bit out r ≡ bitmap_bit a r)
  unfolding bitmap_bit
  combine_loop_same a heap limit at =
      let (out, runs, (size, bytes)) =
        combine_loop_self (length a) 0 a heap (omega arith) limit at in
      (
        out,
        runs,
        size,
        λ r h.
            ap (λ (t : ℕ). byte_bit t (r % 8)) (bytes (r / 8) (omega arith) ∙ ground arith)
            ∙ byte_bit-combine op (get_or a (r / 8) 0) (get_or a (r / 8) 0) (r % 8)
            ∙ connect_self op (byte_bit (get_or a (r / 8) 0) (r % 8)),
      )

module _ (arrow : Arrow) (floats : Floats) (laws : ArrowLaws arrow) (table : Table)
    (atom : RowMeaning) where
  visit-predicate_const :
      (l : BooleanExpr) (b : Bool) (op : PredicateOp) (s a : Executor) (p : ℕ) (buf : List ℕ)
      (h : Heap)
      → visit arrow floats table l s ≡ ok a
      → a.buffer ≡ some p
      → get_elem? a.heap p ≡ some buf
      → combine_loop op p p (length buf) 0 a.heap ≡ ok h
      → visit arrow floats table (predicate_expr l (boolean_const b) op) s
        ≡ ok (record { heap = h; buffer = some p })
  unfolding visit
  visit-predicate_const l b op s a p buf h runs at stored joins = rw (runs, at, stored, joins) refl

  -- Where the bitmap of a table has fewer than 2 ^ 31 bytes, and the visit of an expression
  -- leaves a bitmap of its own, the visit of the expression joined with a constant on its right
  -- side, by AND or by OR, leaves one of the same bits, whether the constant is true or false.
  pub visit-boolean_const :
      (l : BooleanExpr) (b : Bool) (op : PredicateOp) (s : Executor) (p : ℕ → Bool)
      → arrow.bitmap_size table.num_rows ≤ int_max
      → Visited arrow floats laws table atom p s (visit arrow floats table l s)
      → Visited arrow floats laws table atom p s
          (visit arrow floats table (predicate_expr l (boolean_const b) op) s)
  visit-boolean_const l b op s p limit left =
      let below = get_elem?-lt left.after.heap left.pointer left.stored in
      let (out, runs, size, bits) =
        combine_loop_same op left.pointer left.out left.after.heap (omega (arith, left.bitmap.0))
          left.stored in
      record {
        after = record { heap = set left.after.heap left.pointer out; buffer = some left.pointer };
        returns =
            visit-predicate_const l b op s left.after left.pointer left.out
              (set left.after.heap left.pointer out) left.returns left.buffer_set left.stored runs;
        pointer = left.pointer;
        buffer_set = refl;
        fresh = left.fresh;
        out = out;
        stored = get_elem?-set_self left.after.heap left.pointer out below;
        bitmap = (
          size ∙ left.bitmap.0,
          λ row h.
              bits row (omega (arith, laws.bitmap_fits table.num_rows, left.bitmap.0))
              ∙ left.bitmap.1 row h,
        );
        kept = λ j h.
            get_elem?-set_ne left.after.heap left.pointer j out (omega (arith, left.fresh))
            ∙ left.kept j h;
        grows = omega (arith, length-set left.after.heap left.pointer out, left.grows);
      }
