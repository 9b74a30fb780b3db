-- ===== src/Execution/Filter/Condition.antt =====
-- The bitmap of a condition.
use pefa.Base.{
  ℕ, ◌≤◌, ◌<◌, ◌≡◌, ◌≢◌, ◌∙◌, refl, ap₂, sym, arith, Bool, List, [], ◌∷◌, ◌++◌, length,
  length-append, length-set, get_elem?, set, get_elem?-set_self, get_elem?-set_ne,
  get_elem?-append_left, get_elem?-append_last, get_elem?-lt, some, Outcome, ok,
}
use pefa.Arrow.{Arrow, ArrowLaws, Table}
use pefa.Bitmap.Bits.{bitmap_bit}
use pefa.Expressions.{
  BooleanExpr, boolean_const, predicate_expr, compare_expr, ColumnRef, LiteralExpr, Literal,
  CompareOp, PredicateOp,
}
use pefa.Expressions.Meaning.{holds, connect, AllAtoms}
use pefa.Kernel.Ir.{Floats}
use pefa.Execution.Counter.{int_max}
use pefa.Execution.Filter.{Heap, Executor, compare_bitmap, combine_loop, visit}
use pefa.Execution.Filter.Combine.{combine_loop-bits}

-- What `atom` says of each row of a table.
abbrev pub RowMeaning : Type 0
RowMeaning = ℕ → ColumnRef → Literal → CompareOp → Bool

module _ (arrow : Arrow) (floats : Floats) (laws : ArrowLaws arrow) (table : Table)
    (atom : RowMeaning) where
  -- A bitmap of the table whose bits are `p`.
  abbrev pub IsBitmap : (ℕ → Bool) → List ℕ → Type 0
  IsBitmap p out =
      (length out ≡ arrow.bitmap_size table.num_rows)
      × ((r : ℕ) → r < table.num_rows → bitmap_bit out r ≡ p r)

  -- A comparison returns the bitmap of what `atom` says.
  abbrev pub Decides : ColumnRef → Literal → CompareOp → Type 0
  Decides c l op =
      (out : List ℕ) × (compare_bitmap arrow floats table c (record { value = l }) op ≡ ok out)
      × IsBitmap (λ r. atom r c l op) out

  -- All comparisons do, and there is no constant.
  abbrev pub IsDecided : BooleanExpr → Type 0
  IsDecided = AllAtoms (λ b. ⊥) Decides

  -- The visitor leaves a new buffer with the bitmap `p`, and the buffers of before.
  pub record Visited (p : ℕ → Bool) (s : Executor) (result : Outcome Executor) : Type 0 where
    pub after : Executor
    pub returns : result ≡ ok after
    pub pointer : ℕ
    pub buffer_set : after.buffer ≡ some pointer
    pub fresh : length s.heap ≤ pointer
    pub out : List ℕ
    pub stored : get_elem? after.heap pointer ≡ some out
    pub bitmap : IsBitmap p out
    pub kept : (j : ℕ) → j < length s.heap → get_elem? after.heap j ≡ get_elem? s.heap j
    pub grows : length s.heap ≤ length after.heap

  visit-compare :
      (lhs : ColumnRef) (rhs : LiteralExpr) (op : CompareOp) (s : Executor)
      → Decides lhs rhs.value op
      → Visited
          (λ r. atom r lhs rhs.value op)
          s
          (visit arrow floats table (compare_expr lhs rhs op) s)
  unfolding visit
  visit-compare lhs rhs op s (out, runs, bitmap) = record {
    after = record { heap = s.heap ++ out ∷ []; buffer = some (length s.heap) };
    returns = rw runs;
    pointer = length s.heap;
    buffer_set = refl;
    fresh = omega arith;
    out = out;
    stored = get_elem?-append_last s.heap out;
    bitmap = bitmap;
    kept = λ j h. get_elem?-append_left s.heap (out ∷ []) j h;
    grows = omega (arith, length-append s.heap (out ∷ []));
  }

  visit-predicate_expr :
      (l r : BooleanExpr) (op : PredicateOp) (s a b : Executor) (p q : ℕ) (buf : List ℕ) (h : Heap)
      → visit arrow floats table l s ≡ ok a
      → visit arrow floats table r a ≡ ok b
      → a.buffer ≡ some p
      → b.buffer ≡ some q
      → get_elem? b.heap p ≡ some buf
      → combine_loop op p q (length buf) 0 b.heap ≡ ok h
      → visit arrow floats table (predicate_expr l r op) s
        ≡ ok (record { heap = h; buffer = some p })
  unfolding visit
  visit-predicate_expr l r op s a b p q buf h el er ea eb at joins =
      simp (el, er, ea, eb, at, joins)

  visit-join :
      (l r : BooleanExpr) (op : PredicateOp) (s : Executor) {p q : ℕ → Bool}
      → arrow.bitmap_size table.num_rows ≤ int_max
      → Visited p s (visit arrow floats table l s)
      → ((t : Executor) → Visited q t (visit arrow floats table r t))
      → Visited
          (λ row. connect op (p row) (q row))
          s
          (visit arrow floats table (predicate_expr l r op) s)
  visit-join l r op s limit left rest =
      let right = rest left.after in
      let at_lhs : get_elem? right.after.heap left.pointer ≡ some left.out =
        right.kept left.pointer (get_elem?-lt left.after.heap left.pointer left.stored)
        ∙ left.stored in
      let below = get_elem?-lt left.after.heap left.pointer left.stored in
      let distinct : left.pointer ≢ right.pointer = omega (arith, right.fresh) in
      let (out, runs, size, bits) =
        combine_loop-bits op left.pointer right.pointer distinct right.out left.out right.after.heap
          (omega (arith, left.bitmap.0)) (left.bitmap.0 ∙ sym right.bitmap.0) at_lhs right.stored in
      record {
        after = record { heap = set right.after.heap left.pointer out; buffer = some left.pointer };
        returns =
            visit-predicate_expr l r op s left.after right.after left.pointer right.pointer left.out
              (set right.after.heap left.pointer out) left.returns right.returns left.buffer_set
              right.buffer_set at_lhs runs;
        pointer = left.pointer;
        buffer_set = refl;
        fresh = left.fresh;
        out = out;
        stored = get_elem?-set_self right.after.heap left.pointer out (omega (arith, right.grows));
        bitmap = (
          size ∙ left.bitmap.0,
          λ row h.
              bits row (omega (arith, laws.bitmap_fits table.num_rows, left.bitmap.0))
              ∙ ap₂ (connect op) (left.bitmap.1 row h) (right.bitmap.1 row h),
        );
        kept = λ j h.
            get_elem?-set_ne right.after.heap left.pointer j out (omega (arith, left.fresh))
            ∙ right.kept j (omega (arith, left.grows))
            ∙ left.kept j h;
        grows =
            omega (arith, length-set right.after.heap left.pointer out, left.grows, right.grows);
      }

  -- If the bitmap of a table has fewer than 2 ^ 31 bytes, every comparison of a condition is
  -- decided by its bitmap, and there is no constant, then FilterExprExecutor leaves a bitmap of
  -- its own whose bit for each row is the condition's truth there, and the buffers of before as
  -- they were.
  pub visit-Visited :
      arrow.bitmap_size table.num_rows ≤ int_max
      → (e : BooleanExpr) (s : Executor) → IsDecided e
      → Visited (λ r. holds (atom r) e) s (visit arrow floats table e s)
  unfolding holds
  visit-Visited limit (boolean_const b) s decided = absurd decided
  visit-Visited limit (compare_expr lhs rhs op) s decided = visit-compare lhs rhs op s decided
  visit-Visited limit (predicate_expr l r op) s decided =
      visit-join l r op s limit (visit-Visited limit l s decided.0)
        (λ t. visit-Visited limit r t decided.1)
