-- ===== src/Kernel/Graph/Inner.antt =====
-- The inner loop of the graph of `filter`.
use Prim.Native.Nat.{bit_or}
use mathlib.Core.Path.{subst}
use pefa.Base.{
  Outcome-cases, inl, inr, Exception, ℕ, zero, suc, ◌+◌, ◌-◌, ◌*◌, ◌%◌, ◌^◌, ◌<◌, ◌≡◌, ◌∙◌, refl,
  arith, Bool, List, Option, some, Outcome, ok, throw, fault, Fault, ◌>>=◌,
}
use pefa.Bitmap.{add8, zext8}
use pefa.Kernel.Loops.{shl8_lem}
use pefa.Kernel.Code.{inner_loop}
use pefa.Kernel.Graph.{State, Datum, number, source_at, run}
use pefa.Kernel.Graph.Filter.{Label, cond_2, for_2, end_for2, gen_filter_func}
use pefa.Kernel.Graph.Tests.{less8, not_less8, in_range8}

-- The blocks that the loops take, and `extra` more.
abbrev pub inner_fuel : ℕ → ℕ → ℕ
inner_fuel zero extra = suc extra
inner_fuel (suc rounds) extra = suc (suc (inner_fuel rounds extra))

abbrev pub outer_fuel : ℕ → ℕ → ℕ
outer_fuel zero extra = suc (suc extra)
outer_fuel (suc rounds) extra = suc (suc (inner_fuel 8 (suc (outer_fuel rounds extra))))

module _ (predicate : ℕ → Bool) (read : ℕ → Outcome ℕ) (args : List Datum) where
  abbrev run_filter : ℕ → Label → State → Outcome (List ℕ)
  run_filter = run predicate read args gen_filter_func

  -- The state in the inner loop.
  abbrev pub inner_state : ℕ → ℕ → ℕ → State → State
  inner_state i j tmp s = record s {
    i = some (number i);
    j = some (number j);
    tmp_bitmap = some (number tmp);
    src = some (source_at (i * 8));
  }

  -- The state behind the body of the inner loop, for the element `x`.
  abbrev after_element : ℕ → ℕ → ℕ → State → State
  after_element tmp shifted x s = record s {
    bit = some (number (zext8 (predicate x)));
    bit_with_shift = some (number shifted);
    updated_tmp_bitmap = some (number (bit_or tmp shifted));
  }

  cond_2_true :
      (fuel i j tmp : ℕ) (s : State)
      → j < 8
      → run_filter (suc fuel) cond_2 (inner_state i j tmp s)
        ≡ run_filter fuel for_2 (inner_state i j tmp s)
  unfolding run gen_filter_func
  cond_2_true fuel i j tmp s h = rw (less8 j h) refl

  cond_2_false :
      (fuel i tmp : ℕ) (s : State)
      → run_filter (suc fuel) cond_2 (inner_state i 8 tmp s)
        ≡ run_filter fuel end_for2 (inner_state i 8 tmp s)
  unfolding run gen_filter_func
  cond_2_false fuel i tmp s = rw not_less8 refl

  for_2_ok :
      (fuel i j tmp x : ℕ) (s : State)
      → j < 8
      → read (i * 8 + j) ≡ ok x
      → run_filter (suc fuel) for_2 (inner_state i j tmp s)
        ≡ run_filter fuel cond_2 (
            inner_state i
              (add8 j 1)
              (bit_or tmp (zext8 (predicate x) * 2 ^ (7 - j) % 256))
              (after_element tmp (zext8 (predicate x) * 2 ^ (7 - j) % 256) x s))
  unfolding run gen_filter_func
  for_2_ok fuel i j tmp x s h reads =
      rw (in_range8 j h, reads, shl8_lem (zext8 (predicate x)) j h) refl

  for_2_throws :
      (fuel i j tmp : ℕ) (e : Exception) (s : State)
      → j < 8
      → read (i * 8 + j) ≡ throw e
      → run_filter (suc fuel) for_2 (inner_state i j tmp s) ≡ throw e
  unfolding run gen_filter_func
  for_2_throws fuel i j tmp e s h reads = rw (in_range8 j h, reads) refl

  for_2_faults :
      (fuel i j tmp : ℕ) (e : Fault) (s : State)
      → j < 8
      → read (i * 8 + j) ≡ fault e
      → run_filter (suc fuel) for_2 (inner_state i j tmp s) ≡ fault e
  unfolding run gen_filter_func
  for_2_faults fuel i j tmp e s h reads = rw (in_range8 j h, reads) refl

  add8_lem : (j rounds : ℕ) → j + suc rounds ≡ 8 → add8 j 1 + rounds ≡ 8
  unfolding add8
  add8_lem j rounds h = omega arith

  -- The inner loop, and what follows it: `behind` is what runs behind the loop.
  pub inner_runs :
      (behind : ℕ → Outcome (List ℕ)) (fuel i rounds j tmp : ℕ) (s : State)
      → j + rounds ≡ 8
      → ((t : ℕ) (b w u : Option Datum)
          → run_filter fuel end_for2
              (inner_state i 8 t (record s { bit = b; bit_with_shift = w; updated_tmp_bitmap = u }))
            ≡ behind t)
      → run_filter (inner_fuel rounds fuel) cond_2 (inner_state i j tmp s)
        ≡ (inner_loop predicate read rounds (i * 8) j tmp >>= behind)
  unfolding inner_loop
  inner_runs behind fuel i zero j tmp s e goes_on =
      let last : 8 ≡ j = omega arith in
      subst (λ (k : ℕ). run_filter (suc fuel) cond_2 (inner_state i k tmp s) ≡ behind tmp) last
        (cond_2_false fuel i tmp s ∙ goes_on tmp s.bit s.bit_with_shift s.updated_tmp_bitmap)
  inner_runs behind fuel i (suc rounds) j tmp s e goes_on =
      let small : j < 8 = omega arith in
      cond_2_true (suc (inner_fuel rounds fuel)) i j tmp s small
      ∙ elim (Outcome-cases (read (i * 8 + j))) [
        | inl (x, reads) ↦
            for_2_ok (inner_fuel rounds fuel) i j tmp x s small reads
            ∙ inner_runs behind fuel i rounds (add8 j 1) _ (after_element tmp _ x s)
                (add8_lem j rounds e) goes_on
            ∙ rw (reads, shl8_lem (zext8 (predicate x)) j small) refl
        | inr (inl (err, stops)) ↦
            for_2_throws (inner_fuel rounds fuel) i j tmp err s small stops ∙ rw stops refl
        | inr (inr (err, stops)) ↦
            for_2_faults (inner_fuel rounds fuel) i j tmp err s small stops ∙ rw stops refl
      ]
