-- ===== src/Kernel/Graph/Runs.antt =====
-- The graph of `filter` runs as the loops of Kernel.Code.
use Prim.Native.Nat.{bit_and}
use mathlib.Core.Path.{subst}
use pefa.Base.{
  Option-cases, inl, inr, ℕ, zero, suc, ◌+◌, ◌-◌, ◌*◌, ◌/◌, ◌%◌, ◌^◌, ◌≤◌, ◌<◌, ◌≡◌, ◌∙◌, refl,
  arith, ltb, Bool, List, [], ◌∷◌, none, some, get_elem?, set, Outcome, ok, fault, Fault,
}
use pefa.Bitmap.{zext8}
use pefa.Kernel.Ir.{flip_sign}
use pefa.Kernel.Code.{inner_loop, outer_loop}
use pefa.Kernel.Code
use pefa.Kernel.Graph.{State, Datum, number, source_at, dest_at, run}
use pefa.Kernel.Graph.Filter.{body, cond_1, for_1, cond_2, end_for2, gen_filter_func}
use pefa.Kernel.Graph.Tests.{less64, not_less64, in_range64}
use pefa.Kernel.Graph.Inner.{outer_fuel, inner_fuel, inner_state, inner_runs}

module _ (predicate : ℕ → Bool) (read : ℕ → Outcome ℕ) (out len : ℕ) where
  abbrev pub args : List Datum
  args = source_at 0 ∷ dest_at out ∷ number len ∷ []

  -- The state at the head of the outer loop.
  abbrev outer_state : ℕ → List ℕ → State → State
  outer_state i dest s = record s { i = some (number i); source = some (source_at 0); dest = dest }

  -- The state behind the head, and behind the beginning of the body.
  abbrev head_state : ℕ → ℕ → List ℕ → State → State
  head_state test i dest s = record (outer_state i dest s) { condition = some (number test) }

  cond_1_true :
      (fuel i : ℕ) (dest : List ℕ) (s : State)
      → len / 8 < 2 ^ 61
      → i < len / 8
      → run predicate read args gen_filter_func (suc fuel) cond_1 (outer_state i dest s)
        ≡ run predicate read args gen_filter_func fuel for_1
            (head_state (zext8 (ltb (flip_sign 64 i) (flip_sign 64 (len / 8)))) i dest s)
  unfolding run gen_filter_func
  cond_1_true fuel i dest s small h = rw (less64 i (len / 8) small h) refl

  cond_1_false :
      (fuel i : ℕ) (dest : List ℕ) (s : State)
      → i ≡ len / 8
      → run predicate read args gen_filter_func (suc (suc fuel)) cond_1 (outer_state i dest s)
        ≡ ok dest
  unfolding run gen_filter_func
  cond_1_false fuel i dest s e = rw (not_less64 i (len / 8) e) refl

  for_1_lem :
      (fuel test i : ℕ) (dest : List ℕ) (s : State)
      → i < 2 ^ 60
      → run predicate read args gen_filter_func (suc fuel) for_1 (head_state test i dest s)
        ≡ run predicate read args gen_filter_func fuel cond_2 (
            inner_state predicate read args i 0 0
              (record (head_state test i dest s) { li = some (number i) }))
  unfolding run gen_filter_func
  for_1_lem fuel test i dest s small =
      let whole : i * 8 % 2 ^ 64 ≡ i * 8 = omega arith in
      let start : 0 + i * 8 ≡ i * 8 = omega arith in
      rw (whole, in_range64 (i * 8) (omega arith), start) refl

  -- The state behind a byte.
  abbrev after_byte : ℕ → ℕ → ℕ → State → State
  after_byte i t d s = record s {
    j = some (number 8);
    tmp_bitmap = some (number t);
    src = some (source_at (i * 8));
    dest_val = some (number d);
    updated_bitmap = some (number (bit_and d t));
  }

  end_for2_some :
      (fuel i t d : ℕ) (s : State)
      → i < 2 ^ 60
      → get_elem? s.dest (out + i) ≡ some d
      → run predicate read args gen_filter_func
          (suc fuel)
          end_for2
          (inner_state predicate read args i 8 t s)
        ≡ run predicate read args gen_filter_func fuel cond_1 (record (after_byte i t d s) {
          i = some (number (i + 1));
          dest = set s.dest (out + i) (bit_and d t);
        })
  unfolding run gen_filter_func
  end_for2_some fuel i t d s small found =
      let next : (i + 1) % 2 ^ 64 ≡ i + 1 = omega arith in
      rw (in_range64 i (omega arith), found, in_range64 i (omega arith), found, next) refl

  end_for2_none :
      (fuel i t : ℕ) (s : State)
      → i < 2 ^ 60
      → get_elem? s.dest (out + i) ≡ none
      → run predicate read args gen_filter_func
          (suc fuel)
          end_for2
          (inner_state predicate read args i 8 t s)
        ≡ fault Fault.out_of_bounds
  unfolding run gen_filter_func
  end_for2_none fuel i t s small missing = rw (in_range64 i (omega arith), missing) refl

  outer_runs :
      (extra rounds i : ℕ) (dest : List ℕ) (s : State)
      → len < 2 ^ 63
      → i + rounds ≡ len / 8
      → run predicate read args gen_filter_func
          (outer_fuel rounds extra)
          cond_1
          (outer_state i dest s)
        ≡ outer_loop predicate read rounds out i dest
  unfolding outer_loop
  outer_runs extra zero i dest s small e = cond_1_false extra i dest s (omega arith)
  outer_runs extra (suc rounds) i dest s small e =
      let below : i < 2 ^ 60 = omega arith in
      let fuel : ℕ = outer_fuel rounds extra in
      let test : ℕ = zext8 (ltb (flip_sign 64 i) (flip_sign 64 (len / 8))) in
      let inner : State = record (head_state test i dest s) { li = some (number i) } in
      cond_1_true (suc (inner_fuel 8 (suc fuel))) i dest s (omega arith) (omega arith)
      ∙ for_1_lem (inner_fuel 8 (suc fuel)) test i dest s below
      ∙ inner_runs predicate read args _ (suc fuel) i 8 0 0 inner refl (λ t b w u.
        let st : State = record inner { bit = b; bit_with_shift = w; updated_tmp_bitmap = u } in
        elim (Option-cases (get_elem? dest (out + i))) [
          | inl missing ↦ end_for2_none fuel i t st below missing ∙ rw missing refl
          | inr (d, found) ↦
              end_for2_some fuel i t d st below found
              ∙ outer_runs extra rounds (i + 1) (set dest (out + i) (bit_and d t))
                  (after_byte i t d st) small (omega arith)
              ∙ rw found refl
        ])

  body_runs :
      (extra : ℕ) (s : State)
      → len < 2 ^ 63
      → run predicate read args gen_filter_func (suc (outer_fuel (len / 8) extra)) body s
        ≡ Code.filter predicate read s.dest out len
  unfolding run gen_filter_func Code.filter
  body_runs extra s small =
      let whole : len % 2 ^ 64 / 8 ≡ len / 8 = omega arith in
      rw whole (outer_runs extra (len / 8) 0 s.dest s small (omega arith))

  outer_fuel_lem : (rounds extra : ℕ) → outer_fuel rounds extra ≡ 20 * rounds + 2 + extra
  outer_fuel_lem zero extra = omega arith
  outer_fuel_lem (suc rounds) extra = omega (arith, outer_fuel_lem rounds extra)

  -- For a length below 2 ^ 63, and with fuel for 20 blocks for each whole byte of it and for three more:
  -- the function that `gen_filter_func` builds runs, from any state, as the two loops do, to the same
  -- buffer, or to the same fault.
  pub filter-run :
      (fuel : ℕ) (s : State)
      → len < 2 ^ 63
      → 20 * (len / 8) + 3 ≤ fuel
      → run predicate read args gen_filter_func fuel body s
        ≡ Code.filter predicate read s.dest out len
  filter-run fuel s small enough =
      let extra : ℕ = fuel - (20 * (len / 8) + 3) in
      let blocks : suc (outer_fuel (len / 8) extra) ≡ fuel =
        omega (arith, outer_fuel_lem (len / 8) extra) in
      subst
        (λ (n : ℕ).
          run predicate read args gen_filter_func n body s
          ≡ Code.filter predicate read s.dest out len)
        blocks (body_runs extra s small)
