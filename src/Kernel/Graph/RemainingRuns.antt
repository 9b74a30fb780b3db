-- ===== src/Kernel/Graph/RemainingRuns.antt =====
-- The graph of `filter_remaining` runs as the loop of Kernel.Code.
use Prim.Native.Nat.{bit_and}
use mathlib.Core.Path.{subst}
use pefa.Base.{
  Outcome-cases, Option-cases, inl, inr, Exception, Bool-cases, ℕ, zero, suc, ◌+◌, ◌-◌, ◌*◌, ◌^◌,
  ◌≤◌, ◌<◌, ◌≡◌, ◌∙◌, refl, arith, ltb, ◌==◌, true, false, Bool, List, [], ◌∷◌, none, some,
  get_elem?, set, Outcome, ok, throw, fault, Fault,
}
use pefa.Bitmap.{add8, sub8, not8, shl8, zext8}
use pefa.Kernel.Ir.{flip_sign}
use pefa.Kernel.Code.{remaining_loop}
use pefa.Kernel.Code
use pefa.Kernel.Graph.{State, Datum, number, source_at, dest_at, run}
use pefa.Kernel.Graph.Remaining.{Label, body, cond, loop, gen_filter_remaining_func}

signed8_true :
    (a b : ℕ) → b < 128 → a < b → (zext8 (ltb (flip_sign 8 a) (flip_sign 8 b)) == 0) ≡ false
unfolding flip_sign zext8
signed8_true a b small h = ground arith

signed8_end : (a b : ℕ) → a ≡ b → (zext8 (ltb (flip_sign 8 a) (flip_sign 8 b)) == 0) ≡ true
unfolding flip_sign zext8
signed8_end a b e = ground arith

-- A length from 128 is negative.
signed8_negative :
    (b : ℕ) → 128 ≤ b → b < 256 → (zext8 (ltb (flip_sign 8 0) (flip_sign 8 b)) == 0) ≡ true
unfolding flip_sign zext8
signed8_negative b large small = ground arith

in_range : (a : ℕ) → a < 128 → ltb a (2 ^ (8 - 1)) ≡ true
in_range a h = ground arith

-- The blocks that the loop takes, and `extra` more.
abbrev loop_fuel : ℕ → ℕ → ℕ
loop_fuel zero extra = suc (suc extra)
loop_fuel (suc rounds) extra = suc (suc (loop_fuel rounds extra))

module _ (predicate : ℕ → Bool) (read : ℕ → Outcome ℕ) (out len bit_offset : ℕ) where
  abbrev pub args : List Datum
  args = source_at 0 ∷ dest_at out ∷ number len ∷ number bit_offset ∷ []

  abbrev run_remaining : ℕ → Label → State → Outcome (List ℕ)
  run_remaining = run predicate read args gen_filter_remaining_func

  abbrev loop_state : ℕ → List ℕ → State → State
  loop_state i dest s = record s { i = some (number i); source = some (source_at 0); dest = dest }

  abbrev tested : ℕ → State → State
  tested i s = record s {
    condition = some (number (zext8 (ltb (flip_sign 8 i) (flip_sign 8 len))));
  }

  cond_true :
      (fuel i : ℕ) (dest : List ℕ) (s : State)
      → len < 128
      → i < len
      → run_remaining (suc fuel) cond (loop_state i dest s)
        ≡ run_remaining fuel loop (loop_state i dest (tested i s))
  unfolding run gen_filter_remaining_func
  cond_true fuel i dest s small h = rw (signed8_true i len small h) refl

  cond_false :
      (fuel i : ℕ) (dest : List ℕ) (s : State)
      → (zext8 (ltb (flip_sign 8 i) (flip_sign 8 len)) == 0) ≡ true
      → run_remaining (suc (suc fuel)) cond (loop_state i dest s) ≡ ok dest
  unfolding run gen_filter_remaining_func
  cond_false fuel i dest s h = rw h refl

  -- The bit of the element `x` at its place.
  abbrev shifted : ℕ → ℕ → Outcome ℕ
  shifted x i = shl8 (bit_and (not8 (zext8 (predicate x))) 1) (sub8 7 (add8 i bit_offset))

  abbrev after_row : ℕ → ℕ → State → State
  after_row x sh s = record s {
    bit = some (number (zext8 (predicate x)));
    masked_bit = some (number (not8 sh));
  }

  loop_ok :
      (fuel i x sh d : ℕ) (dest : List ℕ) (s : State)
      → i < 128
      → read i ≡ ok x
      → shifted x i ≡ ok sh
      → get_elem? dest out ≡ some d
      → run_remaining (suc fuel) loop (loop_state i dest s)
        ≡ run_remaining fuel cond
            (loop_state (add8 i 1) (set dest out (bit_and d (not8 sh))) (after_row x sh s))
  unfolding run gen_filter_remaining_func
  loop_ok fuel i x sh d dest s h reads shifts found =
      let start : 0 + i ≡ i = omega arith in rw (in_range i h, start, reads, shifts, found) refl

  loop_read_throws :
      (fuel i : ℕ) (e : Exception) (dest : List ℕ) (s : State)
      → i < 128
      → read i ≡ throw e
      → run_remaining (suc fuel) loop (loop_state i dest s) ≡ throw e
  unfolding run gen_filter_remaining_func
  loop_read_throws fuel i e dest s h reads =
      let start : 0 + i ≡ i = omega arith in rw (in_range i h, start, reads) refl

  loop_read_faults :
      (fuel i : ℕ) (e : Fault) (dest : List ℕ) (s : State)
      → i < 128
      → read i ≡ fault e
      → run_remaining (suc fuel) loop (loop_state i dest s) ≡ fault e
  unfolding run gen_filter_remaining_func
  loop_read_faults fuel i e dest s h reads =
      let start : 0 + i ≡ i = omega arith in rw (in_range i h, start, reads) refl

  loop_shift_throws :
      (fuel i x : ℕ) (e : Exception) (dest : List ℕ) (s : State)
      → i < 128
      → read i ≡ ok x
      → shifted x i ≡ throw e
      → run_remaining (suc fuel) loop (loop_state i dest s) ≡ throw e
  unfolding run gen_filter_remaining_func
  loop_shift_throws fuel i x e dest s h reads shifts =
      let start : 0 + i ≡ i = omega arith in rw (in_range i h, start, reads, shifts) refl

  loop_shift_faults :
      (fuel i x : ℕ) (e : Fault) (dest : List ℕ) (s : State)
      → i < 128
      → read i ≡ ok x
      → shifted x i ≡ fault e
      → run_remaining (suc fuel) loop (loop_state i dest s) ≡ fault e
  unfolding run gen_filter_remaining_func
  loop_shift_faults fuel i x e dest s h reads shifts =
      let start : 0 + i ≡ i = omega arith in rw (in_range i h, start, reads, shifts) refl

  loop_outside :
      (fuel i x sh : ℕ) (dest : List ℕ) (s : State)
      → i < 128
      → read i ≡ ok x
      → shifted x i ≡ ok sh
      → get_elem? dest out ≡ none
      → run_remaining (suc fuel) loop (loop_state i dest s) ≡ fault Fault.out_of_bounds
  unfolding run gen_filter_remaining_func
  loop_outside fuel i x sh dest s h reads shifts missing =
      let start : 0 + i ≡ i = omega arith in rw (in_range i h, start, reads, shifts, missing) refl

  add8_small : (i : ℕ) → i < 128 → add8 i 1 ≡ i + 1
  unfolding add8
  add8_small i h = omega arith

  loop_runs :
      (extra rounds i : ℕ) (dest : List ℕ) (s : State)
      → len < 128
      → i + rounds ≡ len
      → run_remaining (loop_fuel rounds extra) cond (loop_state i dest s)
        ≡ remaining_loop predicate read rounds bit_offset out i dest
  unfolding remaining_loop
  loop_runs extra zero i dest s small e =
      cond_false extra i dest s (signed8_end i len (omega arith))
  loop_runs extra (suc rounds) i dest s small e =
      let below : i < 128 = omega arith in
      let fuel : ℕ = loop_fuel rounds extra in
      let st : State = tested i s in
      cond_true (suc fuel) i dest s small (omega arith) ∙ elim (Outcome-cases (read i)) [
        | inr (inl (err, stops)) ↦ loop_read_throws fuel i err dest st below stops ∙ rw stops refl
        | inr (inr (err, stops)) ↦ loop_read_faults fuel i err dest st below stops ∙ rw stops refl
        | inl (x, reads) ↦ elim (Outcome-cases (shifted x i)) [
          | inr (inl (err, stops)) ↦
              loop_shift_throws fuel i x err dest st below reads stops ∙ rw (reads, stops) refl
          | inr (inr (err, stops)) ↦
              loop_shift_faults fuel i x err dest st below reads stops ∙ rw (reads, stops) refl
          | inl (sh, shifts) ↦ elim (Option-cases (get_elem? dest out)) [
            | inl missing ↦
                loop_outside fuel i x sh dest st below reads shifts missing
                ∙ rw (reads, shifts, missing) refl
            | inr (d, found) ↦
                loop_ok fuel i x sh d dest st below reads shifts found
                ∙ loop_runs extra rounds (add8 i 1) (set dest out (bit_and d (not8 sh)))
                    (after_row x sh st) small (omega (arith, add8_small i below))
                ∙ rw (reads, shifts, found) refl
          ]
        ]
      ]

  loop_fuel_lem : (rounds extra : ℕ) → loop_fuel rounds extra ≡ 2 * rounds + 2 + extra
  loop_fuel_lem zero extra = omega arith
  loop_fuel_lem (suc rounds) extra = omega (arith, loop_fuel_lem rounds extra)

  body_runs :
      (fuel : ℕ) (s : State)
      → run_remaining (suc fuel) body s ≡ run_remaining fuel cond (loop_state 0 s.dest s)
  unfolding run gen_filter_remaining_func
  body_runs fuel s = refl

  -- For a length below 256, and with fuel for two blocks for each row of it and for three more: the
  -- function that `gen_filter_remaining_func` builds runs, from any state, as the loop does, to the same
  -- buffer, or to the same fault.
  pub filter_remaining-run :
      (fuel : ℕ) (s : State)
      → len < 256
      → 2 * len + 3 ≤ fuel
      → run_remaining fuel body s ≡ Code.filter_remaining predicate read s.dest out len bit_offset
  unfolding Code.filter_remaining remaining_loop
  filter_remaining-run fuel s small enough = elim (Bool-cases (ltb len 128)) [
    | inl short ↦
        let extra : ℕ = fuel - (2 * len + 3) in
        let blocks : suc (loop_fuel len extra) ≡ fuel = omega (arith, loop_fuel_lem len extra) in
        rw short (
          subst
            (λ (n : ℕ).
              run_remaining n body s ≡ remaining_loop predicate read len bit_offset out 0 s.dest)
            blocks
            (body_runs (loop_fuel len extra) s
              ∙ loop_runs extra len 0 s.dest s (ground arith) (omega arith)))
    | inr long ↦
        let blocks : suc (suc (suc (fuel - 3))) ≡ fuel = omega arith in
        rw long (
          subst (λ (n : ℕ). run_remaining n body s ≡ ok s.dest) blocks
            (body_runs (suc (suc (fuel - 3))) s
              ∙ cond_false (fuel - 3) 0 s.dest s (signed8_negative len (ground arith) small)))
  ]
