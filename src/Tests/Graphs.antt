-- ===== src/Tests/Graphs.antt =====
-- The emitted graphs on sixteen values and a bitmap of four bytes.
use pefa.Base.{
  ℕ, ◌≡◌, refl, arith, ltb, Bool, List, [], ◌∷◌, get_elem?, none, Outcome, ok, Fault, deref,
}
use pefa.Bitmap.{add8, sub8, not8, shl8, zext8}
use pefa.Kernel.Ir.{flip_sign}
use pefa.Kernel.Code
use pefa.Kernel.Graph.{State, Datum, number, source_at, dest_at, run}
use pefa.Kernel.Graph.Filter
use pefa.Kernel.Graph.Remaining
use pefa.Kernel.Graph.Filter.{gen_filter_func}
use pefa.Kernel.Graph.Remaining.{gen_filter_remaining_func}
use pefa.Kernel.Graph.Runs.{filter-run}
use pefa.Kernel.Graph.RemainingRuns.{filter_remaining-run}

abbrev values : List ℕ
values = 1 ∷ 9 ∷ 2 ∷ 8 ∷ 3 ∷ 7 ∷ 4 ∷ 6 ∷ 5 ∷ 5 ∷ 0 ∷ 9 ∷ 1 ∷ 8 ∷ 2 ∷ 7 ∷ []

abbrev below_five : ℕ → Bool
below_five v = ltb v 5

abbrev load_value : ℕ → Outcome ℕ
load_value k = deref (get_elem? values k) Fault.out_of_bounds

-- Nothing has been stored or named.
abbrev fresh : List ℕ → State
fresh dest = record {
  i = none;
  j = none;
  tmp_bitmap = none;
  source = none;
  condition = none;
  li = none;
  src = none;
  bit = none;
  bit_with_shift = none;
  updated_tmp_bitmap = none;
  dest_val = none;
  updated_bitmap = none;
  masked_bit = none;
  dest = dest;
}

abbrev bytes : List ℕ
bytes = 255 ∷ 255 ∷ 90 ∷ 255 ∷ []

abbrev filter_args : List Datum
filter_args = source_at 0 ∷ dest_at 1 ∷ number 16 ∷ []

filter-run_example :
    run below_five load_value filter_args gen_filter_func 43 Filter.Label.body (fresh bytes)
    ≡ Code.filter below_five load_value bytes 1 16
filter-run_example =
    filter-run below_five load_value 1 16 43 (fresh bytes) (omega arith) (omega arith)

filter_remaining-run_example :
    run below_five load_value
      (source_at 0 ∷ dest_at 1 ∷ number 5 ∷ number 3 ∷ [])
      gen_filter_remaining_func
      13
      Remaining.Label.body
      (fresh (255 ∷ 182 ∷ []))
    ≡ Code.filter_remaining below_five load_value (255 ∷ 182 ∷ []) 1 5 3
filter_remaining-run_example =
    filter_remaining-run below_five load_value 1 5 3 13 (fresh (255 ∷ 182 ∷ [])) (omega arith)
      (omega arith)

-- Two bytes, of 10101010 and 00101010 for the values.
filtered_bytes :
    run below_five load_value filter_args gen_filter_func 43 Filter.Label.body (fresh bytes)
    ≡ ok (255 ∷ 170 ∷ 10 ∷ 255 ∷ [])
unfolding run gen_filter_func add8 sub8 not8 shl8 zext8 flip_sign
filtered_bytes = refl
