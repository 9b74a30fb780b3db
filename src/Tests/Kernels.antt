-- ===== src/Tests/Kernels.antt =====
-- Kernels at concrete chunks and bitmaps.
use pefa.Base.{
  ℕ, ◌-◌, ◌*◌, ◌+◌, ◌^◌, ◌<◌, ◌≡◌, ◌≢◌, ap, refl, arith, ltb, Bool, List, [], ◌∷◌, get_or,
  get_elem?, get_elem?-eq-get_or, replicate, some, Outcome, ok, Fault, deref,
}
use pefa.Base.Int.{pos}
use pefa.Arrow.{TypeId, Field, Array}
use pefa.Bitmap.Bits.{window}
use pefa.Bitmap.Masks.{Masks}
use pefa.Expressions.{
  BooleanExpr, int_lit, col, lit, gt, gt_expr, lt_expr, and_expr, compare_expr, boolean_expr,
}
use pefa.Expressions.Meaning.{compare_int, holds}
use pefa.Kernel.Ir.{i8, truncate, int_width, i32}
use pefa.Kernel.Literals.{signed, to_int}
use pefa.Kernel.Integers.{int8, int32, compare_code}
use pefa.Kernel.Predicates.{atom_at, IsFieldCondition, compile-holds}
use pefa.Bitmap.{add8, sub8, not8, shl8, zext8}
use pefa.Kernel.Code.{filter, filter_remaining, inner_loop, outer_loop, remaining_loop}
use pefa.Kernel.Object.{
  FilterKernel, Compiled, create_cpu, compile, run_predicate, execute, execute_remaining, sub_size,
}
use pefa.Kernel.Loops.{Passes}
use pefa.Kernel.Remaining.{filter-Masks, filter_remaining-Masks}
use pefa.Kernel.Execute.{IsReady, execute-Masks, head-Masks, tail-Masks}
use pefa.Kernel.Wraps.{compile-wraps}
use pefa.Kernel.Limits.{execute_short, execute_remaining_256}
use pefa.Tests.Data.{test_arrow, test_floats, a_condition, chunk}

abbrev a_field : Field
a_field = record { name = "a"; type = TypeId.int32 }

-- `a > 1 and a < 9`
abbrev between : BooleanExpr
between =
    and_expr (gt_expr (col "a") (lit (int_lit (pos 1)))) (lt_expr (col "a") (lit (int_lit (pos 9))))

between-IsFieldCondition : IsFieldCondition a_field signed i32 between
unfolding and_expr gt_expr lt_expr col lit int_width
between-IsFieldCondition = ((pos 1, refl, omega arith, refl), (pos 9, refl, omega arith, refl))

compile-holds_example :
    (code : Compiled) × (compile test_arrow test_floats (create_cpu a_field (boolean_expr between))
      ≡ ok (record { field = a_field; expr = boolean_expr between; code = some code }))
    × ((x : ℕ)
        → x < 2 ^ int_width i32
        → run_predicate test_arrow test_floats code x
          ≡ holds (atom_at (to_int signed (int_width i32) x)) between)
compile-holds_example =
    compile-holds test_arrow test_floats a_field signed i32 int32 between between-IsFieldCondition

-- Sixteen values that are read one after another.
abbrev values : List ℕ
values = 1 ∷ 9 ∷ 2 ∷ 8 ∷ 3 ∷ 7 ∷ 4 ∷ 6 ∷ 5 ∷ 5 ∷ 0 ∷ 9 ∷ 1 ∷ 8 ∷ 2 ∷ 7 ∷ []

abbrev below_five : ℕ → Bool
below_five v = ltb v 5

abbrev load_value : ℕ → Outcome ℕ
load_value k = deref (get_elem? values k) Fault.out_of_bounds

-- The values stand at the rows from `first` on.
abbrev row_below_five : ℕ → ℕ → Bool
row_below_five first r = below_five (get_or values (r - first) 0)

value-Passes :
    (first k r : ℕ)
    → k < 16
    → r ≡ first + k
    → Passes below_five load_value k (row_below_five first r)
value-Passes first k r h e = (
  get_or values k 0,
  rw (get_elem?-eq-get_or values k 0 h) refl,
  ap (λ (t : ℕ). below_five (get_or values t 0)) (omega arith),
)

filter-Masks_example :
    Masks
      (window 8 24 (row_below_five 8))
      (255 ∷ 255 ∷ 90 ∷ 255 ∷ [])
      (filter below_five load_value (255 ∷ 255 ∷ 90 ∷ 255 ∷ []) 1 16)
filter-Masks_example =
    filter-Masks below_five load_value (row_below_five 8) (255 ∷ 255 ∷ 90 ∷ 255 ∷ []) 1 16
      (omega arith) (omega arith) (λ k h. value-Passes 8 k (1 * 8 + k) (omega arith) refl)

filter_remaining-Masks_example :
    Masks
      (window 11 16 (row_below_five 11))
      (255 ∷ 182 ∷ [])
      (filter_remaining below_five load_value (255 ∷ 182 ∷ []) 1 5 3)
filter_remaining-Masks_example =
    filter_remaining-Masks below_five load_value (row_below_five 11) (255 ∷ 182 ∷ []) 1 5 3
      (omega arith) (omega arith)
      (λ k h. value-Passes 11 k (1 * 8 + (k + 3)) (omega arith) (omega arith))

-- A chunk of sixteen rows, from row 3 on.
abbrev a_code : Compiled
a_code = compare_code signed i32 gt (pos 4)

abbrev a_kernel : FilterKernel
a_kernel = record { field = a_field; expr = boolean_expr a_condition; code = some a_code }

abbrev a_chunk : Array
a_chunk = chunk TypeId.int32 16 values

abbrev a_row : ℕ → Bool
a_row r = run_predicate test_arrow test_floats a_code (get_or values (r - 3) 0)

a_chunk-IsReady : IsReady test_arrow test_floats a_kernel a_code a_chunk a_row 3
a_chunk-IsReady = record {
  compiled = refl;
  width = unfold int_width in refl;
  small = omega arith;
  stored = omega arith;
  passes = λ k h.
      ap (λ (t : ℕ). run_predicate test_arrow test_floats a_code (get_or values t 0))
        (omega (arith));
}

execute-Masks_example :
    Masks
      (window 8 16 a_row)
      (255 ∷ 255 ∷ 255 ∷ [])
      (execute test_arrow test_floats a_kernel a_chunk (255 ∷ 255 ∷ 255 ∷ []) 0 5)
execute-Masks_example =
    execute-Masks test_arrow test_floats a_kernel a_code a_chunk a_row 3 a_chunk-IsReady
      (255 ∷ 255 ∷ 255 ∷ []) (omega arith) (omega arith)

head-Masks_example :
    Masks
      (window 3 8 a_row)
      (255 ∷ 255 ∷ 255 ∷ [])
      (execute_remaining test_arrow test_floats a_kernel a_chunk (255 ∷ 255 ∷ 255 ∷ []) 0 0 3)
head-Masks_example =
    head-Masks test_arrow test_floats a_kernel a_code a_chunk a_row 3 a_chunk-IsReady
      (255 ∷ 255 ∷ 255 ∷ []) (omega arith) (omega arith) (omega arith)

tail-Masks_example : Masks (window 16 19 a_row) (255 ∷ 255 ∷ 255 ∷ []) (
    execute_remaining test_arrow test_floats a_kernel a_chunk
      (255 ∷ 255 ∷ 255 ∷ [])
      2
      (sub_size 16 3)
      0)
tail-Masks_example =
    tail-Masks test_arrow test_floats a_kernel a_code a_chunk a_row 3 a_chunk-IsReady
      (255 ∷ 255 ∷ 255 ∷ []) (omega arith) (omega arith)

-- Three rows within one byte, five of which are to be left out.
execute_short_example :
    execute test_arrow test_floats a_kernel (chunk TypeId.int32 3 (1 ∷ 2 ∷ 3 ∷ [])) (255 ∷ []) 0 5
    ≢ ok (255 ∷ [])
execute_short_example =
    execute_short test_arrow test_floats a_kernel a_code (chunk TypeId.int32 3 (1 ∷ 2 ∷ 3 ∷ [])) 32
      refl refl (255 ∷ []) 0 5 (omega arith) (omega arith) (omega arith) (255 ∷ [])

execute_remaining_256_example :
    execute_remaining test_arrow test_floats a_kernel
      (chunk TypeId.int32 256 (replicate 256 7))
      (255 ∷ [])
      0
      0
      3
    ≡ ok (255 ∷ [])
execute_remaining_256_example =
    execute_remaining_256 test_arrow test_floats a_kernel a_code
      (chunk TypeId.int32 256 (replicate 256 7)) 32 refl refl (255 ∷ []) 0 3 refl (omega arith)

-- Runs of the emitted code.
filter_run :
    filter below_five load_value (255 ∷ 255 ∷ 90 ∷ 255 ∷ []) 1 16 ≡ ok (255 ∷ 170 ∷ 10 ∷ 255 ∷ [])
unfolding filter add8 sub8 shl8 zext8 inner_loop outer_loop
filter_run = refl

filter_remaining_run :
    filter_remaining below_five load_value (255 ∷ 182 ∷ []) 1 5 3 ≡ ok (255 ∷ 180 ∷ [])
unfolding filter_remaining remaining_loop add8 sub8 not8 shl8 zext8
filter_remaining_run = refl

-- An int8 column is compared with 300, of which 44 is left.
abbrev byte_field : Field
byte_field = record { name = "c"; type = TypeId.int8 }

compile-wraps_example :
    (code : Compiled) × (compile test_arrow test_floats (
        create_cpu byte_field (
          boolean_expr
            (compare_expr (record { name = "c" }) (record { value = int_lit (pos 300) }) gt)))
      ≡ ok (record {
        field = byte_field;
        expr =
            boolean_expr
              (compare_expr (record { name = "c" }) (record { value = int_lit (pos 300) }) gt);
        code = some code;
      }))
    × ((x : ℕ)
        → x < 2 ^ int_width i8
        → run_predicate test_arrow test_floats code x
          ≡ compare_int gt
              (to_int signed (int_width i8) x)
              (to_int signed (int_width i8) (truncate (int_width i8) (pos 300))))
compile-wraps_example =
    compile-wraps test_arrow test_floats byte_field (record { name = "c" })
      (record { value = int_lit (pos 300) }) gt (pos 300) int8 refl refl
