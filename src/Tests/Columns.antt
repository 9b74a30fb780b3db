-- ===== src/Tests/Columns.antt =====
-- The columns of the test table, and the condition on them.
use text.Mathlib.Text.{◌==◌ as str_eq}
use pefa.Base.{
  ℕ, zero, suc, ◌^◌, ◌<◌, ◌≡◌, refl, arith, ltb, Bool, true, ◌&&◌, List, [], ◌∷◌, String, get_or,
  inl, inr, if◌then◌else◌,
}
use pefa.Base.Int.{ℤ, pos, negsuc}
use pefa.Arrow.{TypeId, total_length, get_field_by_name, get_column_by_name}
use pefa.Expressions.{int_lit, col, lit, and_expr, gt_expr, lt_expr}
use pefa.Kernel.Ir.{i8, i32, int_width}
use pefa.Kernel.Literals.{signed, unsigned, to_int}
use pefa.Kernel.Integers.{int32, uint8}
use pefa.Execution.Rows.{column_rows}
use pefa.Execution.Filter.{has_no_rows}
use pefa.Execution.Filter.Compare.{HasColumn, IsIntegerColumn}
use pefa.Execution.Materialize.{is_materialized}
use pefa.Execution.Selection.{IsFilterable}
use pefa.Execution.Integers.{Compares, IsIntegerCondition}
use pefa.Tests.Data.{test_arrow, test_table, test_condition, a_chunks, b_chunks}

-- All elements are below `n`.
abbrev all_small : ℕ → List ℕ → Bool
all_small n [] = true
all_small n (x ∷ xs) = ltb x n && all_small n xs

get_or-small : (n : ℕ) (xs : List ℕ) (r : ℕ) → 0 < n → all_small n xs ≡ true → get_or xs r 0 < n
get_or-small n [] r h small = ground arith
get_or-small n (x ∷ xs) zero h small = ground arith
get_or-small n (x ∷ xs) (suc r) h small = get_or-small n xs r h (ground arith)

a_HasColumn : HasColumn test_arrow test_table "a"
unfolding get_field_by_name get_column_by_name total_length
a_HasColumn = record {
  field = record { name = "a"; type = TypeId.int32 };
  column = record { type = TypeId.int32; length = 13; chunks = a_chunks };
  field_found = refl;
  column_found = refl;
  same_name = refl;
  laid_out = (
    refl,
    refl,
    omega arith,
    omega arith,
    inl refl,
    (refl, refl, omega arith, omega arith, inr (omega arith), tt),
  );
  all_rows = refl;
}

b_HasColumn : HasColumn test_arrow test_table "b"
unfolding get_field_by_name get_column_by_name total_length
b_HasColumn = record {
  field = record { name = "b"; type = TypeId.uint8 };
  column = record { type = TypeId.uint8; length = 13; chunks = b_chunks };
  field_found = refl;
  column_found = refl;
  same_name = refl;
  laid_out = (
    refl,
    refl,
    omega arith,
    omega arith,
    inl refl,
    (refl, refl, omega arith, omega arith, inr (omega arith), tt),
  );
  all_rows = refl;
}

a_IsIntegerColumn : IsIntegerColumn test_arrow test_table "a" signed i32
unfolding int_width a_HasColumn
a_IsIntegerColumn = record {
  has = a_HasColumn;
  integral = int32;
  in_range = λ r h. get_or-small (2 ^ 32) (column_rows a_chunks) r (omega arith) refl;
}

pub b_IsIntegerColumn : IsIntegerColumn test_arrow test_table "b" unsigned i8
unfolding int_width b_HasColumn
b_IsIntegerColumn = record {
  has = b_HasColumn;
  integral = uint8;
  in_range = λ r h. get_or-small (2 ^ 8) (column_rows b_chunks) r (omega arith) refl;
}

-- The integers of the two columns.
abbrev pub test_value : ℕ → String → ℤ
test_value r name =
    if str_eq name "a"
    then to_int signed 32 (get_or (column_rows a_chunks) r 0)
    else to_int unsigned 8 (get_or (column_rows b_chunks) r 0)

pub test_table-IsFilterable : IsFilterable test_table
unfolding has_no_rows is_materialized total_length
test_table-IsFilterable = (
  (
    (refl, omega arith, refl, (refl, omega arith, refl, tt)),
    refl,
    refl,
    refl,
    ((refl, omega arith, refl, (refl, omega arith, refl, tt)), refl, refl, refl, tt),
  ),
  omega arith,
  refl,
)

pub a_Compares : Compares test_arrow test_table test_value (col "a") (int_lit (negsuc 1))
unfolding col int_width a_IsIntegerColumn a_HasColumn
a_Compares = record {
  kind = signed;
  ty = i32;
  literal = negsuc 1;
  column = a_IsIntegerColumn;
  is_literal = refl;
  fits = omega arith;
  values = λ r h. refl;
}

b_Compares : Compares test_arrow test_table test_value (col "b") (int_lit (pos 220))
unfolding col int_width b_IsIntegerColumn b_HasColumn
b_Compares = record {
  kind = unsigned;
  ty = i8;
  literal = pos 220;
  column = b_IsIntegerColumn;
  is_literal = refl;
  fits = omega arith;
  values = λ r h. refl;
}

pub test_condition-IsIntegerCondition :
    IsIntegerCondition test_arrow test_table test_value test_condition
unfolding and_expr gt_expr lt_expr lit
test_condition-IsIntegerCondition = (a_Compares, b_Compares)
