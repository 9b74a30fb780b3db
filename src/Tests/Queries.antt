-- ===== src/Tests/Queries.antt =====
-- Queries on the test table.
use pefa.Base.{
  false, ℕ, ◌<◌, ◌≡◌, refl, arith, Bool, true, List, [], ◌∷◌, String, length, set, none, some, ok,
  throw, unreachable, ◌>>=◌,
}
use pefa.Base.Int.{pos}
use pefa.Arrow.{TypeId, ChunkedArray, Table, get_column_by_name}
use pefa.Bitmap.Bits.{bitmap_bit}
use pefa.Expressions.{
  and_expr, gt_expr, lit, boolean_const, ColumnRef, Literal, int_lit, CompareOp, lt, and,
}
use pefa.Expressions.Meaning.{holds, compare_int, connect}
use pefa.Plan.{Plan, source, projection_node, filter_node, materialize_filter_node}
use pefa.Plan.Meaning.{denote, optimize-denote}
use pefa.Plan.Joined.{is_new, is_project, is_filter, IsJoined, optimize-IsJoined, optimize_joined}
use pefa.Query.{new_query, project, filter, optimize, execute}
use pefa.Query.Filters.{filter_all, conjunction, execute-filter_all}
use pefa.Kernel.Ir.{int_width}
use pefa.Kernel.Predicates.{atom_at}
use pefa.Execution.Context.{ExecutionContext}
use pefa.Execution.Filter.{
  compare_bitmap, combine_loop, generate_filter_bitmap, new_executor, visit,
}
use pefa.Execution.Filter.Compare.{value_at, compare_bitmap-bits}
use pefa.Execution.Filter.Combine.{combine_loop-bits}
use pefa.Execution.Filter.Constants.{visit-boolean_const}
use pefa.Execution.Filter.Condition.{Visited, visit-Visited}
use pefa.Execution.Materialize.{materialize_filter, materialize_column, is_materialized}
use pefa.Execution.Materialize.Column.{Materialized, materialize_column-Materialized}
use pefa.Execution.Integers.{integer_atom, filter_integers-Selected, IsIntegerCondition-IsDecided}
use pefa.Execution.Project as Projection
use pefa.Execution.Project.Columns.{fields_of, none_named, one_named, project-AreNamed}
use pefa.Execution.Selection.{Selected, AreSelected}
use pefa.Execution.Nulls.{only_constant, filter_throws}
use pefa.Tests.Data.{
  test_arrow, test_arrow-ArrowLaws, test_floats, test_table, a_condition, b_condition,
  test_condition, a_chunks, b_chunks,
}
use pefa.Tests.Columns.{
  a_Compares, b_IsIntegerColumn, test_value, test_table-IsFilterable,
  test_condition-IsIntegerCondition,
}

abbrev test_context : ExecutionContext
test_context = record {
  table = test_table;
  metadata = record { columns = []; filter_bitmap = none };
}

abbrev a_column : ChunkedArray
a_column = record { type = TypeId.int32; length = 13; chunks = a_chunks }

abbrev b_column : ChunkedArray
b_column = record { type = TypeId.uint8; length = 13; chunks = b_chunks }

execute-filter_all_example :
    (t : Table) × (execute test_arrow test_floats
        (filter_all new_query (a_condition ∷ b_condition ∷ []))
        test_table
      ≡ ok t)
    × (t.schema ≡ test_table.schema)
    × AreSelected
        (λ r. holds (integer_atom test_value r) (conjunction a_condition (b_condition ∷ [])))
        test_table.columns
        t.columns
execute-filter_all_example =
    execute-filter_all test_arrow test_floats test_arrow-ArrowLaws test_value test_table a_condition
      (b_condition ∷ []) test_table-IsFilterable test_condition-IsIntegerCondition

filter_integers-Selected_example :
    Selected
      (λ r. holds (integer_atom test_value r) test_condition)
      test_table
      (generate_filter_bitmap test_arrow test_floats test_context test_condition
        >>= materialize_filter test_arrow)
filter_integers-Selected_example =
    filter_integers-Selected test_arrow test_floats test_arrow-ArrowLaws test_value test_context
      test_condition test_table-IsFilterable test_condition-IsIntegerCondition

compare_bitmap-bits_example :
    (out : List ℕ) × (compare_bitmap test_arrow test_floats test_table
        (record { name = "b" })
        (record { value = int_lit (pos 220) })
        lt
      ≡ ok out)
    × (length out ≡ 2)
    × ((r : ℕ)
        → r < 13
        → bitmap_bit out r ≡ compare_int lt (value_at b_IsIntegerColumn r) (pos 220))
compare_bitmap-bits_example =
    compare_bitmap-bits test_arrow test_floats test_arrow-ArrowLaws test_table
      (record { name = "b" }) (record { value = int_lit (pos 220) }) lt (pos 220) b_IsIntegerColumn
      refl (unfold int_width in omega arith)

visit-Visited_example :
    Visited test_arrow test_floats test_arrow-ArrowLaws test_table
      (integer_atom test_value)
      (λ r. holds (integer_atom test_value r) test_condition)
      new_executor
      (visit test_arrow test_floats test_table test_condition new_executor)
visit-Visited_example =
    visit-Visited test_arrow test_floats test_arrow-ArrowLaws test_table (integer_atom test_value)
      (omega arith) test_condition new_executor
      (IsIntegerCondition-IsDecided test_arrow test_floats test_arrow-ArrowLaws test_table
        test_value test_condition test_condition-IsIntegerCondition)

visit-boolean_const_example :
    Visited test_arrow test_floats test_arrow-ArrowLaws test_table
      (integer_atom test_value)
      (λ r. holds (integer_atom test_value r) a_condition)
      new_executor
      (visit test_arrow test_floats test_table
        (and_expr a_condition (boolean_const false))
        new_executor)
unfolding and_expr
visit-boolean_const_example =
    visit-boolean_const test_arrow test_floats test_arrow-ArrowLaws test_table
      (integer_atom test_value) a_condition false and new_executor
      (λ r. holds (integer_atom test_value r) a_condition) (omega arith)
      (visit-Visited test_arrow test_floats test_arrow-ArrowLaws test_table
        (integer_atom test_value) (omega arith) a_condition new_executor
        (IsIntegerCondition-IsDecided test_arrow test_floats test_arrow-ArrowLaws test_table
          test_value a_condition (unfold gt_expr lit in a_Compares)))

materialize_column-Materialized_example :
    Materialized test_arrow a_column
      (181 ∷ 192 ∷ [])
      (materialize_column test_arrow a_column (181 ∷ 192 ∷ []))
materialize_column-Materialized_example =
    materialize_column-Materialized test_arrow test_arrow-ArrowLaws a_column (181 ∷ 192 ∷ [])
      test_table-IsFilterable.0.0 test_table-IsFilterable.0.1 (omega arith) (omega arith)

combine_loop-bits_example :
    (out : List ℕ) × (combine_loop and 0 1 2 0 ((181 ∷ 192 ∷ []) ∷ (15 ∷ 128 ∷ []) ∷ [])
      ≡ ok (set ((181 ∷ 192 ∷ []) ∷ (15 ∷ 128 ∷ []) ∷ []) 0 out))
    × (length out ≡ 2)
    × ((r : ℕ)
        → r < 16
        → bitmap_bit out r
          ≡ connect and (bitmap_bit (181 ∷ 192 ∷ []) r) (bitmap_bit (15 ∷ 128 ∷ []) r))
combine_loop-bits_example =
    combine_loop-bits and 0 1 (omega arith) (15 ∷ 128 ∷ []) (181 ∷ 192 ∷ [])
      ((181 ∷ 192 ∷ []) ∷ (15 ∷ 128 ∷ []) ∷ []) (omega arith) refl refl refl

-- Rows that are one number, with two filters behind a projection.
abbrev number_atom : ℕ → ColumnRef → Literal → CompareOp → Bool
number_atom x = atom_at (pos x)

abbrev number_fields : List String → ℕ → ℕ
number_fields fields x = x

abbrev two_filters : Plan
two_filters = materialize_filter_node (
    filter_node
      (materialize_filter_node (filter_node (projection_node source ("a" ∷ [])) a_condition))
      b_condition)

optimize-denote_example :
    denote number_atom number_fields (optimize two_filters) (3 ∷ 500 ∷ 219 ∷ [])
    ≡ denote number_atom number_fields two_filters (3 ∷ 500 ∷ 219 ∷ [])
optimize-denote_example = optimize-denote number_atom number_fields two_filters (3 ∷ 500 ∷ 219 ∷ [])

optimize-IsJoined_example :
    IsJoined
      (optimize (filter (filter (project new_query ("a" ∷ [])) a_condition) b_condition).plan)
optimize-IsJoined_example =
    optimize-IsJoined (filter (filter (project new_query ("a" ∷ [])) a_condition) b_condition)
      (is_filter (is_filter (is_project is_new ("a" ∷ [])) a_condition) b_condition)

optimize_joined_example :
    optimize (materialize_filter_node (filter_node (projection_node source ("a" ∷ [])) a_condition))
    ≡ materialize_filter_node (filter_node (projection_node source ("a" ∷ [])) a_condition)
optimize_joined_example =
    optimize_joined
      (materialize_filter_node (filter_node (projection_node source ("a" ∷ [])) a_condition))
      (tt, tt)

b_found : get_column_by_name test_arrow test_table "b" ≡ some b_column
unfolding get_column_by_name
b_found = refl

a_found : get_column_by_name test_arrow test_table "a" ≡ some a_column
unfolding get_column_by_name
a_found = refl

project-AreNamed_example :
    (after : ExecutionContext) × (Projection.project test_arrow test_context ("b" ∷ "a" ∷ [])
      ≡ ok after)
    × (after.table.columns ≡ b_column ∷ a_column ∷ [])
    × (after.table.schema ≡ fields_of ("b" ∷ "a" ∷ []) (b_column ∷ a_column ∷ []))
    × (after.metadata.filter_bitmap ≡ none)
project-AreNamed_example =
    project-AreNamed test_arrow test_arrow-ArrowLaws test_context ("b" ∷ "a" ∷ [])
      (b_column ∷ a_column ∷ [])
      (one_named b_found (unfold is_materialized in refl)
        (one_named a_found (unfold is_materialized in refl) none_named))

filter_throws_example :
    (generate_filter_bitmap test_arrow test_floats test_context (boolean_const true)
      >>= materialize_filter test_arrow)
    ≡ throw unreachable
filter_throws_example =
    filter_throws test_arrow test_floats test_context (boolean_const true)
      (unfold is_materialized in (refl, (refl, tt))) (only_constant true test_table-IsFilterable.2)
