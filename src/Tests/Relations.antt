-- ===== src/Tests/Relations.antt =====
-- The rows of a table of an integer and a floating point column, through queries.
use pefa.Base.{◌≡◌, refl, arith, inl, inr, List, [], ◌∷◌, map, none, ok, ◌>>=◌}
use pefa.Base.Int.{pos}
use pefa.Arrow.{TypeId, Field, Array, Table, total_length, get_column_by_name}
use pefa.Expressions.{BooleanExpr, and_expr, lt_expr, ge_expr, col, lit, int_lit, double_lit, ge}
use pefa.Kernel.Literals.{unsigned}
use pefa.Kernel.Ir.{f64, i8, int_width}
use pefa.Kernel.Numbers.{double, integer, floating, is_floating, NumberCode, compile-NumberCode}
use pefa.Execution.Context.{ExecutionContext}
use pefa.Execution.Filter.{generate_filter_bitmap}
use pefa.Execution.Materialize.{materialize_filter, read_bit, is_materialized}
use pefa.Execution.Project as Projection
use pefa.Plan.Joined.{is_new, is_project, is_filter}
use pefa.Query.{QueryCompiler, new_query, project, filter, execute}
use pefa.Query.Refines.{Answered, execute-Answered}
use pefa.Relation.{Row, Comparable, IsCondition, IsTyped, AllNames, header_of, rows_of}
use pefa.Relation.Tables.{IsColumn, IsTable}
use pefa.Relation.Filter.{Filtered, filter-Filtered}
use pefa.Relation.Project.{Projected, project-Projected}
use pefa.Tests.Data.{test_arrow, test_arrow-ArrowLaws, test_floats, chunk, b_chunks}

abbrev x_chunks : List Array
x_chunks =
    chunk TypeId.double 3 (5 ∷ 1 ∷ 7 ∷ [])
    ∷ chunk TypeId.double 10 (3 ∷ 2 ∷ 9 ∷ 2 ∷ 0 ∷ 5 ∷ 6 ∷ 11 ∷ 4 ∷ 8 ∷ [])
    ∷ []

abbrev x_field : Field
x_field = record { name = "x"; type = TypeId.double }

abbrev b_field : Field
b_field = record { name = "b"; type = TypeId.uint8 }

abbrev number_table : Table
number_table = record {
  schema = x_field ∷ b_field ∷ [];
  columns =
      record { type = TypeId.double; length = 13; chunks = x_chunks }
      ∷ record { type = TypeId.uint8; length = 13; chunks = b_chunks }
      ∷ [];
  num_rows = 13;
}

abbrev number_context : ExecutionContext
number_context = record {
  table = number_table;
  metadata = record { columns = []; filter_bitmap = none };
}

x-IsColumn : IsColumn 13 (record { type = TypeId.double; length = 13; chunks = x_chunks })
unfolding is_materialized total_length int_width
x-IsColumn = record {
  laid_out = (
    refl,
    refl,
    omega arith,
    omega arith,
    inl refl,
    (refl, refl, omega arith, omega arith, inr (omega arith), tt),
  );
  stored_mutable = (refl, (refl, tt));
  counted = refl;
  same_rows = refl;
  materialized = refl;
  chunked = refl;
  patterns = (
    omega arith,
    (
      omega arith,
      (
        omega arith,
        (
          omega arith,
          (
            omega arith,
            (
              omega arith,
              (
                omega arith,
                (
                  omega arith,
                  (omega arith, (omega arith, (omega arith, (omega arith, (omega arith, tt))))),
                ),
              ),
            ),
          ),
        ),
      ),
    ),
  );
}

b-IsColumn : IsColumn 13 (record { type = TypeId.uint8; length = 13; chunks = b_chunks })
unfolding is_materialized total_length int_width
b-IsColumn = record {
  laid_out = (
    refl,
    refl,
    omega arith,
    omega arith,
    inl refl,
    (refl, refl, omega arith, omega arith, inr (omega arith), tt),
  );
  stored_mutable = (refl, (refl, tt));
  counted = refl;
  same_rows = refl;
  materialized = refl;
  chunked = refl;
  patterns = (
    omega arith,
    (
      omega arith,
      (
        omega arith,
        (
          omega arith,
          (
            omega arith,
            (
              omega arith,
              (
                omega arith,
                (
                  omega arith,
                  (omega arith, (omega arith, (omega arith, (omega arith, (omega arith, tt))))),
                ),
              ),
            ),
          ),
        ),
      ),
    ),
  );
}

number_table-IsTable : IsTable number_table
number_table-IsTable = record {
  columns_valid = (x-IsColumn, (b-IsColumn, tt));
  limit = omega arith;
  some_column = refl;
}

-- `x >= 4`, `b < 220` and their conjunction.
abbrev x_condition : BooleanExpr
x_condition = ge_expr (col "x") (lit (double_lit 4))

abbrev b_condition : BooleanExpr
b_condition = lt_expr (col "b") (lit (int_lit (pos 220)))

abbrev both : BooleanExpr
both = and_expr x_condition b_condition

x_Comparable : Comparable test_arrow (header_of number_table) (col "x") (double_lit 4)
unfolding col
x_Comparable = record {
  index = 0;
  found = refl;
  field = x_field;
  field_found = refl;
  type_found = refl;
  same_name = refl;
  number = floating f64;
  is_number = refl;
  admits = tt;
}

b_Comparable : Comparable test_arrow (header_of number_table) (col "b") (int_lit (pos 220))
unfolding col
b_Comparable = record {
  index = 1;
  found = refl;
  field = b_field;
  field_found = refl;
  type_found = refl;
  same_name = refl;
  number = integer unsigned i8;
  is_number = refl;
  admits = unfold int_width in omega arith;
}

both-IsCondition : IsCondition test_arrow (header_of number_table) both
unfolding and_expr ge_expr lt_expr lit
both-IsCondition = (x_Comparable, b_Comparable)

filter-Filtered_example : Filtered test_arrow test_floats both number_table (
    generate_filter_bitmap test_arrow test_floats number_context both
    >>= materialize_filter test_arrow)
filter-Filtered_example =
    filter-Filtered test_arrow test_floats test_arrow-ArrowLaws number_context both
      number_table-IsTable both-IsCondition

b_and_x : AllNames test_arrow (header_of number_table) ("b" ∷ "x" ∷ [])
b_and_x = ((1, refl, omega arith), ((0, refl, omega arith), tt))

project-Projected_example :
    Projected test_arrow
      ("b" ∷ "x" ∷ [])
      number_table
      (Projection.project test_arrow number_context ("b" ∷ "x" ∷ []))
project-Projected_example =
    project-Projected test_arrow test_arrow-ArrowLaws number_context "b" ("x" ∷ [])
      number_table-IsTable b_and_x

-- The column "x" of the rows in which both conditions are true.
abbrev number_query : QueryCompiler
number_query = project (filter (filter new_query x_condition) b_condition) ("x" ∷ [])

number_query-IsTyped : IsTyped test_arrow number_query.plan (header_of number_table)
unfolding project filter new_query and_expr ge_expr lt_expr lit
number_query-IsTyped = (((tt, x_Comparable), b_Comparable), ((0, refl, omega arith), tt))

execute-Answered_example :
    Answered test_arrow test_floats number_query.plan number_table
      (execute test_arrow test_floats number_query number_table)
execute-Answered_example =
    execute-Answered test_arrow test_floats test_arrow-ArrowLaws number_table number_table-IsTable
      number_query (is_project (is_filter (is_filter is_new x_condition) b_condition) ("x" ∷ []))
      (unfold project in tt) number_query-IsTyped

compile-NumberCode_example :
    NumberCode test_arrow test_floats x_field (col "x") (lit (double_lit 4)) ge (floating f64)
compile-NumberCode_example =
    compile-NumberCode test_arrow test_floats x_field (col "x") (lit (double_lit 4)) ge
      (floating f64) (is_floating double) (unfold col in refl) (unfold lit in tt)

-- The query's rows, as the code and as the plan have them.
number_rows :
    (execute test_arrow test_floats number_query number_table >>= λ t.
    ok (map (λ (row : Row). row.cells) (rows_of t)))
    ≡ ok ((5 ∷ []) ∷ (7 ∷ []) ∷ (9 ∷ []) ∷ (5 ∷ []) ∷ (6 ∷ []) ∷ (11 ∷ []) ∷ [])
unfolding execute filter project new_query generate_filter_bitmap ge_expr lt_expr and_expr col lit
    materialize_filter read_bit get_column_by_name Projection.project
number_rows = refl
