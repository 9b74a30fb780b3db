-- ===== src/Tests/Sliced.antt =====
-- A filter on a chunk that is a slice of an array with nulls.
use pefa.Execution.Materialize.{materialize_column}
use pefa.Execution.Materialize.Immutable.{materialize_column_immutable}
use pefa.Base.{◌≡◌, refl, [], ◌∷◌, none, some, ok, ◌>>=◌, map, true, false, fault, Fault, arith}
use pefa.Arrow.{TypeId, Array, get_column_by_name}
use pefa.Expressions.{BooleanExpr, gt_expr, col, lit, int_lit}
use pefa.Base.Int.{pos}
use pefa.Execution.Context.{ExecutionContext}
use pefa.Execution.Filter.{generate_filter_bitmap}
use pefa.Execution.Ignored.Whole.{plain_context, filter-plain}
use pefa.Execution.Materialize.{materialize_filter, read_bit}
use pefa.Relation.{Row, rows_of}
use pefa.Tests.Data.{test_arrow, test_floats}

-- The array is the values 8, null and 9 of a buffer of five.
abbrev sliced_chunk : Array
sliced_chunk = record {
  type = TypeId.uint8;
  length = 3;
  offset = 2;
  validity = some (21 ∷ []);
  values = 1 ∷ 7 ∷ 8 ∷ 0 ∷ 9 ∷ [];
  is_mutable = true;
}

abbrev sliced_context : ExecutionContext
sliced_context = record {
  table = record {
    schema = record { name = "b"; type = TypeId.uint8 } ∷ [];
    columns = record { type = TypeId.uint8; length = 3; chunks = sliced_chunk ∷ [] } ∷ [];
    num_rows = 3;
  };
  metadata = record { columns = []; filter_bitmap = none };
}

abbrev above_5 : BooleanExpr
above_5 = gt_expr (col "b") (lit (int_lit (pos 5)))

filter-plain_example :
    (generate_filter_bitmap test_arrow test_floats (plain_context sliced_context) above_5
      >>= materialize_filter test_arrow)
    ≡ (generate_filter_bitmap test_arrow test_floats sliced_context above_5
        >>= materialize_filter test_arrow)
filter-plain_example = filter-plain test_arrow test_floats sliced_context above_5

-- The two values of the slice that are above 5 are 8 and 9; the code returns 7 and 8.
sliced_rows :
    (generate_filter_bitmap test_arrow test_floats sliced_context above_5 >>= λ bitmap.
    materialize_filter test_arrow bitmap >>= λ t.
    ok (map (λ (row : Row). row.cells) (rows_of t.table)))
    ≡ ok ((7 ∷ []) ∷ (8 ∷ []) ∷ [])
unfolding generate_filter_bitmap gt_expr col lit materialize_filter read_bit get_column_by_name
sliced_rows = refl

-- A chunk of a file that is mapped.
abbrev mapped_chunk : Array
mapped_chunk = record sliced_chunk { offset = 0; is_mutable = false }

materialize_column_immutable_example :
    materialize_column test_arrow
      (record { type = TypeId.uint8; length = 3; chunks = mapped_chunk ∷ [] })
      (0 ∷ [])
    ≡ fault Fault.null_pointer
materialize_column_immutable_example =
    materialize_column_immutable test_arrow
      (record { type = TypeId.uint8; length = 3; chunks = mapped_chunk ∷ [] }) (0 ∷ []) mapped_chunk
      [] refl refl (omega arith) (omega arith)
