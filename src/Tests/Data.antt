-- ===== src/Tests/Data.antt =====
-- The data of the tests: a concrete Arrow, the arithmetic of doubles on small whole numbers, and a
-- table of two columns with two chunks each, the second of which starts within a byte.
use text.Mathlib.Text.{◌==◌ as str_eq}
use pefa.Base.{
  ℕ, ◌+◌, ◌/◌, refl, arith, ltb, leb, ◌==◌, not, if◌then◌else◌, Bool, List, [], ◌∷◌, String, Option,
  none, some, replicate, length-replicate, true,
}
use pefa.Base.Int.{ℤ, pos, negsuc}
use pefa.Arrow.{TypeId, Arrow, ArrowLaws, Field, Array, ChunkedArray, Table, total_length}
use pefa.Expressions.{BooleanExpr, int_lit, col, lit, and_expr, gt_expr, lt_expr}
use pefa.Kernel.Ir.{Floats, FloatPredicate, ogt, olt, oge, ole, oeq, one}

abbrev width_of : TypeId → Option ℕ
width_of TypeId.int8 = some 8
width_of TypeId.uint8 = some 8
width_of TypeId.int16 = some 16
width_of TypeId.uint16 = some 16
width_of TypeId.int32 = some 32
width_of TypeId.uint32 = some 32
width_of TypeId.int64 = some 64
width_of TypeId.uint64 = some 64
width_of TypeId.half_float = some 16
width_of TypeId.float = some 32
width_of TypeId.double = some 64
width_of TypeId.bool = some 1
width_of _ = none

abbrev index_of : List Field → String → Option ℕ
index_of [] name = none
index_of (f ∷ fs) name =
    let rest = index_of fs name in
    if str_eq f.name name then some 0 else (elim rest [ none ↦ none | some i ↦ some (i + 1) ])

abbrev type_of_chunks : List Array → TypeId
type_of_chunks [] = TypeId.na
type_of_chunks (c ∷ cs) = c.type

abbrev rows_of : List ChunkedArray → ℕ
rows_of [] = 0
rows_of (c ∷ cs) = c.length

abbrev column_of : List Array → ChunkedArray
column_of chunks = record {
  type = type_of_chunks chunks;
  length = total_length chunks;
  chunks = chunks;
}

abbrev pub test_arrow : Arrow
test_arrow = record {
  to_string = λ t. "type";
  bit_width = width_of;
  bitmap_size = λ rows. (rows + 7) / 8;
  allocate_buffer = λ elements. replicate elements 0;
  field_index = index_of;
  make_chunked = column_of;
  make_table =
      λ schema columns. record { schema = schema; columns = columns; num_rows = rows_of columns };
}

pub test_arrow-ArrowLaws : ArrowLaws test_arrow
test_arrow-ArrowLaws = record {
  width8 = (refl, refl);
  width16 = (refl, refl);
  width32 = (refl, refl);
  width64 = (refl, refl);
  width_half = refl;
  width_float = refl;
  width_double = refl;
  bitmap_fits = λ rows. omega arith;
  bitmap_tight = λ rows. omega arith;
  buffer_fits = λ elements. length-replicate elements 0;
  chunks_kept = λ chunks. refl;
  length_kept = λ chunks. refl;
  type_kept = λ c chunks. refl;
  schema_kept = λ schema columns. refl;
  columns_kept = λ schema columns. refl;
  rows_inferred = λ schema c columns. refl;
}

-- A whole number stands for itself.
abbrev pub whole : ℤ → ℕ
whole (pos n) = n
whole (negsuc n) = 0

abbrev ordered_whole : FloatPredicate → ℕ → ℕ → Bool
ordered_whole ogt a b = ltb b a
ordered_whole olt a b = ltb a b
ordered_whole oge a b = leb b a
ordered_whole ole a b = leb a b
ordered_whole oeq a b = a == b
ordered_whole one a b = not (a == b)

abbrev pub test_floats : Floats
test_floats = record { of_int = whole; round = λ ty v. v; ordered = λ p ty. ordered_whole p }

abbrev pub chunk : TypeId → ℕ → List ℕ → Array
chunk type length values = record {
  type = type;
  length = length;
  offset = 0;
  validity = none;
  values = values;
  is_mutable = true;
}

-- The int32 patterns of -1 and -5 are among the values.
abbrev pub a_chunks : List Array
a_chunks =
    chunk TypeId.int32 3 (1 ∷ 4294967295 ∷ 7 ∷ [])
    ∷ chunk TypeId.int32 10 (3 ∷ 4294967291 ∷ 9 ∷ 2 ∷ 0 ∷ 5 ∷ 6 ∷ 11 ∷ 4 ∷ 8 ∷ [])
    ∷ []

abbrev pub b_chunks : List Array
b_chunks =
    chunk TypeId.uint8 3 (10 ∷ 20 ∷ 30 ∷ [])
    ∷ chunk TypeId.uint8 10 (40 ∷ 50 ∷ 60 ∷ 70 ∷ 80 ∷ 90 ∷ 200 ∷ 210 ∷ 220 ∷ 230 ∷ [])
    ∷ []

abbrev test_schema : List Field
test_schema =
    record { name = "a"; type = TypeId.int32 } ∷ record { name = "b"; type = TypeId.uint8 } ∷ []

abbrev pub test_table : Table
test_table = record {
  schema = test_schema;
  columns =
      record { type = TypeId.int32; length = 13; chunks = a_chunks }
      ∷ record { type = TypeId.uint8; length = 13; chunks = b_chunks }
      ∷ [];
  num_rows = 13;
}

-- `a > -2`, `b < 220` and their conjunction.
abbrev pub a_condition : BooleanExpr
a_condition = gt_expr (col "a") (lit (int_lit (negsuc 1)))

abbrev pub b_condition : BooleanExpr
b_condition = lt_expr (col "b") (lit (int_lit (pos 220)))

abbrev pub test_condition : BooleanExpr
test_condition = and_expr a_condition b_condition
