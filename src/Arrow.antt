-- ===== src/Arrow.antt =====
-- What the program uses of Apache Arrow, which is not part of the repository: the data that it
-- reads and builds, as records, and the functions that it calls, as an interface with the laws
-- that the program relies on.
use pefa.Base.{
  ℕ, Bool, if◌then◌else◌, ◌<◌, ◌+◌, ◌*◌, ◌≤◌, ◌≡◌, List, [], ◌∷◌, String, Option, none, some,
  length, get_elem?,
}

-- `arrow::Type::type`, with the members that pefa/execution/execution_context.cpp lists.
pub data TypeId : Type 0 where
  uint8 int8 uint16 int16 uint32 int32 uint64 int64 float double string bool na : TypeId
  half_float binary fixed_size_binary date32 date64 timestamp time32 time64 interval : TypeId
  decimal list struct union dictionary map extension fixed_size_list duration : TypeId
  large_string large_binary large_list : TypeId

pub record Field : Type 0 where
  pub name : String
  pub type : TypeId

-- A chunk: `length` rows from element `offset` of the value buffer, whose elements are bit patterns. A
-- value buffer may be immutable, such as one of a mapped file, or a slice of another buffer.
pub record Array : Type 0 where
  pub type : TypeId
  pub length : ℕ
  pub offset : ℕ
  pub validity : Option (List ℕ)
  pub values : List ℕ
  pub is_mutable : Bool

pub record ChunkedArray : Type 0 where
  pub type : TypeId
  pub length : ℕ
  pub chunks : List Array

pub record Table : Type 0 where
  pub schema : List Field
  pub columns : List ChunkedArray
  pub num_rows : ℕ

-- `data()->buffers[1]->mutable_data()`, null where the buffer is immutable.
unfoldable pub mutable_data : Array → Option (List ℕ)
mutable_data c = if c.is_mutable then some c.values else none

unfoldable pub total_length : List Array → ℕ
total_length [] = 0
total_length (c ∷ cs) = c.length + total_length cs

pub record Arrow : Type 0 where
  -- `DataType::ToString`
  pub to_string : TypeId → String
  -- `FixedWidthType::bit_width`, `none` for a type of variable length
  pub bit_width : TypeId → Option ℕ
  -- `size()` of the buffer that `AllocateBitmap` returns for a number of rows
  pub bitmap_size : ℕ → ℕ
  -- the contents that a buffer of `AllocateBuffer` starts with, in elements
  pub allocate_buffer : ℕ → List ℕ
  -- `Schema::GetFieldIndex`, on which the lookups of fields and columns by name rest
  pub field_index : List Field → String → Option ℕ
  -- `ChunkedArray(chunks)`
  pub make_chunked : List Array → ChunkedArray
  -- `Table::Make(schema, columns)`
  pub make_table : List Field → List ChunkedArray → Table

-- `Schema::GetFieldByName` and `Table::GetColumnByName`; null where there is no such column.
unfoldable pub get_field_by_name : Arrow → Table → String → Option Field
get_field_by_name arrow table name = elim (arrow.field_index table.schema name) [
  | none ↦ none
  | some i ↦ get_elem? table.schema i
]

unfoldable pub get_column_by_name : Arrow → Table → String → Option ChunkedArray
get_column_by_name arrow table name = elim (arrow.field_index table.schema name) [
  | none ↦ none
  | some i ↦ get_elem? table.columns i
]

-- The documented behaviour of these functions.
pub record ArrowLaws (arrow : Arrow) : Type 0 where
  pub width8 : (arrow.bit_width TypeId.int8 ≡ some 8) × (arrow.bit_width TypeId.uint8 ≡ some 8)
  pub width16 : (arrow.bit_width TypeId.int16 ≡ some 16) × (arrow.bit_width TypeId.uint16 ≡ some 16)
  pub width32 : (arrow.bit_width TypeId.int32 ≡ some 32) × (arrow.bit_width TypeId.uint32 ≡ some 32)
  pub width64 : (arrow.bit_width TypeId.int64 ≡ some 64) × (arrow.bit_width TypeId.uint64 ≡ some 64)
  pub width_half : arrow.bit_width TypeId.half_float ≡ some 16
  pub width_float : arrow.bit_width TypeId.float ≡ some 32
  pub width_double : arrow.bit_width TypeId.double ≡ some 64
  -- a whole number of bytes, with a bit for each row
  pub bitmap_fits : (rows : ℕ) → rows ≤ arrow.bitmap_size rows * 8
  -- and not a byte more
  pub bitmap_tight : (rows : ℕ) → arrow.bitmap_size rows * 8 < rows + 8
  pub buffer_fits : (elements : ℕ) → length (arrow.allocate_buffer elements) ≡ elements
  pub chunks_kept : (chunks : List Array) → (arrow.make_chunked chunks).chunks ≡ chunks
  pub length_kept : (chunks : List Array) → (arrow.make_chunked chunks).length ≡ total_length chunks
  pub type_kept :
      (c : Array) (chunks : List Array) → (arrow.make_chunked (c ∷ chunks)).type ≡ c.type
  pub schema_kept :
      (schema : List Field) (columns : List ChunkedArray)
      → (arrow.make_table schema columns).schema ≡ schema
  pub columns_kept :
      (schema : List Field) (columns : List ChunkedArray)
      → (arrow.make_table schema columns).columns ≡ columns
  pub rows_inferred :
      (schema : List Field) (c : ChunkedArray) (columns : List ChunkedArray)
      → (arrow.make_table schema (c ∷ columns)).num_rows ≡ c.length
