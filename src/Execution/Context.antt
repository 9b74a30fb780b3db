-- ===== src/Execution/Context.antt =====
-- pefa/execution/execution_context.h and execution_context.cpp: a table with its metadata. The
-- metadata of a chunk holds a type and two uninitialised bounds that nothing reads.
use Prim.Native.String.{◌++◌}
use pefa.Base.{ℕ, List, [], ◌∷◌, Option, none, Outcome, ok, throw, ◌>>=◌, not_implemented}
use pefa.Arrow.{TypeId, Arrow, Array, ChunkedArray, Table}

-- The `T` of `TypedChunkMetadata<T>`.
pub data ElementType : Type 0 where
  uint8_t int8_t uint16_t int16_t uint32_t int32_t uint64_t int64_t : ElementType
  float_t double_t string_t bool_t : ElementType

pub data ChunkMetadata : Type 0 where
  typed_chunk_metadata : ElementType → ChunkMetadata
  null_chunk_metadata : ChunkMetadata

pub record ColumnMetadata : Type 0 where
  pub chunks : List ChunkMetadata

-- `filter_bitmap` is null where no filter has run.
pub record TableMetadata : Type 0 where
  pub columns : List ColumnMetadata
  pub filter_bitmap : Option (List ℕ)

pub record ExecutionContext : Type 0 where
  pub table : Table
  pub metadata : TableMetadata

module _ (arrow : Arrow) where
  unfoldable pub create_empty_chunk_metadata : TypeId → Outcome ChunkMetadata
  create_empty_chunk_metadata TypeId.uint8 = ok (typed_chunk_metadata uint8_t)
  create_empty_chunk_metadata TypeId.int8 = ok (typed_chunk_metadata int8_t)
  create_empty_chunk_metadata TypeId.uint16 = ok (typed_chunk_metadata uint16_t)
  create_empty_chunk_metadata TypeId.int16 = ok (typed_chunk_metadata int16_t)
  create_empty_chunk_metadata TypeId.uint32 = ok (typed_chunk_metadata uint32_t)
  create_empty_chunk_metadata TypeId.int32 = ok (typed_chunk_metadata int32_t)
  create_empty_chunk_metadata TypeId.uint64 = ok (typed_chunk_metadata uint64_t)
  create_empty_chunk_metadata TypeId.int64 = ok (typed_chunk_metadata int64_t)
  create_empty_chunk_metadata TypeId.float = ok (typed_chunk_metadata float_t)
  create_empty_chunk_metadata TypeId.double = ok (typed_chunk_metadata double_t)
  create_empty_chunk_metadata TypeId.string = ok (typed_chunk_metadata string_t)
  create_empty_chunk_metadata TypeId.bool = ok (typed_chunk_metadata bool_t)
  create_empty_chunk_metadata TypeId.na = ok null_chunk_metadata
  create_empty_chunk_metadata type =
      throw (not_implemented (arrow.to_string type ++ " type does not supported yet"))

  -- The loop over the chunks of a column, one entry for each.
  unfoldable pub create_chunks : TypeId → List Array → Outcome (List ChunkMetadata)
  unfolding create_empty_chunk_metadata
  create_chunks type [] = ok []
  create_chunks type (c ∷ cs) = do
    chunk ← create_empty_chunk_metadata type
    chunks ← create_chunks type cs
    ok (chunk ∷ chunks)

  unfoldable pub create_columns : List ChunkedArray → Outcome (List ColumnMetadata)
  unfolding create_chunks
  create_columns [] = ok []
  create_columns (col ∷ cols) = do
    chunks ← create_chunks col.type col.chunks
    columns ← create_columns cols
    ok (record { chunks = chunks } ∷ columns)

  unfoldable pub new_context : Table → Outcome ExecutionContext
  unfolding create_columns
  new_context table = do
    columns ← create_columns table.columns
    ok (record { table = table; metadata = record { columns = columns; filter_bitmap = none } })
