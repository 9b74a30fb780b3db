-- ===== src/Execution/Metadata.antt =====
-- Tables that have a context: those whose columns can be materialized.
use pefa.Base.{◌≡◌, refl, true, List, [], ◌∷◌, none, ok}
use pefa.Arrow.{TypeId, Arrow, Array, ChunkedArray, Table}
use pefa.Execution.Context.{
  create_chunks, create_columns, create_empty_chunk_metadata, new_context, ColumnMetadata,
  ChunkMetadata,
}
use pefa.Execution.Materialize.{is_materialized}

abbrev Entry : TypeId → Arrow → Type 0
Entry type arrow = (m : ChunkMetadata) × (create_empty_chunk_metadata arrow type ≡ ok m)

-- A column that can be materialized has metadata.
materialized-Entry :
    (arrow : Arrow) (type : TypeId) → is_materialized type ≡ true → Entry type arrow
unfolding is_materialized create_empty_chunk_metadata
materialized-Entry arrow TypeId.int8 h = (_, refl)
materialized-Entry arrow TypeId.int16 h = (_, refl)
materialized-Entry arrow TypeId.int32 h = (_, refl)
materialized-Entry arrow TypeId.int64 h = (_, refl)
materialized-Entry arrow TypeId.uint8 h = (_, refl)
materialized-Entry arrow TypeId.uint16 h = (_, refl)
materialized-Entry arrow TypeId.uint32 h = (_, refl)
materialized-Entry arrow TypeId.uint64 h = (_, refl)
materialized-Entry arrow TypeId.float h = (_, refl)
materialized-Entry arrow TypeId.double h = (_, refl)
materialized-Entry arrow _ h = cc

create_chunks-Entry :
    (arrow : Arrow) (type : TypeId)
    → Entry type arrow
    → (cs : List Array) → (ms : List ChunkMetadata) × (create_chunks arrow type cs ≡ ok ms)
unfolding create_chunks
create_chunks-Entry arrow type entry [] = ([], refl)
create_chunks-Entry arrow type (m, e) (c ∷ cs) =
    let (ms, es) = create_chunks-Entry arrow type (m, e) cs in (m ∷ ms, rw (e, es) refl)

abbrev pub AllMaterialized : List ChunkedArray → Type 0
AllMaterialized [] = Unit {0}
AllMaterialized (c ∷ cs) = (is_materialized c.type ≡ true) × AllMaterialized cs

create_columns-AllMaterialized :
    (arrow : Arrow) (cs : List ChunkedArray)
    → AllMaterialized cs
    → (ms : List ColumnMetadata) × (create_columns arrow cs ≡ ok ms)
unfolding create_columns
create_columns-AllMaterialized arrow [] h = ([], refl)
create_columns-AllMaterialized arrow (c ∷ cs) h =
    let (m, e) = create_chunks-Entry arrow c.type (materialized-Entry arrow c.type h.0) c.chunks in
    let (ms, es) = create_columns-AllMaterialized arrow cs h.1 in
    (record { chunks = m } ∷ ms, rw (e, es) refl)

-- Such a table has a context.
pub new_context-AllMaterialized :
    (arrow : Arrow) (table : Table)
    → AllMaterialized table.columns
    → (ms : List ColumnMetadata) × (new_context arrow table
        ≡ ok (record { table = table; metadata = record { columns = ms; filter_bitmap = none } }))
unfolding new_context
new_context-AllMaterialized arrow table h =
    let (ms, e) = create_columns-AllMaterialized arrow table.columns h in (ms, rw e refl)
