-- ===== src/Execution/Project/Columns.antt =====
-- The table that a projection makes.
use pefa.Base.{List, [], ◌∷◌, String, true, ◌≡◌, ◌∙◌, refl, ap, none, some, Outcome, ok}
use pefa.Arrow.{Arrow, ArrowLaws, Field, ChunkedArray, Table, get_column_by_name}
use pefa.Execution.Context.{ExecutionContext}
use pefa.Execution.Materialize.{is_materialized}
use pefa.Execution.Metadata.{AllMaterialized, new_context-AllMaterialized}
use pefa.Execution.Project.{project_columns, project}

-- The columns are those of the names, which the table has, and their types have metadata.
pub data AreNamed (arrow : Arrow) (table : Table) : List String → List ChunkedArray → Type 0 where
  none_named : AreNamed arrow table [] []
  one_named :
      {name : String} {c : ChunkedArray} {names : List String} {cs : List ChunkedArray}
      → get_column_by_name arrow table name ≡ some c
      → is_materialized c.type ≡ true
      → AreNamed arrow table names cs
      → AreNamed arrow table (name ∷ names) (c ∷ cs)

-- The fields have the names, and the types of the columns.
abbrev pub fields_of : List String → List ChunkedArray → List Field
fields_of [] cs = []
fields_of (name ∷ names) [] = []
fields_of (name ∷ names) (c ∷ cs) = record { name = name; type = c.type } ∷ fields_of names cs

module _ (arrow : Arrow) (table : Table) where
  project_columns-AreNamed :
      (names : List String) (cs : List ChunkedArray)
      → AreNamed arrow table names cs
      → project_columns arrow table names ≡ ok (fields_of names cs, cs)
  unfolding project_columns
  project_columns-AreNamed [] _ none_named = refl
  project_columns-AreNamed (name ∷ names) _ (one_named {cs = cs} found type named) =
      rw (found, project_columns-AreNamed names cs named) refl

  AreNamed-AllMaterialized :
      (names : List String) (cs : List ChunkedArray)
      → AreNamed arrow table names cs
      → AllMaterialized cs
  AreNamed-AllMaterialized [] _ none_named = tt
  AreNamed-AllMaterialized (name ∷ names) _ (one_named {cs = cs} found type named) =
      (type, AreNamed-AllMaterialized names cs named)

-- What a projection on columns has returned.
pub record Projection (arrow : Arrow) (names : List String) (cs : List ChunkedArray)
    (result : Outcome ExecutionContext) : Type 0 where
  pub after : ExecutionContext
  pub returns : result ≡ ok after
  pub made : after.table ≡ arrow.make_table (fields_of names cs) cs
  pub no_bitmap : after.metadata.filter_bitmap ≡ none

module _ (arrow : Arrow) (laws : ArrowLaws arrow) (ctx : ExecutionContext) (names : List String)
    (cs : List ChunkedArray) where
  -- A projection on names that the table has makes the table of their columns.
  pub project-Projection :
      AreNamed arrow ctx.table names cs → Projection arrow names cs (project arrow ctx names)
  unfolding project
  project-Projection named =
      let kept = laws.columns_kept (fields_of names cs) cs in
      let (ms, made) =
        new_context-AllMaterialized arrow (arrow.make_table (fields_of names cs) cs)
          (rw kept (AreNamed-AllMaterialized arrow ctx.table names cs named)) in
      record {
        after = record {
          table = arrow.make_table (fields_of names cs) cs;
          metadata = record { columns = ms; filter_bitmap = none };
        };
        returns = rw (project_columns-AreNamed arrow ctx.table names cs named) made;
        made = refl;
        no_bitmap = refl;
      }

  -- A projection on names that the table has, of columns that can be materialized, returns the table
  -- of exactly the columns that these names find, unchanged and in the order of the names, under
  -- fields of these names and the columns' types, and without a bitmap.
  pub project-AreNamed :
      AreNamed arrow ctx.table names cs
      → (after : ExecutionContext) × (project arrow ctx names ≡ ok after)
        × (after.table.columns ≡ cs)
        × (after.table.schema ≡ fields_of names cs)
        × (after.metadata.filter_bitmap ≡ none)
  project-AreNamed named =
      let p = project-Projection named in
      (
        p.after,
        p.returns,
        ap (λ (t : Table). t.columns) (p.made) ∙ laws.columns_kept (fields_of names cs) cs,
        ap (λ (t : Table). t.schema) (p.made) ∙ laws.schema_kept (fields_of names cs) cs,
        p.no_bitmap,
      )
