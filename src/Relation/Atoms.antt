-- ===== src/Relation/Atoms.antt =====
-- A comparison of a column of numbers, from its meaning in a row to the bitmap of a table.
use mathlib.Core.Path.{subst}
use pefa.Base.{ℕ, ◌<◌, ◌≡◌, ◌∙◌, ◌^◌, refl, ap, ap₂, sym, arith, get_or, get_elem?, Option, some}
use pefa.Arrow.{
  TypeId, Arrow, ArrowLaws, Field, ChunkedArray, Table, get_field_by_name, get_column_by_name,
}
use pefa.Expressions.{
  BooleanExpr, boolean_const, predicate_expr, compare_expr, ColumnRef, Literal, CompareOp,
}
use pefa.Kernel.Ir.{Floats, int_width}
use pefa.Kernel.Numbers.{
  Number, number_of, element_of, IsNumber, number_of-IsNumber, number-bit_width, compare_number,
  compile-NumberCode,
}
use pefa.Execution.Rows.{IsLaidOut, column_rows}
use pefa.Execution.Filter.Compare.{HasColumn, compare_bitmap-code}
use pefa.Execution.Filter.Condition.{RowMeaning, Decides, IsDecided}
use pefa.Relation.{type_at, cell_at, row_atom, Comparable, IsCondition, header_of, row_of}
use pefa.Relation.Lists.{get_elem?-map, get_or-get_elem?}
use pefa.Relation.Tables.{
  pattern_limit, AllBelow-get_or, IsColumn, IsTable, length-column, AreColumns-IsColumn,
  cells_at-column,
}

module _ (arrow : Arrow) (floats : Floats) (laws : ArrowLaws arrow) (table : Table)
    (valid : IsTable table) where
  -- What a comparison says of row `r`.
  abbrev pub atom_of_rows : RowMeaning
  atom_of_rows r = row_atom arrow floats (row_of table r)

  Comparable-HasColumn :
      (c : ColumnRef) (l : Literal)
      → (comparable : Comparable arrow (header_of table) c l)
      → (has : HasColumn arrow table c.name) × (has.field ≡ comparable.field)
        × (get_elem? table.columns comparable.index ≡ some has.column)
        × (has.column.type ≡ comparable.field.type)
  unfolding get_field_by_name get_column_by_name
  Comparable-HasColumn c l comparable =
      let (column, at, same_type) =
        get_elem?-map (λ (c : ChunkedArray). c.type) table.columns comparable.index
          comparable.type_found in
      let col =
        AreColumns-IsColumn table.num_rows table.columns comparable.index valid.columns_valid at in
      (
        record {
          field = comparable.field;
          column = column;
          field_found = rw (comparable.found, get_field_by_name) (comparable.field_found);
          column_found = rw (comparable.found, get_column_by_name) at;
          same_name = comparable.same_name;
          laid_out = subst (λ (t : TypeId). IsLaidOut t 0 column.chunks) same_type col.laid_out;
          all_rows = sym col.counted ∙ col.same_rows;
        },
        refl,
        at,
        same_type,
      )

  -- The type and the cell that a comparison is about.
  type_at-Comparable :
      (c : ColumnRef) (l : Literal) (comparable : Comparable arrow (header_of table) c l)
      → type_at arrow (header_of table) c.name ≡ comparable.field.type
  type_at-Comparable c l comparable =
      rw (comparable.found, type_at)
        (get_or-get_elem? (header_of table).types comparable.index TypeId.na comparable.type_found)

  cell_at-Comparable :
      (c : ColumnRef) (l : Literal) (comparable : Comparable arrow (header_of table) c l)
      (column : ChunkedArray) (r : ℕ)
      → get_elem? table.columns comparable.index ≡ some column
      → cell_at arrow (row_of table r) c.name ≡ get_or (column_rows column.chunks) r 0
  cell_at-Comparable c l comparable column r at =
      rw (comparable.found, cell_at) (cells_at-column table.columns comparable.index r at)

  pattern_small :
      (c : ChunkedArray) (n : Number) (r : ℕ)
      → IsColumn table.num_rows c
      → number_of c.type ≡ some n
      → r < table.num_rows
      → get_or (column_rows c.chunks) r 0 < 2 ^ int_width (element_of n)
  pattern_small c n r col e below =
      let bounded = rw (e, pattern_limit) at (col.patterns) in
      AllBelow-get_or _ (column_rows c.chunks) r bounded
        (omega (arith, length-column table.num_rows c col))

  Comparable-Decides :
      (c : ColumnRef) (l : Literal) (op : CompareOp)
      → Comparable arrow (header_of table) c l
      → Decides arrow floats laws table atom_of_rows c l op
  Comparable-Decides c l op comparable =
      let (has, same_field, at, same_type) = Comparable-HasColumn c l comparable in
      let n : Number = comparable.number in
      let number : IsNumber has.field.type n =
        subst (λ (f : Field). IsNumber f.type n) (sym same_field)
          (number_of-IsNumber comparable.field.type n comparable.is_number) in
      let code =
        compile-NumberCode arrow floats has.field c (record { value = l }) op n number has.same_name
          comparable.admits in
      let (out, runs, size, bits) =
        compare_bitmap-code arrow floats laws table c (record { value = l }) op has code.code
          code.compiles (rw (code.element) (number-bit_width arrow floats laws number)) in
      let col =
        AreColumns-IsColumn table.num_rows table.columns comparable.index valid.columns_valid at in
      (
        out,
        runs,
        (
          size,
          λ r below.
              bits r below
              ∙ code.compares _ (
                  pattern_small has.column n r col (ap number_of same_type ∙ comparable.is_number)
                    below)
              ∙ ap₂ (λ (m : Option Number) (x : ℕ). compare_number floats m op x l)
                  (sym (ap number_of (type_at-Comparable c l comparable) ∙ comparable.is_number))
                  (sym (cell_at-Comparable c l comparable has.column r at)),
        ),
      )

  -- A condition of that form is decided, by what it says of each row.
  pub IsCondition-IsDecided :
      (e : BooleanExpr)
      → IsCondition arrow (header_of table) e
      → IsDecided arrow floats laws table atom_of_rows e
  IsCondition-IsDecided (boolean_const b) h = absurd h
  IsCondition-IsDecided (compare_expr c l op) h = Comparable-Decides c l.value op h
  IsCondition-IsDecided (predicate_expr l r op) h =
      (IsCondition-IsDecided l h.0, IsCondition-IsDecided r h.1)
