-- ===== src/Execution/Filter/Compare.antt =====
-- The bitmap of one comparison.
use text.Mathlib.Text.{◌==◌ as str_eq}
use pefa.Base.{
  ℕ, ◌+◌, ◌*◌, ◌^◌, ◌≤◌, ◌<◌, ◌≡◌, ◌∙◌, refl, ap, arith, Bool, true, ◌&&◌, List, [], length, get_or,
  replicate, length-replicate, some, String, ok, ◌>>=◌,
}
use pefa.Base.Int.{ℤ}
use pefa.Arrow.{
  Arrow, ArrowLaws, Field, ChunkedArray, Table, total_length, get_field_by_name, get_column_by_name,
}
use pefa.Bitmap.Bits.{bitmap_bit, window, window_all, bitmap_bit-replicate}
use pefa.Bitmap.Masks.{Masks, Masks-bind, Masks-congr}
use pefa.Expressions.{ColumnRef, LiteralExpr, CompareOp, compare_expr, boolean_expr, int_lit}
use pefa.Expressions.Meaning.{compare_int}
use pefa.Kernel.Ir.{Ty, Floats, int_width}
use pefa.Kernel.Literals.{IntKind, to_int, Fits}
use pefa.Kernel.Integers.{
  IsIntegral, integral-bit_width, compare_code, compile-compare, run_predicate-compare,
}
use pefa.Kernel.Object.{kernel_methods, FilterKernel, Compiled, run_predicate, compile, create_cpu}
use pefa.Execution.Rows.{IsLaidOut, column_rows}
use pefa.Execution.Filter.{compare_bitmap, filter_chunks, filter_remaining_chunks}
use pefa.Execution.Filter.Rows.{filter_chunks-Masks, filter_remaining_chunks-Masks, all_rows}

-- The table has a column of that name: the field and the column that the two lookups find.
pub record HasColumn (arrow : Arrow) (table : Table) (name : String) : Type 0 where
  pub field : Field
  pub column : ChunkedArray
  pub field_found : get_field_by_name arrow table name ≡ some field
  pub column_found : get_column_by_name arrow table name ≡ some column
  pub same_name : str_eq name field.name ≡ true
  pub laid_out : IsLaidOut field.type 0 column.chunks
  pub all_rows : total_length column.chunks ≡ table.num_rows

-- A column of integers, with patterns of its width.
pub record IsIntegerColumn (arrow : Arrow) (table : Table) (name : String) (k : IntKind) (ty : Ty)
    : Type 0 where
  pub has : HasColumn arrow table name
  pub integral : IsIntegral has.field.type k ty
  pub in_range :
      (r : ℕ) → r < table.num_rows → get_or (column_rows has.column.chunks) r 0 < 2 ^ int_width ty

-- The integer in row `r`.
abbrev pub value_at :
    {arrow : Arrow} {table : Table} {name : String} {k : IntKind} {ty : Ty}
    → IsIntegerColumn arrow table name k ty
    → ℕ
    → ℤ
value_at {k} {ty} col r = to_int k (int_width ty) (get_or (column_rows col.has.column.chunks) r 0)

module _ (arrow : Arrow) (floats : Floats) (laws : ArrowLaws arrow) (table : Table) where
  abbrev pub row_passes : {name : String} → Compiled → HasColumn arrow table name → ℕ → Bool
  row_passes code has r =
      run_predicate arrow floats code (get_or (column_rows has.column.chunks) r 0)

  -- With a kernel at hand, the two loops leave the rows at which its predicate holds.
  loops-Masks :
      (kernel : FilterKernel) (code : Compiled) (name : String) (has : HasColumn arrow table name)
      → kernel.code ≡ some code
      → arrow.bit_width has.field.type ≡ some (int_width code.element)
      → Masks
          (window 0 (0 + table.num_rows) (row_passes code has))
          (replicate (arrow.bitmap_size table.num_rows) 255)
          (filter_chunks
              (kernel_methods arrow floats kernel)
              []
              has.column.chunks
              (replicate (arrow.bitmap_size table.num_rows) 255)
            >>= filter_remaining_chunks (kernel_methods arrow floats kernel) 0 has.column.chunks)
  loops-Masks kernel code name has compiled width =
      let chunks = has.column.chunks in
      let q : ℕ → Bool = row_passes code has in
      let numbered : (k : ℕ)
          → k < total_length chunks
          → run_predicate arrow floats code (get_or (column_rows chunks) k 0) ≡ q (0 + k) =
        λ k h. ap q (omega arith) in
      let fits : 0 + total_length chunks ≤ arrow.bitmap_size table.num_rows * 8 =
        omega (arith, has.all_rows, laws.bitmap_fits table.num_rows) in
      let size = length-replicate {A = ℕ} (arrow.bitmap_size table.num_rows) 255 in
      Masks-congr
        (λ r.
          all_rows q has.field.type 0 chunks r has.laid_out
          ∙ ap (λ (t : ℕ). window 0 (0 + t) q r) has.all_rows)
        (Masks-bind
          (filter_chunks-Masks arrow floats kernel code has.field.type compiled width q [] chunks 0
            _ (unfold total_length in refl) has.laid_out numbered (rw size fits))
          (λ mid same.
            filter_remaining_chunks-Masks arrow floats kernel code has.field.type compiled width q 0
              chunks mid has.laid_out numbered (rw (same, size) fits)))

  -- A comparison that compiles returns the bitmap of what its code says of each row.
  pub compare_bitmap-code :
      (lhs : ColumnRef) (rhs : LiteralExpr) (op : CompareOp) (has : HasColumn arrow table lhs.name)
      (code : Compiled)
      → compile arrow floats (create_cpu has.field (boolean_expr (compare_expr lhs rhs op)))
        ≡ ok (record {
          field = has.field;
          expr = boolean_expr (compare_expr lhs rhs op);
          code = some code;
        })
      → arrow.bit_width has.field.type ≡ some (int_width code.element)
      → (out : List ℕ) × (compare_bitmap arrow floats table lhs rhs op ≡ ok out)
        × (length out ≡ arrow.bitmap_size table.num_rows)
        × ((r : ℕ) → r < table.num_rows → bitmap_bit out r ≡ row_passes code has r)
  unfolding compare_bitmap
  compare_bitmap-code lhs rhs op has code compiles width =
      let kernel : FilterKernel = record {
        field = has.field;
        expr = boolean_expr (compare_expr lhs rhs op);
        code = some code;
      } in
      let masks = loops-Masks kernel code lhs.name has refl width in
      (
        masks.out,
        rw (has.field_found, compiles, has.column_found) masks.returns,
        masks.same_length ∙ length-replicate _ 255,
        λ r h.
            masks.bits r
            ∙ ap (λ (b : Bool). b && window 0 (0 + table.num_rows) (row_passes code has) r)
                (bitmap_bit-replicate _ r (omega (arith, laws.bitmap_fits table.num_rows)))
            ∙ window_all (0 + table.num_rows) (row_passes code has) r (omega arith),
      )

  -- On a laid out column of integers, and for a literal that its type has, a comparison returns a
  -- bitmap of the table's size in which the bit of each row tells whether the row's integer
  -- compares so with the literal.
  pub compare_bitmap-bits :
      (lhs : ColumnRef) (rhs : LiteralExpr) (op : CompareOp) (v : ℤ) {k : IntKind} {ty : Ty}
      (col : IsIntegerColumn arrow table lhs.name k ty)
      → rhs.value ≡ int_lit v
      → Fits k (int_width ty) v
      → (out : List ℕ) × (compare_bitmap arrow floats table lhs rhs op ≡ ok out)
        × (length out ≡ arrow.bitmap_size table.num_rows)
        × ((r : ℕ) → r < table.num_rows → bitmap_bit out r ≡ compare_int op (value_at col r) v)
  compare_bitmap-bits lhs rhs op v {k} {ty} col literal fits =
      let has = col.has in
      let (out, runs, size, bits) =
        compare_bitmap-code lhs rhs op has (compare_code k ty op v)
          (compile-compare arrow floats has.field lhs rhs op v col.integral has.same_name literal)
          (integral-bit_width arrow floats laws col.integral) in
      (
        out,
        runs,
        size,
        λ r h.
            bits r h
            ∙ run_predicate-compare arrow floats op v _ col.integral fits (col.in_range r h),
      )
