-- ===== src/Execution/Integers.antt =====
-- A filter whose condition compares columns of integers with integers.
use pefa.Base.{ℕ, ◌<◌, ◌≡◌, ◌∙◌, ap, sym, Bool, false, String, ◌>>=◌}
use pefa.Base.Int.{ℤ}
use pefa.Arrow.{Arrow, ArrowLaws, Table}
use pefa.Expressions.{
  BooleanExpr, ColumnRef, Literal, int_lit, CompareOp, boolean_const, predicate_expr, compare_expr,
}
use pefa.Expressions.Meaning.{holds, AllAtoms, compare_int}
use pefa.Kernel.Ir.{Ty, Floats, int_width}
use pefa.Kernel.Literals.{IntKind, Fits}
use pefa.Execution.Context.{ExecutionContext}
use pefa.Execution.Filter.{generate_filter_bitmap}
use pefa.Execution.Filter.Compare.{IsIntegerColumn, value_at, compare_bitmap-bits}
use pefa.Execution.Filter.Condition.{IsDecided, Decides}
use pefa.Execution.Materialize.{materialize_filter}
use pefa.Execution.Selection.{Selected, IsFilterable, filter_decided-Selected}

-- A comparison in a row, where `value` has the integer of each row and column name.
abbrev pub integer_atom : (ℕ → String → ℤ) → ℕ → ColumnRef → Literal → CompareOp → Bool
integer_atom value r c (int_lit v) op = compare_int op (value r c.name) v
integer_atom value r c _ op = false

-- The comparison is between a column of integers and an integer of its type.
pub record Compares (arrow : Arrow) (table : Table) (value : ℕ → String → ℤ) (c : ColumnRef)
    (l : Literal) : Type 0 where
  pub kind : IntKind
  pub ty : Ty
  pub literal : ℤ
  pub column : IsIntegerColumn arrow table c.name kind ty
  pub is_literal : l ≡ int_lit literal
  pub fits : Fits kind (int_width ty) literal
  pub values : (r : ℕ) → r < table.num_rows → value_at column r ≡ value r c.name

-- All comparisons are, and there is no constant.
abbrev pub IsIntegerCondition : Arrow → Table → (ℕ → String → ℤ) → BooleanExpr → Type 0
IsIntegerCondition arrow table value = AllAtoms (λ b. ⊥) (λ c l op. Compares arrow table value c l)

module _ (arrow : Arrow) (floats : Floats) (laws : ArrowLaws arrow) (table : Table)
    (value : ℕ → String → ℤ) where
  Compares-Decides :
      (c : ColumnRef) (l : Literal) (op : CompareOp)
      → Compares arrow table value c l
      → Decides arrow floats laws table (integer_atom value) c l op
  Compares-Decides c l op h =
      let (out, runs, size, bits) =
        compare_bitmap-bits arrow floats laws table c (record { value = l }) op h.literal h.column
          h.is_literal h.fits in
      (
        out,
        runs,
        (
          size,
          λ r below.
              bits r below
              ∙ ap (λ (a : ℤ). compare_int op a h.literal) (h.values r below)
              ∙ ap (λ (m : Literal). integer_atom value r c m op) (sym h.is_literal),
        ),
      )

  pub IsIntegerCondition-IsDecided :
      (e : BooleanExpr)
      → IsIntegerCondition arrow table value e
      → IsDecided arrow floats laws table (integer_atom value) e
  IsIntegerCondition-IsDecided (boolean_const b) h = absurd h
  IsIntegerCondition-IsDecided (compare_expr c l op) h = Compares-Decides c l.value op h
  IsIntegerCondition-IsDecided (predicate_expr l r op) h =
      (IsIntegerCondition-IsDecided l h.0, IsIntegerCondition-IsDecided r h.1)

-- For a filterable table (fewer than 2 ^ 31 rows, a chunk in the first column, columns of as many
-- rows and of types that can be materialized, no slices, the rows in mutable buffers), and a
-- condition that compares laid out columns of integers with integers of their types and has no
-- constants, generate_filter_bitmap and then materialize_filter return a table of the same schema
-- whose columns have, in order, exactly the rows at which the condition is true.
pub filter_integers-Selected :
    (arrow : Arrow) (floats : Floats) (laws : ArrowLaws arrow) (value : ℕ → String → ℤ)
    (ctx : ExecutionContext) (e : BooleanExpr)
    → IsFilterable ctx.table
    → IsIntegerCondition arrow ctx.table value e
    → Selected
        (λ r. holds (integer_atom value r) e)
        ctx.table
        (generate_filter_bitmap arrow floats ctx e >>= materialize_filter arrow)
filter_integers-Selected arrow floats laws value ctx e filterable h =
    filter_decided-Selected arrow laws floats (integer_atom value) ctx e filterable
      (IsIntegerCondition-IsDecided arrow floats laws ctx.table value e h)
