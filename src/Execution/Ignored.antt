-- ===== src/Execution/Ignored.antt =====
-- What a filter does not read: the offsets and the validity of chunks.
pub mod Bitmaps
pub mod Copies
pub mod Whole
use pefa.Base.{
  ℕ, zero, suc, ◌+◌, ◌-◌, ◌%◌, ◌/◌, ◌==◌, ltb, ◌&&◌, ◌≡◌, ◌⊎◌, ◌∙◌, refl, sym, ap, ap₂, Bool, true,
  false, Bool-cases, inl, inr, if◌then◌else◌, List, [], ◌∷◌, ◌++◌, map, length, replicate, String,
  get_elem?, Option, none, some, Outcome, ok, throw, fault, Exception, Fault, ◌>>=◌, deref,
}
use pefa.Arrow.{
  Arrow, ArrowLaws, Array, ChunkedArray, Table, total_length, get_field_by_name, get_column_by_name,
}
use pefa.Expressions.{
  BooleanExpr, boolean_const, predicate_expr, compare_expr, boolean_expr, ColumnRef, LiteralExpr,
  CompareOp,
}
use pefa.Kernel.Ir.{Floats}
use pefa.Kernel.Object.{
  Compiled, FilterKernel, execute, execute_with, execute_remaining, execute_remaining_with, compile,
  create_cpu,
}
use pefa.Execution.Context.{ExecutionContext, create_chunks, create_columns, new_context}
use pefa.Execution.Filter.{
  Executor, filter_chunks, filter_edges, filter_remaining_chunks, compare_bitmap, visit,
  has_no_rows, generate_filter_bitmap,
}
use pefa.Execution.Counter.{int_max}
use pefa.Execution.Materialize.{
  chunk_size, read_bit, materialize_columns, materialize_filter, Cursor, copy_row, copy_rows,
  fill_chunk, next_chunk, materialize_chunks, materialize_column, start,
}

-- The chunks without their offsets and validity: rows from the start of their buffers, none of them null.
abbrev pub plain : Array → Array
plain c = record c { offset = 0; validity = none }

abbrev pub plain_column : ChunkedArray → ChunkedArray
plain_column c = record c { chunks = map plain c.chunks }

abbrev pub plain_table : Table → Table
plain_table t = record t { columns = map plain_column t.columns }

pub total_length-plain : (cs : List Array) → total_length (map plain cs) ≡ total_length cs
unfolding total_length
total_length-plain [] = refl
total_length-plain (c ∷ cs) = ap (c.length +◌) (total_length-plain cs)

pub map-append :
    {A B : Type 0} (f : A → B) (xs ys : List A) → map f (xs ++ ys) ≡ map f xs ++ map f ys
map-append f [] ys = refl
map-append f (x ∷ xs) ys = ap (◌∷◌ (f x)) (map-append f xs ys)

pub bind_congr :
    {A B : Type 0} {m n : Outcome A} {f g : A → Outcome B}
    → m ≡ n
    → ((a : A) → f a ≡ g a)
    → (m >>= f) ≡ (n >>= g)
bind_congr {m = m} {f = f} {g = g} e h = on_outcome m ∙ ap (◌>>= g) e
  where
    on_outcome : (m : Outcome _) → (m >>= f) ≡ (m >>= g)
    on_outcome (ok a) = h a
    on_outcome (throw x) = refl
    on_outcome (fault x) = refl
