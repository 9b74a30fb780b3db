-- ===== src/Execution/Ignored/Bitmaps.antt =====
-- The bitmap of a condition does not depend on the offsets and the validity of chunks.
use pefa.Base.{
  ℕ, zero, suc, ◌+◌, ◌%◌, ◌==◌, ◌≡◌, ◌∙◌, refl, sym, ap, if◌then◌else◌, List, [], ◌∷◌, ◌++◌, map,
  replicate, String, get_elem?, Option, none, some, Outcome, ok, Fault, ◌>>=◌, deref,
}
use pefa.Arrow.{Arrow, Array, ChunkedArray, Table, get_field_by_name, get_column_by_name}
use pefa.Expressions.{
  BooleanExpr, boolean_const, predicate_expr, compare_expr, boolean_expr, ColumnRef, LiteralExpr,
  CompareOp,
}
use pefa.Kernel.Ir.{Floats}
use pefa.Kernel.Object.{
  kernel_methods, Compiled, FilterKernel, execute, execute_with, execute_remaining,
  execute_remaining_with, compile, create_cpu,
}
use pefa.Execution.Filter.{
  Executor, filter_chunks, filter_edges, filter_remaining_chunks, compare_bitmap, visit,
}
use pefa.Execution.Ignored.{
  plain, plain_column, plain_table, total_length-plain, map-append, bind_congr,
}

module _ (arrow : Arrow) (floats : Floats) (kernel : FilterKernel) where
  execute-plain :
      (code : Option Compiled) (c : Array) (dest : List ℕ) (out offset : ℕ)
      → execute arrow floats (record kernel { code = code }) (plain c) dest out offset
        ≡ execute arrow floats (record kernel { code = code }) c dest out offset
  unfolding execute execute_with
  execute-plain none c dest out offset = refl
  execute-plain (some code) c dest out offset = on_width (arrow.bit_width c.type)
    where
      on_width :
          (w : Option ℕ)
          → execute_with arrow floats w code (plain c) dest out offset
            ≡ execute_with arrow floats w code c dest out offset
      on_width none = refl
      on_width (some w) = refl

  execute_remaining-plain :
      (code : Option Compiled) (c : Array) (dest : List ℕ) (out at bit_offset : ℕ)
      → execute_remaining arrow floats
          (record kernel { code = code })
          (plain c)
          dest
          out
          at
          bit_offset
        ≡ execute_remaining arrow floats (record kernel { code = code }) c dest out at bit_offset
  unfolding execute_remaining execute_remaining_with
  execute_remaining-plain none c dest out at bit_offset = refl
  execute_remaining-plain (some code) c dest out at bit_offset = on_width (arrow.bit_width c.type)
    where
      on_width :
          (w : Option ℕ)
          → execute_remaining_with arrow floats w code (plain c) dest out at bit_offset
            ≡ execute_remaining_with arrow floats w code c dest out at bit_offset
      on_width none = refl
      on_width (some w) = refl

  filter_chunks-plain :
      (before cs : List Array) (buffer : List ℕ)
      → filter_chunks (kernel_methods arrow floats kernel) (map plain before) (map plain cs) buffer
        ≡ filter_chunks (kernel_methods arrow floats kernel) before cs buffer
  unfolding filter_chunks
  filter_chunks-plain before [] buffer = refl
  filter_chunks-plain before (c ∷ cs) buffer =
      bind_congr (rw (total_length-plain before) (execute-plain kernel.code c buffer _ _)) (λ next.
        ap
          (λ (ahead : List Array).
            filter_chunks (kernel_methods arrow floats kernel) ahead (map plain cs) next)
          (sym (map-append plain before (c ∷ [])))
        ∙ filter_chunks-plain (before ++ c ∷ []) cs next)

  filter_edges-plain :
      (offset : ℕ) (c : Array) (buffer : List ℕ)
      → filter_edges (kernel_methods arrow floats kernel) offset (plain c) buffer
        ≡ filter_edges (kernel_methods arrow floats kernel) offset c buffer
  unfolding filter_edges
  filter_edges-plain offset c buffer =
      bind_congr
        (ap (λ (m : Outcome (List ℕ)). if offset % 8 == 0 then ok buffer else m)
          (execute_remaining-plain kernel.code c buffer _ _ _))
        (λ buf.
          ap (λ (m : Outcome (List ℕ)). if (offset + c.length) % 8 == 0 then ok buf else m)
            (execute_remaining-plain kernel.code c buf _ _ _))

  filter_remaining_chunks-plain :
      (offset : ℕ) (cs : List Array) (buffer : List ℕ)
      → filter_remaining_chunks (kernel_methods arrow floats kernel) offset (map plain cs) buffer
        ≡ filter_remaining_chunks (kernel_methods arrow floats kernel) offset cs buffer
  unfolding filter_remaining_chunks
  filter_remaining_chunks-plain offset [] buffer = refl
  filter_remaining_chunks-plain offset (c ∷ cs) buffer =
      bind_congr (filter_edges-plain offset c buffer)
        (λ next. filter_remaining_chunks-plain (offset + c.length) cs next)

module _ (arrow : Arrow) (floats : Floats) (table : Table) where
  get_plain :
      {A : Type 0} (cs : List ChunkedArray) (i : ℕ) (f : ChunkedArray → Outcome A)
      → (deref (get_elem? (map plain_column cs) i) Fault.null_pointer >>= f)
        ≡ (deref (get_elem? cs i) Fault.null_pointer >>= λ c. f (plain_column c))
  get_plain [] i f = refl
  get_plain (c ∷ cs) zero f = refl
  get_plain (c ∷ cs) (suc i) f = get_plain cs i f

  index-plain :
      {A : Type 0} (o : Option ℕ) (f : ChunkedArray → Outcome A)
      → (deref
            (elim o [ none ↦ none | some i ↦ get_elem? (map plain_column table.columns) i ])
            Fault.null_pointer
          >>= f)
        ≡ (deref (elim o [ none ↦ none | some i ↦ get_elem? table.columns i ]) Fault.null_pointer
            >>= λ c. f (plain_column c))
  index-plain none f = refl
  index-plain (some i) f = get_plain table.columns i f

  column-plain :
      {A : Type 0} (name : String) (f : ChunkedArray → Outcome A)
      → (deref (get_column_by_name arrow (plain_table table) name) Fault.null_pointer >>= f) ≡ (
          deref (get_column_by_name arrow table name) Fault.null_pointer >>= λ c.
          f (plain_column c))
  unfolding get_column_by_name
  column-plain name f = index-plain (arrow.field_index table.schema name) f

  -- What is done with the kernel and the column of a comparison.
  abbrev filtered_by : FilterKernel → ChunkedArray → Outcome (List ℕ)
  filtered_by kernel c =
      filter_chunks (kernel_methods arrow floats kernel) [] c.chunks
        (replicate (arrow.bitmap_size table.num_rows) 255)
      >>= λ filtered.
          filter_remaining_chunks (kernel_methods arrow floats kernel) 0 c.chunks filtered

  compare_bitmap-plain :
      (lhs : ColumnRef) (rhs : LiteralExpr) (op : CompareOp)
      → compare_bitmap arrow floats (plain_table table) lhs rhs op
        ≡ compare_bitmap arrow floats table lhs rhs op
  unfolding compare_bitmap get_field_by_name
  compare_bitmap-plain lhs rhs op =
      bind_congr {m = deref (get_field_by_name arrow table lhs.name) Fault.null_pointer} refl
        (λ field.
          bind_congr
            {m = compile arrow floats (create_cpu field (boolean_expr (compare_expr lhs rhs op)))}
            refl
            (λ kernel.
              column-plain lhs.name (filtered_by kernel)
              ∙ bind_congr {m = deref (get_column_by_name arrow table lhs.name) Fault.null_pointer}
                  refl
                  (λ c.
                    bind_congr
                      (filter_chunks-plain arrow floats kernel [] c.chunks
                        (replicate (arrow.bitmap_size table.num_rows) 255))
                      (λ filtered.
                        filter_remaining_chunks-plain arrow floats kernel 0 c.chunks filtered))))

  pub visit-plain :
      (e : BooleanExpr) (s : Executor)
      → visit arrow floats (plain_table table) e s ≡ visit arrow floats table e s
  unfolding visit
  visit-plain (boolean_const b) s = refl
  visit-plain (compare_expr lhs rhs op) s =
      bind_congr (compare_bitmap-plain lhs rhs op) (λ buffer. refl)
  visit-plain (predicate_expr l r op) s =
      bind_congr (visit-plain l s)
        (λ after_lhs. bind_congr (visit-plain r after_lhs) (λ after_rhs. refl))
