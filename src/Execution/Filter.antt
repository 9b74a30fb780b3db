-- ===== src/Execution/Filter.antt =====
-- `FilterExprExecutor` and `generate_filter_bitmap` of pefa/execution/execution.cpp. The buffers
-- that the visitor allocates stand in a heap, since two of its pointers may be to one buffer.
pub mod Rows
pub mod Compare
pub mod Combine
pub mod Condition
pub mod Constants
use Prim.Native.Nat.{bit_and, bit_or}
use pefa.Base.{
  ℕ, zero, suc, ◌+◌, ◌-◌, ◌*◌, ◌/◌, ◌%◌, ◌==◌, if◌then◌else◌, Bool, true, false, List, [], ◌∷◌,
  ◌++◌, length, get_elem?, set, replicate, Option, none, some, Outcome, ok, fault, Fault, ◌>>=◌,
  deref,
}
use pefa.Arrow.{
  Arrow, Array, ChunkedArray, Table, Field, total_length, get_field_by_name, get_column_by_name,
}
use pefa.Expressions.{
  BooleanExpr, boolean_const, predicate_expr, compare_expr, ColumnRef, LiteralExpr, CompareOp,
  PredicateOp, and, or, boolean_expr,
}
use pefa.Kernel.Ir.{Floats}
use pefa.Kernel.Object.{
  FilterMethods, kernel_methods, create_cpu, compile, execute, execute_remaining, sub_size,
}
use pefa.Execution.Counter.{increment}
use pefa.Execution.Context.{ExecutionContext, new_context}

abbrev pub Heap : Type 0
Heap = List (List ℕ)

pub record Executor : Type 0 where
  pub heap : Heap
  pub buffer : Option ℕ

unfoldable pub new_executor : Executor
new_executor = record { heap = []; buffer = none }

unfoldable pub combine : PredicateOp → ℕ → ℕ → ℕ
combine and a b = bit_and a b
combine or a b = bit_or a b

-- `for (int i …) lhs[i] &= rhs[i]`, or `|=`.
unfoldable pub combine_loop : PredicateOp → ℕ → ℕ → ℕ → ℕ → Heap → Outcome Heap
unfolding combine increment
combine_loop op lhs rhs zero i heap = ok heap
combine_loop op lhs rhs (suc rounds) i heap = do
  lhs_buf ← deref (get_elem? heap lhs) Fault.null_pointer
  rhs_buf ← deref (get_elem? heap rhs) Fault.null_pointer
  a ← deref (get_elem? lhs_buf i) Fault.out_of_bounds
  b ← deref (get_elem? rhs_buf i) Fault.out_of_bounds
  next ← increment i
  combine_loop op lhs rhs rounds next (set heap lhs (set lhs_buf i (combine op a b)))

-- `result()`, null where no buffer was made.
unfoldable pub result : Executor → Option (List ℕ)
result s = elim (s.buffer) [ none ↦ none | some p ↦ get_elem? s.heap p ]

-- No column, or no chunk in the first.
unfoldable pub has_no_rows : List ChunkedArray → Bool
has_no_rows [] = true
has_no_rows (c ∷ cs) = elim (c.chunks) [ [] ↦ true | x ∷ xs ↦ false ]

-- The first loop: the whole bytes of each chunk. `before` are the chunks ahead of it.
unfoldable pub filter_chunks : FilterMethods → List Array → List Array → List ℕ → Outcome (List ℕ)
unfolding total_length
filter_chunks kernel before [] buffer = ok buffer
filter_chunks kernel before (c ∷ cs) buffer =
    let offset = total_length before in
    let prev_bits = offset % 8 in
    let remaining_bits = (8 - prev_bits) % 8 in
    kernel.execute_chunk c buffer (offset / 8) remaining_bits
    >>= filter_chunks kernel (before ++ c ∷ []) cs

-- The body of the second loop: the bytes that a chunk shares with its neighbours.
unfoldable pub filter_edges : FilterMethods → ℕ → Array → List ℕ → Outcome (List ℕ)
unfolding sub_size
filter_edges kernel offset c buffer =
    let next = offset + c.length in
    (if offset % 8 == 0
      then ok buffer
      else kernel.execute_edge c buffer (offset / 8) 0 (offset % 8))
    >>= λ buf.
        if next % 8 == 0
        then ok buf
        else kernel.execute_edge c buf (next / 8) (sub_size c.length (next % 8)) 0

unfoldable pub filter_remaining_chunks : FilterMethods → ℕ → List Array → List ℕ → Outcome (List ℕ)
unfolding filter_edges
filter_remaining_chunks kernel offset [] buffer = ok buffer
filter_remaining_chunks kernel offset (c ∷ cs) buffer =
    filter_edges kernel offset c buffer >>= filter_remaining_chunks kernel (offset + c.length) cs

-- Both loops, on the buffer with all bits set.
unfoldable pub filter_column : FilterMethods → List Array → List ℕ → Outcome (List ℕ)
unfolding filter_chunks filter_remaining_chunks
filter_column kernel chunks buffer = do
  filtered ← filter_chunks kernel [] chunks buffer
  filter_remaining_chunks kernel 0 chunks filtered

-- The end of the visit of a predicate: the loop on the buffers that its two sides have left.
unfoldable pub join_buffers : PredicateOp → Executor → Executor → Outcome Executor
unfolding combine_loop
join_buffers op after_lhs after_rhs = do
  lhs ← deref after_lhs.buffer Fault.null_pointer
  rhs ← deref after_rhs.buffer Fault.null_pointer
  lhs_buf ← deref (get_elem? after_rhs.heap lhs) Fault.null_pointer
  heap ← combine_loop op lhs rhs (length lhs_buf) 0 after_rhs.heap
  ok (record { heap = heap; buffer = some lhs })

module _ (arrow : Arrow) (floats : Floats) where
  -- The bitmap of one comparison. A missing column is a null pointer, which `compile` reads.
  unfoldable pub compare_bitmap : Table → ColumnRef → LiteralExpr → CompareOp → Outcome (List ℕ)
  unfolding get_field_by_name get_column_by_name create_cpu compile execute execute_remaining
      filter_column
  compare_bitmap table lhs rhs op = do
    let buffer = replicate (arrow.bitmap_size table.num_rows) 255
    field ← deref (get_field_by_name arrow table lhs.name) Fault.null_pointer
    kernel ← compile arrow floats (create_cpu field (boolean_expr (compare_expr lhs rhs op)))
    column ← deref (get_column_by_name arrow table lhs.name) Fault.null_pointer
    filter_column (kernel_methods arrow floats kernel) column.chunks buffer

  -- `visit` of a constant is that of the base class, which does nothing.
  unfoldable pub visit : Table → BooleanExpr → Executor → Outcome Executor
  unfolding compare_bitmap join_buffers
  visit table (boolean_const b) s = ok s
  visit table (compare_expr lhs rhs op) s = do
    buffer ← compare_bitmap table lhs rhs op
    ok (record { heap = s.heap ++ buffer ∷ []; buffer = some (length s.heap) })
  visit table (predicate_expr l r op) s = do
    after_lhs ← visit table l s
    after_rhs ← visit table r after_lhs
    join_buffers op after_lhs after_rhs

  unfoldable pub generate_filter_bitmap : ExecutionContext → BooleanExpr → Outcome ExecutionContext
  unfolding has_no_rows new_executor visit result new_context
  generate_filter_bitmap ctx expr =
      if has_no_rows ctx.table.columns then new_context arrow ctx.table else (do
        executor ← visit ctx.table expr new_executor
        res ← new_context arrow ctx.table
        ok (record res { metadata = record (res.metadata) { filter_bitmap = result executor } }))
