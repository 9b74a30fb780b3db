-- ===== src/Tests/Programs.antt =====
-- A query whose kernels are compiled on the shared JIT.
use pefa.Base.{◌≡◌, refl, none, ok, throw, fault}
use pefa.Arrow.{Table}
use pefa.Expressions.{BooleanExpr, and_expr, gt_expr, lt_expr, col, lit}
use pefa.Jit.{add_module, find_symbol}
use pefa.Jit.Kernels.{emit_code, get_address, kernel_module}
use pefa.Jit.Passes.{optimize_module}
use pefa.Execution.Filter.{generate_filter_bitmap}
use pefa.Execution.Materialize.{materialize_filter, read_bit}
use pefa.Query.{QueryCompiler, new_query, filter}
use pefa.Query as OwnQuery
use pefa.Plan.Joined.{IsQuery, is_new, is_filter}
use pefa.Program.Filter.{Static}
use pefa.Program.Leaks.{resolvers}
use pefa.Program.Resolvers.{execute-resolvers}
use pefa.Tests.Machine.{Layers}
use pefa.Program.Query.{execute}
use pefa.Program.Kernels
use pefa.Program.Laws.{IsQuiet}
use pefa.Program.Same.{Same}
use pefa.Program.Queries.{execute-Same}
use pefa.Tests.Data.{test_arrow, test_floats, test_table, a_condition, b_condition}
use pefa.Tests.Addresses.{pair, code_at, placed_llvm, placed_laws, placed_code_laws}

-- The column "a" is compared twice, so two kernels have functions of one name.
abbrev three_comparisons : BooleanExpr
three_comparisons = and_expr a_condition (and_expr b_condition a_condition)

abbrev test_query : QueryCompiler
test_query = filter new_query three_comparisons

execute-Same_example :
    Same
      (IsQuiet placed_llvm tt placed_laws)
      (OwnQuery.execute test_arrow test_floats test_query test_table)
      (execute test_arrow test_floats placed_llvm code_at test_query test_table none)
execute-Same_example =
    execute-Same test_arrow test_floats placed_llvm tt placed_laws code_at placed_code_laws
      (λ field code typed. refl) refl test_query test_table none tt

-- The run on the JIT, with its addresses, has the outcome of the run without one.
runs_on_jit :
    (execute test_arrow test_floats placed_llvm code_at test_query test_table none).0
    ≡ OwnQuery.execute test_arrow test_floats test_query test_table
unfolding execute OwnQuery.execute filter new_query and_expr generate_filter_bitmap gt_expr lt_expr
    col lit emit_code add_module materialize_filter optimize_module read_bit get_address find_symbol
    kernel_module Kernels.execute Kernels.execute_remaining pair
runs_on_jit = refl

-- The table that the query returns without a JIT.
abbrev own_table : Table
own_table = elim (OwnQuery.execute test_arrow test_floats test_query test_table) [
  | ok t ↦ t
  | throw e ↦ test_table
  | fault e ↦ test_table
]

test_query_returns : OwnQuery.execute test_arrow test_floats test_query test_table ≡ ok own_table
unfolding OwnQuery.execute filter new_query and_expr generate_filter_bitmap gt_expr lt_expr col lit
    materialize_filter read_bit
test_query_returns = refl

test_query-IsQuery : IsQuery test_query
test_query-IsQuery = is_filter is_new three_comparisons

execute-resolvers_example :
    (s : Static Layers (Unit {0}) (Unit {0})) × (execute test_arrow test_floats placed_llvm code_at
        test_query test_table none
      ≡ (ok own_table, s))
    × IsQuiet placed_llvm tt placed_laws s
    × (resolvers s ≡ 3)
unfolding filter new_query and_expr gt_expr lt_expr
execute-resolvers_example =
    execute-resolvers test_arrow test_floats placed_llvm tt placed_laws code_at placed_code_laws
      (λ field code typed. refl) refl test_table none tt test_query test_query-IsQuery
      test_query_returns
