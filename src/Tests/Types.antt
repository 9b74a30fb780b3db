-- ===== src/Tests/Types.antt =====
-- The type of an emitted predicate.
use pefa.Base.{refl}
use pefa.Arrow.{TypeId, Field}
use pefa.Expressions.{Expr, boolean_expr, and_expr, ge_expr, lt_expr, col, lit, int_lit, double_lit}
use pefa.Base.Int.{pos}
use pefa.Kernel.Ir.{f64, from_arrow}
use pefa.Kernel.Emit.{gen_predicate_func}
use pefa.Kernel.Typed.{Yields}
use pefa.Kernel.Typed.Results.{Returns, gen_predicate_func-HasType}
use pefa.Tests.Data.{test_arrow, test_floats}

abbrev x_field : Field
x_field = record { name = "x"; type = TypeId.double }

abbrev x_between : Expr
x_between =
    boolean_expr (
      and_expr (ge_expr (col "x") (lit (double_lit 4))) (lt_expr (col "x") (lit (int_lit (pos 9)))))

gen_predicate_func-HasType_example :
    Yields (Returns f64 x_between) (gen_predicate_func test_arrow test_floats x_field x_between)
gen_predicate_func-HasType_example =
    gen_predicate_func-HasType test_arrow test_floats x_field f64 (unfold from_arrow in refl)
      x_between
