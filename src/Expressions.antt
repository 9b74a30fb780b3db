-- ===== src/Expressions.antt =====
-- pefa/query_compiler/expressions.h and expressions.cpp: the expressions of a query. The virtual
-- calls `visit` of the nodes are the clauses of the functions that recur on them.
pub mod Meaning
use pefa.Base.{Bool, String, ℕ}
use pefa.Base.Int.{ℤ}

-- `std::variant<int, double, std::string, bool>`; a double is its bit pattern.
pub data Literal : Type 0 where
  int_lit : ℤ → Literal
  double_lit : ℕ → Literal
  string_lit : String → Literal
  bool_lit : Bool → Literal

pub record ColumnRef : Type 0 where
  pub name : String

pub record LiteralExpr : Type 0 where
  pub value : Literal

pub data CompareOp : Type 0 where
  gt lt ge le eq neq : CompareOp

pub data PredicateOp : Type 0 where
  and or : PredicateOp

pub data BooleanExpr : Type 0 where
  boolean_const : Bool → BooleanExpr
  predicate_expr : BooleanExpr → BooleanExpr → PredicateOp → BooleanExpr
  compare_expr : ColumnRef → LiteralExpr → CompareOp → BooleanExpr

pub data Expr : Type 0 where
  boolean_expr : BooleanExpr → Expr
  column_ref : ColumnRef → Expr
  literal_expr : LiteralExpr → Expr

-- The functions `create` of the nodes, and the constructors that they call.
unfoldable pub create_column_ref : String → ColumnRef
create_column_ref name = record { name = name }

unfoldable pub create_boolean_const : Bool → BooleanExpr
create_boolean_const value = boolean_const value

unfoldable pub create_predicate_expr : BooleanExpr → BooleanExpr → PredicateOp → BooleanExpr
create_predicate_expr lhs rhs op = predicate_expr lhs rhs op

unfoldable pub create_compare_expr : ColumnRef → LiteralExpr → CompareOp → BooleanExpr
create_compare_expr lhs rhs op = compare_expr lhs rhs op

unfoldable pub create_literal_expr : Literal → LiteralExpr
create_literal_expr value = record { value = value }

-- The functions by which a query is written.
unfoldable pub col : String → ColumnRef
unfolding create_column_ref
col name = create_column_ref name

unfoldable pub lit : Literal → LiteralExpr
unfolding create_literal_expr
lit value = create_literal_expr value

unfoldable pub and_expr : BooleanExpr → BooleanExpr → BooleanExpr
unfolding create_predicate_expr
and_expr lhs rhs = create_predicate_expr lhs rhs and

unfoldable pub or_expr : BooleanExpr → BooleanExpr → BooleanExpr
unfolding create_predicate_expr
or_expr lhs rhs = create_predicate_expr lhs rhs or

unfoldable pub eq_expr : ColumnRef → LiteralExpr → BooleanExpr
unfolding create_compare_expr
eq_expr lhs rhs = create_compare_expr lhs rhs eq

unfoldable pub le_expr : ColumnRef → LiteralExpr → BooleanExpr
unfolding create_compare_expr
le_expr lhs rhs = create_compare_expr lhs rhs le

unfoldable pub ge_expr : ColumnRef → LiteralExpr → BooleanExpr
unfolding create_compare_expr
ge_expr lhs rhs = create_compare_expr lhs rhs ge

unfoldable pub neq_expr : ColumnRef → LiteralExpr → BooleanExpr
unfolding create_compare_expr
neq_expr lhs rhs = create_compare_expr lhs rhs neq

unfoldable pub lt_expr : ColumnRef → LiteralExpr → BooleanExpr
unfolding create_compare_expr
lt_expr lhs rhs = create_compare_expr lhs rhs lt

unfoldable pub gt_expr : ColumnRef → LiteralExpr → BooleanExpr
unfolding create_compare_expr
gt_expr lhs rhs = create_compare_expr lhs rhs gt
