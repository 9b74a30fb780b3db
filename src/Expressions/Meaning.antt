-- ===== src/Expressions/Meaning.antt =====
-- What a query's condition means: the connectives over a meaning of its comparisons.
use pefa.Base.{Bool, ◌&&◌, ◌||◌, ltb, leb, ◌==◌, not, ◌+◌}
use pefa.Base.Int.{ℤ, pos_part, neg_part}
use pefa.Expressions.{
  BooleanExpr, boolean_const, predicate_expr, compare_expr, ColumnRef, Literal, CompareOp, gt, lt,
  ge, le, eq, neq, PredicateOp, and, or,
}

unfoldable pub connect : PredicateOp → Bool → Bool → Bool
connect and a b = a && b
connect or a b = a || b

unfoldable pub holds : (ColumnRef → Literal → CompareOp → Bool) → BooleanExpr → Bool
unfolding connect
holds atom (boolean_const b) = b
holds atom (predicate_expr l r op) = connect op (holds atom l) (holds atom r)
holds atom (compare_expr c l op) = atom c l.value op

-- Every constant and comparison of the condition is admitted.
abbrev pub AllAtoms :
    (Bool → Type 0) → (ColumnRef → Literal → CompareOp → Type 0) → BooleanExpr → Type 0
AllAtoms C A (boolean_const b) = C b
AllAtoms C A (predicate_expr l r op) = AllAtoms C A l × AllAtoms C A r
AllAtoms C A (compare_expr c l op) = A c l.value op

-- The order of the integers.
unfoldable pub compare_int : CompareOp → ℤ → ℤ → Bool
compare_int gt a b = ltb (pos_part b + neg_part a) (pos_part a + neg_part b)
compare_int lt a b = ltb (pos_part a + neg_part b) (pos_part b + neg_part a)
compare_int ge a b = leb (pos_part b + neg_part a) (pos_part a + neg_part b)
compare_int le a b = leb (pos_part a + neg_part b) (pos_part b + neg_part a)
compare_int eq a b = pos_part a + neg_part b == pos_part b + neg_part a
compare_int neq a b = not (pos_part a + neg_part b == pos_part b + neg_part a)
