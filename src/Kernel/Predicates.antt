-- ===== src/Kernel/Predicates.antt =====
-- Kernels whose predicate joins comparisons of a column of integers with integers.
use text.Mathlib.Text.{◌==◌ as str_eq}
use pefa.Base.{ℕ, ◌^◌, ◌<◌, ◌≡◌, ◌∙◌, refl, ap, sym, true, false, Bool, some, ok, ◌==◌}
use pefa.Base.Int.{ℤ}
use pefa.Arrow.{Arrow, Field}
use pefa.Expressions.{
  BooleanExpr, boolean_const, predicate_expr, compare_expr, PredicateOp, and, or, Literal, int_lit,
  ColumnRef, CompareOp, boolean_expr,
}
use pefa.Expressions.Meaning.{compare_int, connect, holds, AllAtoms}
use pefa.Kernel.Ir.{Ty, Value, input, Floats, int_width, bit, eval, const_int, icmp, truncate}
use pefa.Kernel.Literals.{IntKind, to_int, Fits, predicate_of}
use pefa.Kernel.Emit.{Visitor, new_visitor, create_op, emit, emit_expr, gen_predicate_func}
use pefa.Kernel.Object.{Compiled, create_cpu, compile, run_predicate}
use pefa.Kernel.Integers.{IsIntegral, emit_compare-integral, integral-from_arrow, eval-compare}

-- A comparison, where the column has the integer `a`.
abbrev pub atom_at : ℤ → ColumnRef → Literal → CompareOp → Bool
atom_at a c (int_lit v) op = compare_int op a v
atom_at a c _ op = false

-- A comparison of the field's column with an integer of its type.
abbrev ComparesField : Field → IntKind → Ty → ColumnRef → Literal → CompareOp → Type 0
ComparesField field k ty c l op =
    (v : ℤ) × (l ≡ int_lit v) × Fits k (int_width ty) v × (str_eq c.name field.name ≡ true)

abbrev pub IsFieldCondition : Field → IntKind → Ty → BooleanExpr → Type 0
IsFieldCondition field k ty = AllAtoms (λ b. ⊥) (ComparesField field k ty)

module _ (arrow : Arrow) (floats : Floats) (field : Field) (k : IntKind) (ty : Ty)
    (integral : IsIntegral field.type k ty) where
  -- The value gives, for each pattern of the column's type, the truth of the expression.
  abbrev Computes : BooleanExpr → Value → Type 0
  Computes e value =
      (x : ℕ)
      → x < 2 ^ int_width ty
      → eval floats value x ≡ bit (holds (atom_at (to_int k (int_width ty) x)) e)

  abbrev Emitted : BooleanExpr → Visitor → Type 0
  Emitted e v =
      (w : Visitor) × (value : Value) × (emit arrow floats field (input ty) e v ≡ ok w)
      × (w.result ≡ some value)
      × Computes e value

  eval-create_op :
      (op : PredicateOp) (a b : Value) (x : ℕ) (p q : Bool)
      → eval floats a x ≡ bit p
      → eval floats b x ≡ bit q
      → eval floats (create_op op a b) x ≡ bit (connect op p q)
  unfolding create_op connect
  eval-create_op and a b x true true h h' = unfold eval in rw (h, h') refl
  eval-create_op and a b x true false h h' = unfold eval in rw (h, h') refl
  eval-create_op and a b x false true h h' = unfold eval in rw (h, h') refl
  eval-create_op and a b x false false h h' = unfold eval in rw (h, h') refl
  eval-create_op or a b x true true h h' = unfold eval in rw (h, h') refl
  eval-create_op or a b x true false h h' = unfold eval in rw (h, h') refl
  eval-create_op or a b x false true h h' = unfold eval in rw (h, h') refl
  eval-create_op or a b x false false h h' = unfold eval in rw (h, h') refl

  emit-predicate_expr :
      (l r : BooleanExpr) (op : PredicateOp) (v a b : Visitor) (p q : Value)
      → emit arrow floats field (input ty) l (record v { last_op = op }) ≡ ok a
      → emit arrow floats field (input ty) r (record a { last_op = op }) ≡ ok b
      → a.result ≡ some p
      → b.result ≡ some q
      → emit arrow floats field (input ty) (predicate_expr l r op) v
        ≡ ok (record b { result = some (create_op op p q) })
  unfolding emit
  emit-predicate_expr l r op v a b p q runs runs' at at' = rw (runs, runs', at, at') refl

  emit-Emitted : (e : BooleanExpr) (v : Visitor) → IsFieldCondition field k ty e → Emitted e v
  unfolding emit holds
  emit-Emitted (boolean_const b) v h = absurd h
  emit-Emitted (compare_expr c l op) v (lit_value, is_lit, fits, same) = (
    record v {
      result =
          some (
            icmp (predicate_of k op) (input ty) (const_int ty (truncate (int_width ty) lit_value)));
    },
    icmp (predicate_of k op) (input ty) (const_int ty (truncate (int_width ty) lit_value)),
    emit_compare-integral arrow floats field c l.value op lit_value v integral same is_lit,
    refl,
    λ x small.
        eval-compare arrow floats op lit_value x integral fits small
        ∙ ap (λ (m : Literal). bit (atom_at (to_int k (int_width ty) x) c m op)) (sym is_lit),
  )
  emit-Emitted (predicate_expr l r op) v h =
      let (a, p, runs, at, left) = emit-Emitted l (record v { last_op = op }) h.0 in
      let (b, q, runs', at', right) = emit-Emitted r (record a { last_op = op }) h.1 in
      (
        record b { result = some (create_op op p q) },
        create_op op p q,
        emit-predicate_expr l r op v a b p q runs runs' at at',
        refl,
        λ x small.
            eval-create_op op p q x (holds (atom_at (to_int k (int_width ty) x)) l)
              (holds (atom_at (to_int k (int_width ty) x)) r) (left x small) (right x small),
      )

  bit-test : (b : Bool) → (bit b == 1) ≡ b
  unfolding bit
  bit-test true = refl
  bit-test false = refl

  -- An expression that joins comparisons of the field's column of integers with integers of its
  -- type compiles, and the emitted predicate is true for exactly those patterns whose integer
  -- satisfies the expression.
  pub compile-holds :
      (e : BooleanExpr)
      → IsFieldCondition field k ty e
      → (code : Compiled) × (compile arrow floats (create_cpu field (boolean_expr e))
          ≡ ok (record { field = field; expr = boolean_expr e; code = some code }))
        × ((x : ℕ)
            → x < 2 ^ int_width ty
            → run_predicate arrow floats code x ≡ holds (atom_at (to_int k (int_width ty) x)) e)
  unfolding compile gen_predicate_func emit_expr create_cpu run_predicate
  compile-holds e h =
      let (w, value, runs, at, computes) = emit-Emitted e new_visitor h in
      (
        record { predicate = value; element = ty },
        rw (integral-from_arrow arrow floats integral, runs, at) refl,
        λ x small.
            ap (λ (n : ℕ). n == 1) (computes x small)
            ∙ bit-test (holds (atom_at (to_int k (int_width ty) x)) e),
      )
