-- ===== src/Kernel/Typed.antt =====
-- The types of the emitted predicate, by the rules of LLVM's language reference.
pub mod Operands
pub mod Results
use text.Mathlib.Text.{◌==◌ as str_eq}
use pefa.Base.{
  ℕ, ◌^◌, ◌<◌, ◌≡◌, ◌⊎◌, refl, inl, inr, Bool, true, false, Option, none, some, Outcome, ok, throw,
  fault, Fault, ◌>>=◌, deref, arith, bad_variant_access, Bool-cases,
}
use pefa.Base.Int.{ℤ, pos, negsuc}
use pefa.Arrow.{Arrow, TypeId, Field}
use pefa.Expressions.{
  Literal, int_lit, double_lit, string_lit, bool_lit, CompareOp, gt, lt, ge, le, eq, neq,
  BooleanExpr, boolean_const, predicate_expr, compare_expr, PredicateOp, and, or, Expr,
  boolean_expr, column_ref, literal_expr, ColumnRef, LiteralExpr,
}
use pefa.Kernel.Ir.{
  Ty, i8, i16, i32, i64, f16, f32, f64, IntPredicate, FloatPredicate, Value, input, const_int,
  const_fp, icmp, fcmp, and_value, or_value, Floats, int_width, from_arrow, create_cmp,
  create_cmp_op, const_from_variant, truncate,
}
use pefa.Kernel.Emit.{
  Visitor, new_visitor, create_op, emit_compare, emit, emit_expr, gen_predicate_func,
}

abbrev pub is_integer : Ty → Bool
is_integer i8 = true
is_integer i16 = true
is_integer i32 = true
is_integer i64 = true
is_integer f16 = false
is_integer f32 = false
is_integer f64 = false

-- The type of a value: that of an element, or i1.
pub data ValueType : Type 0 where
  element : Ty → ValueType
  truth : ValueType

-- The typing rules of the instructions, in a function whose argument is of type `arg`. A comparison of
-- integers takes integers of one type, one of floating point numbers such numbers of one type.
pub data HasType (arg : Ty) : Value → ValueType → Type 0 where
  input_typed : HasType arg (input arg) (element arg)
  int_typed :
      (t : Ty) (n : ℕ)
      → is_integer t ≡ true
      → n < 2 ^ int_width t
      → HasType arg (const_int t n) (element t)
  fp_typed : (t : Ty) (n : ℕ) → is_integer t ≡ false → HasType arg (const_fp t n) (element t)
  icmp_typed :
      (p : IntPredicate) (t : Ty) {a b : Value}
      → is_integer t ≡ true
      → HasType arg a (element t)
      → HasType arg b (element t)
      → HasType arg (icmp p a b) truth
  fcmp_typed :
      (p : FloatPredicate) (t : Ty) {a b : Value}
      → is_integer t ≡ false
      → HasType arg a (element t)
      → HasType arg b (element t)
      → HasType arg (fcmp p a b) truth
  and_typed :
      {a b : Value} → HasType arg a truth → HasType arg b truth → HasType arg (and_value a b) truth
  or_typed :
      {a b : Value} → HasType arg a truth → HasType arg b truth → HasType arg (or_value a b) truth

-- What can come of emitting code: a good value, the exception for a literal of another kind, a null
-- pointer, or the failed assertion on the column's name.
abbrev pub Yields : {A : Type 0} → (A → Type 0) → Outcome A → Type 0
Yields P (ok a) = P a
Yields P (throw e) = e ≡ bad_variant_access
Yields P (fault f) = (f ≡ Fault.null_pointer) ⊎ (f ≡ Fault.assert_failed)

pub Yields-bind :
    {A B : Type 0} (P : A → Type 0) (Q : B → Type 0) (m : Outcome A) (f : A → Outcome B)
    → Yields P m
    → ((a : A) → P a → Yields Q (f a))
    → Yields Q (m >>= f)
Yields-bind P Q (ok a) f h each = each a h
Yields-bind P Q (throw e) f h each = h
Yields-bind P Q (fault e) f h each = h

abbrev pub Emits : Ty → ValueType → Outcome Value → Type 0
Emits arg t = Yields (λ v. HasType arg v t)

-- A type for which a column's type stands, if there is one.
abbrev pub ForType : Outcome Ty → (Ty → Type 0) → Type 0
ForType (ok t) P = P t
ForType (throw e) P = Unit {0}
ForType (fault f) P = Unit {0}

pub ForType-ok : (m : Outcome Ty) (P : Ty → Type 0) (t : Ty) → ForType m P → m ≡ ok t → P t
ForType-ok m P t h e = rw e at h
