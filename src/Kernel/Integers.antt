-- ===== src/Kernel/Integers.antt =====
-- Kernels that compare a column of integers with an integer literal.
use text.Mathlib.Text.{◌==◌ as str_eq}
use pefa.Base.{ℕ, ◌^◌, ◌<◌, ◌≡◌, refl, arith, true, some, ok, inl, inr}
use pefa.Base.Int.{ℤ}
use pefa.Arrow.{TypeId, Arrow, ArrowLaws, Field}
use pefa.Expressions.{
  int_lit, ColumnRef, Literal, LiteralExpr, CompareOp, gt, compare_expr, boolean_expr,
}
use pefa.Expressions.Meaning.{compare_int}
use pefa.Kernel.Ir.{
  Ty, i8, i16, i32, i64, Value, input, const_int, icmp, Floats, truncate, int_width, bit, eval,
  const_from_variant, create_cmp_op, from_arrow,
}
use pefa.Kernel.Literals.{
  IntKind, signed, unsigned, to_int, Fits, predicate_of, IsWidth, IsWidth-Halves, to_int-truncate,
  truncate-lt, eval_int-predicate_of,
}
use pefa.Kernel.Emit.{Visitor, emit_compare, gen_predicate_func}
use pefa.Kernel.Object.{Compiled, create_cpu, compile, run_predicate}

-- The types of integers that Arrow has, with the LLVM type of their elements.
pub data IsIntegral : TypeId → IntKind → Ty → Type 0 where
  int8 : IsIntegral TypeId.int8 signed i8
  int16 : IsIntegral TypeId.int16 signed i16
  int32 : IsIntegral TypeId.int32 signed i32
  int64 : IsIntegral TypeId.int64 signed i64
  uint8 : IsIntegral TypeId.uint8 unsigned i8
  uint16 : IsIntegral TypeId.uint16 unsigned i16
  uint32 : IsIntegral TypeId.uint32 unsigned i32
  uint64 : IsIntegral TypeId.uint64 unsigned i64

pub integral-IsWidth :
    {type : TypeId} {k : IntKind} {ty : Ty} → IsIntegral type k ty → IsWidth (int_width ty)
unfolding int_width
integral-IsWidth int8 = inl refl
integral-IsWidth int16 = inr (inl refl)
integral-IsWidth int32 = inr (inr (inl refl))
integral-IsWidth int64 = inr (inr (inr refl))
integral-IsWidth uint8 = inl refl
integral-IsWidth uint16 = inr (inl refl)
integral-IsWidth uint32 = inr (inr (inl refl))
integral-IsWidth uint64 = inr (inr (inr refl))

-- What `compile` leaves for a comparison with an integer.
abbrev pub compare_code : IntKind → Ty → CompareOp → ℤ → Compiled
compare_code k ty op v = record {
  predicate = icmp (predicate_of k op) (input ty) (const_int ty (truncate (int_width ty) v));
  element = ty;
}

module _ (arrow : Arrow) (floats : Floats) where
  pub integral-bit_width :
      ArrowLaws arrow
      → {type : TypeId} {k : IntKind} {ty : Ty} → IsIntegral type k ty
      → arrow.bit_width type ≡ some (int_width ty)
  unfolding int_width
  integral-bit_width laws int8 = laws.width8.0
  integral-bit_width laws int16 = laws.width16.0
  integral-bit_width laws int32 = laws.width32.0
  integral-bit_width laws int64 = laws.width64.0
  integral-bit_width laws uint8 = laws.width8.1
  integral-bit_width laws uint16 = laws.width16.1
  integral-bit_width laws uint32 = laws.width32.1
  integral-bit_width laws uint64 = laws.width64.1

  pub integral-from_arrow :
      {type : TypeId} {k : IntKind} {ty : Ty} → IsIntegral type k ty → from_arrow arrow type ≡ ok ty
  unfolding from_arrow
  integral-from_arrow int8 = refl
  integral-from_arrow int16 = refl
  integral-from_arrow int32 = refl
  integral-from_arrow int64 = refl
  integral-from_arrow uint8 = refl
  integral-from_arrow uint16 = refl
  integral-from_arrow uint32 = refl
  integral-from_arrow uint64 = refl

  integral-const :
      {type : TypeId} {k : IntKind} {ty : Ty}
      → IsIntegral type k ty
      → (v : ℤ)
      → const_from_variant floats type (int_lit v) ≡ ok (const_int ty (truncate (int_width ty) v))
  unfolding const_from_variant int_width
  integral-const int8 v = refl
  integral-const int16 v = refl
  integral-const int32 v = refl
  integral-const int64 v = refl
  integral-const uint8 v = refl
  integral-const uint16 v = refl
  integral-const uint32 v = refl
  integral-const uint64 v = refl

  integral-cmp :
      {type : TypeId} {k : IntKind} {ty : Ty}
      → IsIntegral type k ty
      → (op : CompareOp) (a b : Value)
      → create_cmp_op arrow op type a b ≡ ok (icmp (predicate_of k op) a b)
  unfolding create_cmp_op predicate_of
  integral-cmp int8 gt a b = refl
  integral-cmp int8 _ a b = refl
  integral-cmp int16 gt a b = refl
  integral-cmp int16 _ a b = refl
  integral-cmp int32 gt a b = refl
  integral-cmp int32 _ a b = refl
  integral-cmp int64 gt a b = refl
  integral-cmp int64 _ a b = refl
  integral-cmp uint8 gt a b = refl
  integral-cmp uint8 _ a b = refl
  integral-cmp uint16 gt a b = refl
  integral-cmp uint16 _ a b = refl
  integral-cmp uint32 gt a b = refl
  integral-cmp uint32 _ a b = refl
  integral-cmp uint64 gt a b = refl
  integral-cmp uint64 _ a b = refl

  -- What the visitor emits for a comparison.
  pub emit_compare-integral :
      (field : Field) (c : ColumnRef) (l : Literal) (op : CompareOp) (v : ℤ) (w : Visitor)
      {k : IntKind} {ty : Ty}
      → IsIntegral field.type k ty
      → str_eq c.name field.name ≡ true
      → l ≡ int_lit v
      → emit_compare arrow floats field (input ty) c (record { value = l }) op w
        ≡ ok (record w {
          result =
              some (icmp (predicate_of k op) (input ty) (const_int ty (truncate (int_width ty) v)));
        })
  unfolding emit_compare
  emit_compare-integral field c l op v w {ty = ty} integral same literal = rw (
    same,
    literal,
    integral-const integral v,
    integral-cmp integral op (input ty) (const_int ty (truncate (int_width ty) v)),
  )

  -- The emitted comparison of a pattern with a literal that its type has.
  pub eval-compare :
      {type : TypeId} {k : IntKind} {ty : Ty} (op : CompareOp) (v : ℤ) (x : ℕ)
      → IsIntegral type k ty
      → Fits k (int_width ty) v
      → x < 2 ^ int_width ty
      → eval floats
          (icmp (predicate_of k op) (input ty) (const_int ty (truncate (int_width ty) v)))
          x
        ≡ bit (compare_int op (to_int k (int_width ty) x) v)
  unfolding eval
  eval-compare {k} {ty} op v x integral fits small =
      let (half, h) = IsWidth-Halves (int_width ty) (integral-IsWidth integral) in
      let compares =
        eval_int-predicate_of (int_width ty) half h k op x (truncate (int_width ty) v)
          (rw h.power at small) (truncate-lt (int_width ty) half h v) in
      rw (compares, to_int-truncate (int_width ty) half h k v fits) refl

  -- A comparison of a column of integers with an integer compiles.
  pub compile-compare :
      (field : Field) (lhs : ColumnRef) (rhs : LiteralExpr) (op : CompareOp) (v : ℤ) {k : IntKind}
      {ty : Ty}
      → IsIntegral field.type k ty
      → str_eq lhs.name field.name ≡ true
      → rhs.value ≡ int_lit v
      → compile arrow floats (create_cpu field (boolean_expr (compare_expr lhs rhs op)))
        ≡ ok (record {
          field = field;
          expr = boolean_expr (compare_expr lhs rhs op);
          code = some (compare_code k ty op v);
        })
  unfolding compile gen_predicate_func emit_compare create_cpu
  compile-compare field lhs rhs op v {ty = ty} integral same literal = rw (
    integral-from_arrow integral,
    same,
    literal,
    integral-const integral v,
    integral-cmp integral op (input ty) (const_int ty (truncate (int_width ty) v)),
  )

  -- The emitted predicate compares the integers that the patterns stand for.
  pub run_predicate-compare :
      {type : TypeId} {k : IntKind} {ty : Ty} (op : CompareOp) (v : ℤ) (x : ℕ)
      → IsIntegral type k ty
      → Fits k (int_width ty) v
      → x < 2 ^ int_width ty
      → run_predicate arrow floats (compare_code k ty op v) x
        ≡ compare_int op (to_int k (int_width ty) x) v
  unfolding run_predicate bit
  run_predicate-compare {k} {ty} op v x integral fits small =
      rw (eval-compare op v x integral fits small) (ground arith)
