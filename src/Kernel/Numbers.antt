-- ===== src/Kernel/Numbers.antt =====
-- Comparisons of a column of numbers, integers or floating point, with a literal.
use text.Mathlib.Text.{◌==◌ as str_eq}
use mathlib.Core.Path.{subst}
use pefa.Base.{ℕ, ◌^◌, ◌<◌, ◌≡◌, refl, arith, true, false, Bool, Option, none, some, ok}
use pefa.Arrow.{TypeId, Arrow, ArrowLaws, Field}
use pefa.Expressions.{
  Literal, int_lit, double_lit, string_lit, bool_lit, ColumnRef, LiteralExpr, CompareOp, gt, lt, ge,
  le, eq, neq, compare_expr, boolean_expr,
}
use pefa.Expressions.Meaning.{compare_int}
use pefa.Kernel.Ir.{
  Ty, i8, i16, i32, i64, f16, f32, f64, Value, input, const_fp, fcmp, Floats, FloatPredicate, ogt,
  olt, oge, ole, oeq, one, int_width, bit, const_from_variant, create_cmp_op, from_arrow,
}
use pefa.Kernel.Literals.{IntKind, signed, unsigned, to_int, Fits}
use pefa.Kernel.Emit.{emit_compare, gen_predicate_func}
use pefa.Kernel.Object.{Compiled, create_cpu, compile, run_predicate}
use pefa.Kernel.Integers.{
  IsIntegral, int8, int16, int32, int64, uint8, uint16, uint32, uint64, integral-bit_width,
  compare_code, compile-compare, run_predicate-compare,
}

-- The types of floating point numbers that Arrow has, with the LLVM type of their elements.
pub data IsFloating : TypeId → Ty → Type 0 where
  half : IsFloating TypeId.half_float f16
  single : IsFloating TypeId.float f32
  double : IsFloating TypeId.double f64

pub data Number : Type 0 where
  integer : IntKind → Ty → Number
  floating : Ty → Number

-- The numbers of a type, if it is one of numbers.
abbrev pub number_of : TypeId → Option Number
number_of TypeId.int8 = some (integer signed i8)
number_of TypeId.int16 = some (integer signed i16)
number_of TypeId.int32 = some (integer signed i32)
number_of TypeId.int64 = some (integer signed i64)
number_of TypeId.uint8 = some (integer unsigned i8)
number_of TypeId.uint16 = some (integer unsigned i16)
number_of TypeId.uint32 = some (integer unsigned i32)
number_of TypeId.uint64 = some (integer unsigned i64)
number_of TypeId.half_float = some (floating f16)
number_of TypeId.float = some (floating f32)
number_of TypeId.double = some (floating f64)
number_of _ = none

pub data IsNumber : TypeId → Number → Type 0 where
  is_integer :
      {type : TypeId} {k : IntKind} {ty : Ty} → IsIntegral type k ty → IsNumber type (integer k ty)
  is_floating : {type : TypeId} {ty : Ty} → IsFloating type ty → IsNumber type (floating ty)

pub number_of-IsNumber : (type : TypeId) (n : Number) → number_of type ≡ some n → IsNumber type n
number_of-IsNumber TypeId.int8 n h = subst (IsNumber TypeId.int8) (cc) (is_integer int8)
number_of-IsNumber TypeId.int16 n h = subst (IsNumber TypeId.int16) (cc) (is_integer int16)
number_of-IsNumber TypeId.int32 n h = subst (IsNumber TypeId.int32) (cc) (is_integer int32)
number_of-IsNumber TypeId.int64 n h = subst (IsNumber TypeId.int64) (cc) (is_integer int64)
number_of-IsNumber TypeId.uint8 n h = subst (IsNumber TypeId.uint8) (cc) (is_integer uint8)
number_of-IsNumber TypeId.uint16 n h = subst (IsNumber TypeId.uint16) (cc) (is_integer uint16)
number_of-IsNumber TypeId.uint32 n h = subst (IsNumber TypeId.uint32) (cc) (is_integer uint32)
number_of-IsNumber TypeId.uint64 n h = subst (IsNumber TypeId.uint64) (cc) (is_integer uint64)
number_of-IsNumber TypeId.half_float n h =
    subst (IsNumber TypeId.half_float) (cc) (is_floating half)
number_of-IsNumber TypeId.float n h = subst (IsNumber TypeId.float) (cc) (is_floating single)
number_of-IsNumber TypeId.double n h = subst (IsNumber TypeId.double) (cc) (is_floating double)
number_of-IsNumber _ n h = cc

abbrev pub element_of : Number → Ty
element_of (integer k ty) = ty
element_of (floating ty) = ty

abbrev pub float_predicate : CompareOp → FloatPredicate
float_predicate gt = ogt
float_predicate lt = olt
float_predicate ge = oge
float_predicate le = ole
float_predicate eq = oeq
float_predicate neq = one

-- A literal that numbers of a type can be compared with.
abbrev pub Admits : Option Number → Literal → Type 0
Admits (some (integer k ty)) (int_lit v) = Fits k (int_width ty) v
Admits (some (floating ty)) (int_lit v) = Unit {0}
Admits (some (floating ty)) (double_lit d) = Unit {0}
Admits _ l = ⊥

module _ (floats : Floats) where
  -- What a comparison of a pattern with a literal means: integers are compared as integers, floating
  -- point numbers with the literal as a number of their type.
  abbrev pub compare_number : Option Number → CompareOp → ℕ → Literal → Bool
  compare_number (some (integer k ty)) op x (int_lit v) =
      compare_int op (to_int k (int_width ty) x) v
  compare_number (some (floating ty)) op x (int_lit v) =
      floats.ordered (float_predicate op) ty x (floats.round ty (floats.of_int v))
  compare_number (some (floating ty)) op x (double_lit d) =
      floats.ordered (float_predicate op) ty x (floats.round ty d)
  compare_number _ op x l = false

-- What `compile` leaves for a comparison with floating point numbers.
abbrev pub floating_code : Floats → Ty → CompareOp → ℕ → Compiled
floating_code floats ty op d = record {
  predicate = fcmp (float_predicate op) (input ty) (const_fp ty (floats.round ty d));
  element = ty;
}

module _ (arrow : Arrow) (floats : Floats) where
  floating-bit_width :
      ArrowLaws arrow
      → {type : TypeId} {ty : Ty} → IsFloating type ty
      → arrow.bit_width type ≡ some (int_width ty)
  unfolding int_width
  floating-bit_width laws half = laws.width_half
  floating-bit_width laws single = laws.width_float
  floating-bit_width laws double = laws.width_double

  pub number-bit_width :
      ArrowLaws arrow
      → {type : TypeId} {n : Number} → IsNumber type n
      → arrow.bit_width type ≡ some (int_width (element_of n))
  number-bit_width laws (is_integer i) = integral-bit_width arrow floats laws i
  number-bit_width laws (is_floating f) = floating-bit_width laws f

  floating-from_arrow :
      {type : TypeId} {ty : Ty} → IsFloating type ty → from_arrow arrow type ≡ ok ty
  unfolding from_arrow
  floating-from_arrow half = refl
  floating-from_arrow single = refl
  floating-from_arrow double = refl

  -- The double that a literal is compared as.
  abbrev double_of : Literal → ℕ
  double_of (int_lit v) = floats.of_int v
  double_of (double_lit d) = d
  double_of l = 0

  abbrev IsNumeric : Literal → Type 0
  IsNumeric (int_lit v) = Unit {0}
  IsNumeric (double_lit d) = Unit {0}
  IsNumeric _ = ⊥

  floating-const :
      {type : TypeId} {ty : Ty}
      → IsFloating type ty
      → (l : Literal) → IsNumeric l
      → const_from_variant floats type l ≡ ok (const_fp ty (floats.round ty (double_of l)))
  unfolding const_from_variant
  floating-const half (int_lit v) h = refl
  floating-const half (double_lit d) h = refl
  floating-const half (string_lit s) h = absurd h
  floating-const half (bool_lit b) h = absurd h
  floating-const single (int_lit v) h = refl
  floating-const single (double_lit d) h = refl
  floating-const single (string_lit s) h = absurd h
  floating-const single (bool_lit b) h = absurd h
  floating-const double (int_lit v) h = refl
  floating-const double (double_lit d) h = refl
  floating-const double (string_lit s) h = absurd h
  floating-const double (bool_lit b) h = absurd h

  floating-cmp :
      {type : TypeId} {ty : Ty}
      → IsFloating type ty
      → (op : CompareOp) (a b : Value)
      → create_cmp_op arrow op type a b ≡ ok (fcmp (float_predicate op) a b)
  unfolding create_cmp_op
  floating-cmp half gt a b = refl
  floating-cmp half _ a b = refl
  floating-cmp single gt a b = refl
  floating-cmp single _ a b = refl
  floating-cmp double gt a b = refl
  floating-cmp double _ a b = refl

  compile-floating :
      (field : Field) (lhs : ColumnRef) (rhs : LiteralExpr) (op : CompareOp) {ty : Ty}
      → IsFloating field.type ty
      → str_eq lhs.name field.name ≡ true
      → IsNumeric rhs.value
      → compile arrow floats (create_cpu field (boolean_expr (compare_expr lhs rhs op)))
        ≡ ok (record {
          field = field;
          expr = boolean_expr (compare_expr lhs rhs op);
          code = some (floating_code floats ty op (double_of rhs.value));
        })
  unfolding compile gen_predicate_func emit_compare create_cpu
  compile-floating field lhs rhs op {ty = ty} f same numeric = rw (
    floating-from_arrow f,
    same,
    floating-const f rhs.value numeric,
    floating-cmp f op (input ty) (const_fp ty (floats.round ty (double_of rhs.value))),
  )

  run_predicate-floating :
      (ty : Ty) (op : CompareOp) (d x : ℕ)
      → run_predicate arrow floats (floating_code floats ty op d) x
        ≡ floats.ordered (float_predicate op) ty x (floats.round ty d)
  unfolding run_predicate bit
  run_predicate-floating ty op d x = ground arith

  -- A comparison of a field's column with a literal has been compiled to code with its meaning.
  pub record NumberCode (field : Field) (lhs : ColumnRef) (rhs : LiteralExpr) (op : CompareOp)
      (n : Number) : Type 0 where
    pub code : Compiled
    pub compiles :
        compile arrow floats (create_cpu field (boolean_expr (compare_expr lhs rhs op)))
        ≡ ok (record {
          field = field;
          expr = boolean_expr (compare_expr lhs rhs op);
          code = some code;
        })
    pub element : code.element ≡ element_of n
    pub compares :
        (x : ℕ)
        → x < 2 ^ int_width (element_of n)
        → run_predicate arrow floats code x ≡ compare_number floats (some n) op x rhs.value

  compile-literal :
      (field : Field) (lhs : ColumnRef) (l : Literal) (op : CompareOp) (n : Number)
      → IsNumber field.type n
      → str_eq lhs.name field.name ≡ true
      → Admits (some n) l
      → NumberCode field lhs (record { value = l }) op n
  compile-literal field lhs (int_lit v) op (integer k ty) (is_integer i) same fits = record {
    code = compare_code k ty op v;
    compiles =
        compile-compare arrow floats field lhs (record { value = int_lit v }) op v i same refl;
    element = refl;
    compares = λ x small. run_predicate-compare arrow floats op v x i fits small;
  }
  compile-literal field lhs (int_lit v) op (floating ty) (is_floating f) same fits = record {
    code = floating_code floats ty op (floats.of_int v);
    compiles = compile-floating field lhs (record { value = int_lit v }) op f same tt;
    element = refl;
    compares = λ x small. run_predicate-floating ty op (floats.of_int v) x;
  }
  compile-literal field lhs (double_lit d) op (floating ty) (is_floating f) same fits = record {
    code = floating_code floats ty op d;
    compiles = compile-floating field lhs (record { value = double_lit d }) op f same tt;
    element = refl;
    compares = λ x small. run_predicate-floating ty op d x;
  }
  compile-literal field lhs (double_lit d) op (integer k ty) number same fits = absurd fits
  compile-literal field lhs (string_lit s) op (integer k ty) number same fits = absurd fits
  compile-literal field lhs (string_lit s) op (floating ty) number same fits = absurd fits
  compile-literal field lhs (bool_lit b) op (integer k ty) number same fits = absurd fits
  compile-literal field lhs (bool_lit b) op (floating ty) number same fits = absurd fits

  -- For a field of numbers, and a literal that its numbers can be compared with, a comparison of the
  -- field's column compiles, and the emitted predicate is what the comparison means for the number:
  -- the order of the integers, or the ordered comparison with the literal as a number of the type.
  pub compile-NumberCode :
      (field : Field) (lhs : ColumnRef) (rhs : LiteralExpr) (op : CompareOp) (n : Number)
      → IsNumber field.type n
      → str_eq lhs.name field.name ≡ true
      → Admits (some n) rhs.value
      → NumberCode field lhs rhs op n
  compile-NumberCode field lhs rhs op n number same fits =
      compile-literal field lhs rhs.value op n number same fits
