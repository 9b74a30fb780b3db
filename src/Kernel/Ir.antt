-- ===== src/Kernel/Ir.antt =====
-- pefa/utils/llvm_helpers.h and the case labels of pefa/utils/utils.h: the types, constants and
-- comparisons of LLVM that a column's type leads to. LLVM's values are the terms that the builder
-- is asked for; `eval` gives them the meaning that the language reference of LLVM documents.
use Prim.Native.Nat.{bit_and, bit_or}
use Prim.Native.String.{◌++◌}
use pefa.Base.{
  ℕ, ◌+◌, ◌-◌, ◌%◌, ◌^◌, ltb, leb, ◌==◌, not, Bool, true, false, Outcome, ok, throw, ◌>>=◌,
  not_implemented, unreachable, bad_variant_access,
}
use pefa.Base.Int.{ℤ, pos, negsuc}
use pefa.Arrow.{TypeId, Arrow}
use pefa.Expressions.{Literal, int_lit, double_lit, CompareOp, gt, lt, ge, le, eq, neq}

pub data Ty : Type 0 where
  i8 i16 i32 i64 f16 f32 f64 : Ty

pub data IntPredicate : Type 0 where
  sgt slt sge sle ugt ult uge ule ieq ine : IntPredicate

pub data FloatPredicate : Type 0 where
  ogt olt oge ole oeq one : FloatPredicate

-- `input` is the argument of the predicate function.
pub data Value : Type 0 where
  input : Ty → Value
  const_int : Ty → ℕ → Value
  const_fp : Ty → ℕ → Value
  icmp : IntPredicate → Value → Value → Value
  fcmp : FloatPredicate → Value → Value → Value
  and_value or_value : Value → Value → Value

-- The arithmetic of floating point numbers, as bit patterns: the conversion of an `int` to a
-- double, the rounding of a double to a type, and the ordered comparisons.
pub record Floats : Type 0 where
  pub of_int : ℤ → ℕ
  pub round : Ty → ℕ → ℕ
  pub ordered : FloatPredicate → Ty → ℕ → ℕ → Bool

unfoldable pub int_width : Ty → ℕ
int_width i8 = 8
int_width i16 = 16
int_width i32 = 32
int_width i64 = 64
int_width f16 = 16
int_width f32 = 32
int_width f64 = 64

-- The classes of types that the case labels name.
pub data TypeClass : Type 0 where
  signed_integral unsigned_integral floating other : TypeClass

unfoldable type_class : TypeId → TypeClass
type_class TypeId.int8 = signed_integral
type_class TypeId.int16 = signed_integral
type_class TypeId.int32 = signed_integral
type_class TypeId.int64 = signed_integral
type_class TypeId.uint8 = unsigned_integral
type_class TypeId.uint16 = unsigned_integral
type_class TypeId.uint32 = unsigned_integral
type_class TypeId.uint64 = unsigned_integral
type_class TypeId.half_float = floating
type_class TypeId.float = floating
type_class TypeId.double = floating
type_class _ = other

module _ (arrow : Arrow) where
  unfoldable pub from_arrow : TypeId → Outcome Ty
  from_arrow TypeId.int8 = ok i8
  from_arrow TypeId.uint8 = ok i8
  from_arrow TypeId.int16 = ok i16
  from_arrow TypeId.uint16 = ok i16
  from_arrow TypeId.int32 = ok i32
  from_arrow TypeId.uint32 = ok i32
  from_arrow TypeId.int64 = ok i64
  from_arrow TypeId.uint64 = ok i64
  from_arrow TypeId.half_float = ok f16
  from_arrow TypeId.float = ok f32
  from_arrow TypeId.double = ok f64
  from_arrow type =
      throw (not_implemented ("arrow " ++ (arrow.to_string type ++ " does not supported yet")))

  -- `__PEFA_CREATE_CMP_FUNC(name, icmp, ucmp, fcmp)`
  unfoldable pub create_cmp :
      IntPredicate → IntPredicate → FloatPredicate → TypeId → Value → Value → Outcome Value
  unfolding type_class
  create_cmp s u f type lhs rhs = elim (type_class type) [
    | signed_integral ↦ ok (icmp s lhs rhs)
    | unsigned_integral ↦ ok (icmp u lhs rhs)
    | floating ↦ ok (fcmp f lhs rhs)
    | other ↦ throw (
        not_implemented
          ("Comparing elements of type" ++ (arrow.to_string type ++ " is not supported yet")))
  ]

  -- `create_cmp_gt` to `create_cmp_ne`
  unfoldable pub create_cmp_op : CompareOp → TypeId → Value → Value → Outcome Value
  unfolding create_cmp
  create_cmp_op gt = create_cmp sgt ugt ogt
  create_cmp_op lt = create_cmp slt ult olt
  create_cmp_op ge = create_cmp sge uge oge
  create_cmp_op le = create_cmp sle ule ole
  create_cmp_op eq = create_cmp ieq ieq oeq
  create_cmp_op neq = create_cmp ine ine one

-- The low `w` bits of an `int`, in two's complement.
unfoldable pub truncate : ℕ → ℤ → ℕ
truncate w (pos n) = n % 2 ^ w
truncate w (negsuc n) = 2 ^ w - 1 - n % 2 ^ w

-- `arrow_typed_const(type, int)`: `i8val` to `u64val`, which all keep the low bits.
unfoldable typed_int_const : TypeId → ℤ → Outcome Value
unfolding truncate
typed_int_const TypeId.int8 val = ok (const_int i8 (truncate 8 val))
typed_int_const TypeId.int16 val = ok (const_int i16 (truncate 16 val))
typed_int_const TypeId.int32 val = ok (const_int i32 (truncate 32 val))
typed_int_const TypeId.int64 val = ok (const_int i64 (truncate 64 val))
typed_int_const TypeId.uint8 val = ok (const_int i8 (truncate 8 val))
typed_int_const TypeId.uint16 val = ok (const_int i16 (truncate 16 val))
typed_int_const TypeId.uint32 val = ok (const_int i32 (truncate 32 val))
typed_int_const TypeId.uint64 val = ok (const_int i64 (truncate 64 val))
typed_int_const _ val = throw unreachable

-- `std::get<int>`
unfoldable get_int : Literal → Outcome ℤ
get_int (int_lit v) = ok v
get_int _ = throw bad_variant_access

unfoldable type_of : Value → Ty
type_of (input t) = t
type_of (const_int t n) = t
type_of (const_fp t n) = t
type_of _ = i8

-- A signed comparison of `w`-bit patterns compares them with the highest bit flipped.
unfoldable pub flip_sign : ℕ → ℕ → ℕ
flip_sign w a = (a + 2 ^ (w - 1)) % 2 ^ w

unfoldable pub eval_int : IntPredicate → ℕ → ℕ → ℕ → Bool
unfolding flip_sign
eval_int sgt w a b = ltb (flip_sign w b) (flip_sign w a)
eval_int slt w a b = ltb (flip_sign w a) (flip_sign w b)
eval_int sge w a b = leb (flip_sign w b) (flip_sign w a)
eval_int sle w a b = leb (flip_sign w a) (flip_sign w b)
eval_int ugt w a b = ltb b a
eval_int ult w a b = ltb a b
eval_int uge w a b = leb b a
eval_int ule w a b = leb a b
eval_int ieq w a b = a == b
eval_int ine w a b = not (a == b)

unfoldable pub bit : Bool → ℕ
bit true = 1
bit false = 0

module _ (floats : Floats) where
  unfoldable pub f16val : ℕ → Value
  f16val val = const_fp f16 (floats.round f16 val)

  unfoldable pub f32val : ℕ → Value
  f32val val = const_fp f32 (floats.round f32 val)

  unfoldable pub f64val : ℕ → Value
  f64val val = const_fp f64 (floats.round f64 val)

  -- `arrow_typed_const(type, double)`
  unfoldable pub typed_double_const : TypeId → ℕ → Outcome Value
  unfolding f16val f32val f64val
  typed_double_const TypeId.half_float val = ok (f16val val)
  typed_double_const TypeId.float val = ok (f32val val)
  typed_double_const TypeId.double val = ok (f64val val)
  typed_double_const TypeId.decimal val =
      throw (not_implemented "Decimal support is not implemented yet")
  typed_double_const _ val = throw unreachable

  -- The double of a literal, or its integer as a double.
  unfoldable pub get_double : Literal → Outcome ℕ
  get_double (double_lit v) = ok v
  get_double (int_lit v) = ok (floats.of_int v)
  get_double _ = throw bad_variant_access

  unfoldable pub const_from_variant : TypeId → Literal → Outcome Value
  unfolding type_class typed_int_const typed_double_const get_int get_double
  const_from_variant TypeId.decimal val = get_double val >>= typed_double_const TypeId.decimal
  const_from_variant type val = elim (type_class type) [
    | signed_integral ↦ get_int val >>= typed_int_const type
    | unsigned_integral ↦ get_int val >>= typed_int_const type
    | floating ↦ get_double val >>= typed_double_const type
    | other ↦ throw unreachable
  ]

  -- The value of a term at an argument; an i1 is 0 or 1.
  unfoldable pub eval : Value → ℕ → ℕ
  unfolding type_of eval_int int_width bit
  eval (input t) x = x
  eval (const_int t n) x = n
  eval (const_fp t n) x = n
  eval (icmp p a b) x = bit (eval_int p (int_width (type_of a)) (eval a x) (eval b x))
  eval (fcmp p a b) x = bit (floats.ordered p (type_of a) (eval a x) (eval b x))
  eval (and_value a b) x = bit_and (eval a x) (eval b x)
  eval (or_value a b) x = bit_or (eval a x) (eval b x)
