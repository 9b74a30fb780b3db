-- ===== src/Kernel/Typed/Operands.antt =====
-- The types of constants and comparisons, pefa/utils/llvm_helpers.h.
use pefa.Base.{ℕ, ◌^◌, ◌<◌, refl, arith}
use pefa.Base.Int.{ℤ, pos, negsuc}
use pefa.Arrow.{Arrow, TypeId}
use pefa.Expressions.{Literal, int_lit, double_lit, CompareOp, gt, lt, ge, le, eq, neq}
use pefa.Kernel.Ir.{
  i8, i16, i32, i64, f16, f32, f64, IntPredicate, FloatPredicate, Value, input, Floats, int_width,
  from_arrow, create_cmp, create_cmp_op, const_from_variant, truncate,
}
use pefa.Kernel.Typed.{
  element, truth, HasType, input_typed, int_typed, fp_typed, icmp_typed, fcmp_typed, Emits, ForType,
}

truncate-lt : (w : ℕ) (v : ℤ) → 0 < 2 ^ w → truncate w v < 2 ^ w
unfolding truncate
truncate-lt w (pos n) h = grind arith
truncate-lt w (negsuc n) h = omega arith

module _ (arrow : Arrow) where
  -- A literal becomes a constant of the column's type.
  pub const-Emits :
      (floats : Floats) (type : TypeId) (l : Literal)
      → ForType
          (from_arrow arrow type)
          (λ t. Emits t (element t) (const_from_variant floats type l))
  unfolding from_arrow const_from_variant int_width
  const-Emits floats TypeId.int8 (int_lit v) = int_typed i8 _ refl (truncate-lt 8 v (omega arith))
  const-Emits floats TypeId.int8 _ = refl
  const-Emits floats TypeId.int16 (int_lit v) =
      int_typed i16 _ refl (truncate-lt 16 v (omega arith))
  const-Emits floats TypeId.int16 _ = refl
  const-Emits floats TypeId.int32 (int_lit v) =
      int_typed i32 _ refl (truncate-lt 32 v (omega arith))
  const-Emits floats TypeId.int32 _ = refl
  const-Emits floats TypeId.int64 (int_lit v) =
      int_typed i64 _ refl (truncate-lt 64 v (omega arith))
  const-Emits floats TypeId.int64 _ = refl
  const-Emits floats TypeId.uint8 (int_lit v) = int_typed i8 _ refl (truncate-lt 8 v (omega arith))
  const-Emits floats TypeId.uint8 _ = refl
  const-Emits floats TypeId.uint16 (int_lit v) =
      int_typed i16 _ refl (truncate-lt 16 v (omega arith))
  const-Emits floats TypeId.uint16 _ = refl
  const-Emits floats TypeId.uint32 (int_lit v) =
      int_typed i32 _ refl (truncate-lt 32 v (omega arith))
  const-Emits floats TypeId.uint32 _ = refl
  const-Emits floats TypeId.uint64 (int_lit v) =
      int_typed i64 _ refl (truncate-lt 64 v (omega arith))
  const-Emits floats TypeId.uint64 _ = refl
  const-Emits floats TypeId.half_float (int_lit v) = fp_typed f16 _ refl
  const-Emits floats TypeId.half_float (double_lit v) = fp_typed f16 _ refl
  const-Emits floats TypeId.half_float _ = refl
  const-Emits floats TypeId.float (int_lit v) = fp_typed f32 _ refl
  const-Emits floats TypeId.float (double_lit v) = fp_typed f32 _ refl
  const-Emits floats TypeId.float _ = refl
  const-Emits floats TypeId.double (int_lit v) = fp_typed f64 _ refl
  const-Emits floats TypeId.double (double_lit v) = fp_typed f64 _ refl
  const-Emits floats TypeId.double _ = refl
  const-Emits floats _ l = tt

  -- The comparison with it is of the class of the column's type.
  create_cmp-Emits :
      (s u : IntPredicate) (f : FloatPredicate) (type : TypeId)
      → ForType (from_arrow arrow type) (λ t.
        (c : Value)
        → HasType t c (element t)
        → Emits t truth (create_cmp arrow s u f type (input t) c))
  unfolding from_arrow create_cmp
  create_cmp-Emits s u f TypeId.int8 = λ c typed. icmp_typed s i8 refl input_typed typed
  create_cmp-Emits s u f TypeId.int16 = λ c typed. icmp_typed s i16 refl input_typed typed
  create_cmp-Emits s u f TypeId.int32 = λ c typed. icmp_typed s i32 refl input_typed typed
  create_cmp-Emits s u f TypeId.int64 = λ c typed. icmp_typed s i64 refl input_typed typed
  create_cmp-Emits s u f TypeId.uint8 = λ c typed. icmp_typed u i8 refl input_typed typed
  create_cmp-Emits s u f TypeId.uint16 = λ c typed. icmp_typed u i16 refl input_typed typed
  create_cmp-Emits s u f TypeId.uint32 = λ c typed. icmp_typed u i32 refl input_typed typed
  create_cmp-Emits s u f TypeId.uint64 = λ c typed. icmp_typed u i64 refl input_typed typed
  create_cmp-Emits s u f TypeId.half_float = λ c typed. fcmp_typed f f16 refl input_typed typed
  create_cmp-Emits s u f TypeId.float = λ c typed. fcmp_typed f f32 refl input_typed typed
  create_cmp-Emits s u f TypeId.double = λ c typed. fcmp_typed f f64 refl input_typed typed
  create_cmp-Emits s u f _ = tt

  pub create_cmp_op-Emits :
      (op : CompareOp) (type : TypeId)
      → ForType (from_arrow arrow type) (λ t.
        (c : Value)
        → HasType t c (element t)
        → Emits t truth (create_cmp_op arrow op type (input t) c))
  unfolding create_cmp_op
  create_cmp_op-Emits gt type = create_cmp-Emits _ _ _ type
  create_cmp_op-Emits lt type = create_cmp-Emits _ _ _ type
  create_cmp_op-Emits ge type = create_cmp-Emits _ _ _ type
  create_cmp_op-Emits le type = create_cmp-Emits _ _ _ type
  create_cmp_op-Emits eq type = create_cmp-Emits _ _ _ type
  create_cmp_op-Emits neq type = create_cmp-Emits _ _ _ type
