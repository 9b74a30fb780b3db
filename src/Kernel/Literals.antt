-- ===== src/Kernel/Literals.antt =====
-- Comparisons of a column of integers with an integer literal: what the emitted code compares.
use pefa.Base.{ℕ, ◌+◌, ◌-◌, ◌%◌, ◌^◌, ◌<◌, ◌≡◌, ◌⊎◌, refl, arith, ltb, if◌then◌else◌, inl, inr}
use pefa.Base.Int.{ℤ, pos, negsuc}
use pefa.Expressions.{CompareOp, gt, lt, ge, le, eq, neq}
use pefa.Expressions.Meaning.{compare_int}
use pefa.Kernel.Ir.{
  IntPredicate, sgt, slt, sge, sle, ugt, ult, uge, ule, ieq, ine, truncate, flip_sign, eval_int,
}

-- A type of integers: signed or not, of a width.
pub data IntKind : Type 0 where
  signed unsigned : IntKind

-- The integer that a `w`-bit pattern stands for.
unfoldable pub to_int : IntKind → ℕ → ℕ → ℤ
to_int unsigned w bits = pos bits
to_int signed w bits = if ltb bits (2 ^ (w - 1)) then pos bits else negsuc (2 ^ w - 1 - bits)

-- The integers that such a type has.
abbrev pub Fits : IntKind → ℕ → ℤ → Type 0
Fits unsigned w (pos n) = n < 2 ^ w
Fits unsigned w (negsuc n) = ⊥
Fits signed w (pos n) = n < 2 ^ (w - 1)
Fits signed w (negsuc n) = n < 2 ^ (w - 1)

-- The comparison that a type's code makes.
unfoldable pub predicate_of : IntKind → CompareOp → IntPredicate
predicate_of signed gt = sgt
predicate_of signed lt = slt
predicate_of signed ge = sge
predicate_of signed le = sle
predicate_of signed eq = ieq
predicate_of signed neq = ine
predicate_of unsigned gt = ugt
predicate_of unsigned lt = ult
predicate_of unsigned ge = uge
predicate_of unsigned le = ule
predicate_of unsigned eq = ieq
predicate_of unsigned neq = ine

-- The widths of the integer types.
abbrev pub IsWidth : ℕ → Type 0
IsWidth w = (w ≡ 8) ⊎ ((w ≡ 16) ⊎ ((w ≡ 32) ⊎ (w ≡ 64)))

-- What is needed of a width: half of its patterns are negative, and the signed order is the
-- order of the flipped patterns.
pub record Halves (w half : ℕ) : Type 0 where
  pub positive : 0 < half
  pub power : 2 ^ w ≡ half + half
  pub half_power : 2 ^ (w - 1) ≡ half
  pub flipped :
      (a : ℕ) → a < half + half → flip_sign w a ≡ (if ltb a half then a + half else a - half)
  pub truncated : (n : ℕ) → n < half + half → n % 2 ^ w ≡ n

width8 : Halves 8 (2 ^ 7)
unfolding flip_sign
width8 = record {
  positive = omega arith;
  power = refl;
  half_power = refl;
  flipped = λ a h. ground arith;
  truncated = λ n h. omega arith;
}

width16 : Halves 16 (2 ^ 15)
unfolding flip_sign
width16 = record {
  positive = omega arith;
  power = refl;
  half_power = refl;
  flipped = λ a h. ground arith;
  truncated = λ n h. omega arith;
}

width32 : Halves 32 (2 ^ 31)
unfolding flip_sign
width32 = record {
  positive = omega arith;
  power = refl;
  half_power = refl;
  flipped = λ a h. ground arith;
  truncated = λ n h. omega arith;
}

width64 : Halves 64 (2 ^ 63)
unfolding flip_sign
width64 = record {
  positive = omega arith;
  power = refl;
  half_power = refl;
  flipped = λ a h. ground arith;
  truncated = λ n h. omega arith;
}

pub IsWidth-Halves : (w : ℕ) → IsWidth w → (half : ℕ) × Halves w half
IsWidth-Halves w (inl e) = (2 ^ 7, rw e width8)
IsWidth-Halves w (inr (inl e)) = (2 ^ 15, rw e width16)
IsWidth-Halves w (inr (inr (inl e))) = (2 ^ 31, rw e width32)
IsWidth-Halves w (inr (inr (inr e))) = (2 ^ 63, rw e width64)

module _ (w half : ℕ) (h : Halves w half) where
  -- A literal that the type has keeps its value.
  pub to_int-truncate : (k : IntKind) (v : ℤ) → Fits k w v → to_int k w (truncate w v) ≡ v
  unfolding to_int truncate
  to_int-truncate unsigned (pos n) fits = ground (arith, h.truncated n, h.power, h.half_power)
  to_int-truncate unsigned (negsuc n) fits = absurd fits
  to_int-truncate signed (pos n) fits = ground (arith, h.truncated n, h.power, h.half_power)
  to_int-truncate signed (negsuc n) fits = ground (arith, h.truncated n, h.power, h.half_power)

  pub truncate-lt : (v : ℤ) → truncate w v < half + half
  unfolding truncate
  truncate-lt (pos n) = omega (arith, h.power, h.positive)
  truncate-lt (negsuc n) = omega (arith, h.power, h.positive)

  -- The order of the flipped patterns is the signed order.
  signed_order :
      (op : CompareOp) (a b : ℕ)
      → a < half + half
      → b < half + half
      → eval_int (predicate_of signed op) w a b
        ≡ compare_int op (to_int signed w a) (to_int signed w b)
  unfolding eval_int predicate_of compare_int to_int
  signed_order eq a b ha hb = ground (arith, h.power, h.half_power)
  signed_order neq a b ha hb = ground (arith, h.power, h.half_power)
  signed_order gt a b ha hb =
      rw (h.flipped a ha, h.flipped b hb, h.power, h.half_power) (ground arith)
  signed_order lt a b ha hb =
      rw (h.flipped a ha, h.flipped b hb, h.power, h.half_power) (ground arith)
  signed_order ge a b ha hb =
      rw (h.flipped a ha, h.flipped b hb, h.power, h.half_power) (ground arith)
  signed_order le a b ha hb =
      rw (h.flipped a ha, h.flipped b hb, h.power, h.half_power) (ground arith)

  -- The comparison of two patterns is the comparison of the integers that they stand for.
  pub eval_int-predicate_of :
      (k : IntKind) (op : CompareOp) (a b : ℕ)
      → a < half + half
      → b < half + half
      → eval_int (predicate_of k op) w a b ≡ compare_int op (to_int k w a) (to_int k w b)
  unfolding eval_int predicate_of compare_int to_int
  eval_int-predicate_of unsigned gt a b ha hb = ground arith
  eval_int-predicate_of unsigned lt a b ha hb = ground arith
  eval_int-predicate_of unsigned ge a b ha hb = ground arith
  eval_int-predicate_of unsigned le a b ha hb = ground arith
  eval_int-predicate_of unsigned eq a b ha hb = ground arith
  eval_int-predicate_of unsigned neq a b ha hb = ground arith
  eval_int-predicate_of signed op a b ha hb = signed_order op a b ha hb
