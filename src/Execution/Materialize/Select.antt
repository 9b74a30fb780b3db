-- ===== src/Execution/Materialize/Select.antt =====
-- The rows that a bitmap selects, and the list facts of the loops that copy them.
use pefa.Base.{
  ℕ, zero, suc, ◌+◌, ◌-◌, ◌/◌, ◌%◌, ◌^◌, ◌*◌, ◌≤◌, ◌<◌, ◌≡◌, refl, ap, arith, if◌then◌else◌, Bool,
  List, [], ◌∷◌, ◌++◌, length, get_or, set, take, drop, ok, get_elem?-eq-get_or,
}
use pefa.Base.Bits.{test_bit, test_bit-lt}
use pefa.Bitmap.Bits.{byte_bit, bitmap_bit}
use pefa.Execution.Materialize.{read_bit}

-- The elements at whose row `q` is true; the first stands in row `i`.
unfoldable pub select : (ℕ → Bool) → ℕ → List ℕ → List ℕ
select q i [] = []
select q i (x ∷ xs) = if q i then x ∷ select q (i + 1) xs else select q (i + 1) xs

pub drop-eq-cons :
    (xs : List ℕ) (i : ℕ) → i < length xs → drop i xs ≡ get_or xs i 0 ∷ drop (suc i) xs
drop-eq-cons [] i h = absurd (omega arith)
drop-eq-cons (x ∷ xs) zero h = refl
drop-eq-cons (x ∷ xs) (suc i) h = drop-eq-cons xs i (omega arith)

pub drop_all : (xs : List ℕ) (i : ℕ) → length xs ≤ i → drop i xs ≡ []
drop_all [] zero h = refl
drop_all [] (suc i) h = refl
drop_all (x ∷ xs) zero h = absurd (omega arith)
drop_all (x ∷ xs) (suc i) h = drop_all xs i (omega arith)

pub length-drop : (n : ℕ) (xs : List ℕ) → length (drop n xs) ≡ length xs - n
length-drop zero xs = omega arith
length-drop (suc n) [] = omega arith
length-drop (suc n) (x ∷ xs) = omega (arith, length-drop n xs)

pub take-set : (xs : List ℕ) (n v : ℕ) → take n (set xs n v) ≡ take n xs
take-set [] zero v = refl
take-set [] (suc n) v = refl
take-set (x ∷ xs) zero v = refl
take-set (x ∷ xs) (suc n) v = ap (◌∷◌ x) (take-set xs n v)

pub take-suc-set :
    (xs : List ℕ) (n v : ℕ) → n < length xs → take (suc n) (set xs n v) ≡ take n xs ++ v ∷ []
take-suc-set [] n v h = absurd (omega arith)
take-suc-set (x ∷ xs) zero v h = refl
take-suc-set (x ∷ xs) (suc n) v h = ap (◌∷◌ x) (take-suc-set xs n v (omega arith))

-- `(byte >> k) & 1`
shift_bit : (a k : ℕ) → k < 8 → a / 2 ^ k % 2 ≡ test_bit a k
unfolding test_bit
shift_bit a zero h = omega arith
shift_bit a (suc zero) h = omega arith
shift_bit a (suc (suc zero)) h = omega arith
shift_bit a (suc (suc (suc zero))) h = omega arith
shift_bit a (suc (suc (suc (suc zero)))) h = omega arith
shift_bit a (suc (suc (suc (suc (suc zero))))) h = omega arith
shift_bit a (suc (suc (suc (suc (suc (suc zero)))))) h = omega arith
shift_bit a (suc (suc (suc (suc (suc (suc (suc zero))))))) h = omega arith
shift_bit a (suc (suc (suc (suc (suc (suc (suc (suc k)))))))) h = absurd (omega arith)

pub read_bit_lem :
    (bitmap : List ℕ) (i : ℕ)
    → i < length bitmap * 8
    → read_bit bitmap i ≡ ok (if bitmap_bit bitmap i then 1 else 0)
unfolding read_bit bitmap_bit byte_bit
read_bit_lem bitmap i h =
    rw
      (
        get_elem?-eq-get_or bitmap (i / 8) 0 (omega arith),
        shift_bit (get_or bitmap (i / 8) 0) (7 - i % 8) (omega arith),
      )
      (ground (arith, test_bit-lt (get_or bitmap (i / 8) 0) (7 - i % 8)))
