-- ===== src/Base/Bits.antt =====
-- Bits of a number: what `bit_and` and `bit_or` do to each of them.
use Prim.Native.Nat.{ℕ, zero, suc, ◌/◌, ◌%◌, ◌≤◌, ◌<◌, min, max}
use Prim.Native.Nat.{bit_and, bit_or, digits, bit_and-bitwise, bit_or-bitwise}
use mathlib.Core.Path.{◌≡◌, refl, ap, ◌∙◌}
use native.Mathlib.Omega.{arith}

-- Bit `k` of `a`, bit 0 the lowest.
unfoldable pub test_bit : ℕ → ℕ → ℕ
test_bit a zero = a % 2
test_bit a (suc k) = test_bit (a / 2) k

pub test_bit-lt : (a k : ℕ) → test_bit a k < 2
unfolding test_bit
test_bit-lt a zero = omega arith
test_bit-lt a (suc k) = test_bit-lt (a / 2) k

test_bit_zero : (k : ℕ) → test_bit 0 k ≡ 0
unfolding test_bit
test_bit_zero zero = refl
test_bit_zero (suc k) = test_bit_zero k

-- An operation on bits, and what it leaves of the second number where the first has ended.
module _ (rest : ℕ → ℕ) (op : ℕ → ℕ → ℕ)
    (ended : (b k : ℕ) → test_bit (rest b) k ≡ op 0 (test_bit b k))
    (is_bit : (x y : ℕ) → x < 2 → y < 2 → op x y < 2) where
  at_end : (b k : ℕ) → test_bit (rest b) k ≡ op (test_bit 0 k) (test_bit b k)
  at_end b k = rw (test_bit_zero k) (ended b k)

  -- With a count of digits to go that is large enough, each bit of the result is `op` of the bits.
  test_bit-digits :
      (count k a b : ℕ)
      → a ≤ count
      → test_bit (digits rest op count a b) k ≡ op (test_bit a k) (test_bit b k)
  unfolding test_bit
  test_bit-digits zero k zero b enough = at_end b k
  test_bit-digits zero k (suc a) b enough = absurd (omega arith)
  test_bit-digits (suc count) k zero b enough = at_end b k
  test_bit-digits (suc count) zero (suc a) b enough =
      omega (arith, is_bit (suc a % 2) (b % 2) (omega arith) (omega arith))
  test_bit-digits (suc count) (suc k) (suc a) b enough =
      ap (λ (t : ℕ). test_bit t k)
        (omega (arith, is_bit (suc a % 2) (b % 2) (omega arith) (omega arith)))
      ∙ test_bit-digits count k (suc a / 2) (b / 2) (omega arith)

pub test_bit-bit_and : (a b k : ℕ) → test_bit (bit_and a b) k ≡ min (test_bit a k) (test_bit b k)
test_bit-bit_and a b k = rw bit_and-bitwise (
    test_bit-digits (λ y. 0) min (λ y j. rw (test_bit_zero j) (omega arith))
      (λ x y h h'. omega arith) a k a b (omega arith))

pub test_bit-bit_or : (a b k : ℕ) → test_bit (bit_or a b) k ≡ max (test_bit a k) (test_bit b k)
test_bit-bit_or a b k = rw bit_or-bitwise (
    test_bit-digits (λ y. y) max (λ y j. omega arith) (λ x y h h'. omega arith) a k a b
      (omega arith))
