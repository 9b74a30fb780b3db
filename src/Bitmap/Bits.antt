-- ===== src/Bitmap/Bits.antt =====
-- Reading a bitmap row by row.
use Prim.Native.Nat.{bit_and, bit_or}
use pefa.Base.{
  ℕ, zero, suc, ◌-◌, ◌*◌, ◌/◌, ◌%◌, ◌^◌, ◌<◌, ◌≡◌, refl, arith, ltb, leb, ◌==◌, ==_iff, Bool-cases,
  inl, inr, ◌∙◌, ◌+◌, ◌≤◌, if◌then◌else◌, Bool, true, false, ◌&&◌, ◌||◌, List, get_or, replicate,
  get_or-replicate,
}
use pefa.Bitmap.{not8, zext8}
use pefa.Base.Bits.{test_bit, test_bit-lt, test_bit-bit_and, test_bit-bit_or}

-- Row `j` of a byte: `(byte >> (7 - j)) & 1`.
unfoldable pub byte_bit : ℕ → ℕ → Bool
byte_bit byte j = test_bit byte (7 - j) == 1

-- Row `i` of a bitmap.
unfoldable pub bitmap_bit : List ℕ → ℕ → Bool
bitmap_bit buf i = byte_bit (get_or buf (i / 8) 0) (i % 8)

-- The rows `lo` to `hi`, exclusive, filtered by `q`; all others pass.
unfoldable pub window : ℕ → ℕ → (ℕ → Bool) → ℕ → Bool
window lo hi q i = if leb lo i && ltb i hi then q i else true

pub byte_bit-bit_and : (a b j : ℕ) → byte_bit (bit_and a b) j ≡ (byte_bit a j && byte_bit b j)
unfolding byte_bit
byte_bit-bit_and a b j =
    ground (arith, test_bit-bit_and a b (7 - j), test_bit-lt a (7 - j), test_bit-lt b (7 - j))

pub byte_bit-bit_or : (a b j : ℕ) → byte_bit (bit_or a b) j ≡ (byte_bit a j || byte_bit b j)
unfolding byte_bit
byte_bit-bit_or a b j =
    ground (arith, test_bit-bit_or a b (7 - j), test_bit-lt a (7 - j), test_bit-lt b (7 - j))

-- A test passes at the first `n` numbers, which is found out by running it.
passes : ℕ → (ℕ → Bool) → Bool
passes zero test = true
passes (suc n) test = if test n then passes n test else false

passes-at : (n : ℕ) (test : ℕ → Bool) (k : ℕ) → passes n test ≡ true → k < n → test k ≡ true
unfolding passes
passes-at (suc n) test k run below = ground (arith, passes-at n test k)
passes-at zero test k run below = absurd (omega arith)

shifted_table :
    passes 8
      (λ j. passes 8 (λ k. test_bit (1 * 2 ^ (7 - j) % 256) (7 - k) == (if k == j then 1 else 0)))
    ≡ true
unfolding passes test_bit
shifted_table = refl

masked_table :
    passes 8 (λ j.
      passes 8 (λ k. test_bit (255 - 1 * 2 ^ (7 - j) % 256) (7 - k) == (if k == j then 0 else 1)))
    ≡ true
unfolding passes test_bit
masked_table = refl

zero_table : passes 8 (λ k. test_bit 0 (7 - k) == 0) ≡ true
unfolding passes test_bit
zero_table = refl

ones_table : passes 8 (λ k. test_bit 255 (7 - k) == 1) ≡ true
unfolding passes test_bit
ones_table = refl

byte_bit-ones : (j : ℕ) → j < 8 → byte_bit 255 j ≡ true
unfolding byte_bit
byte_bit-ones j h = passes-at 8 _ j ones_table h

pub byte_bit-zero : (j : ℕ) → j < 8 → byte_bit 0 j ≡ false
unfolding byte_bit
byte_bit-zero j h = ground (arith, passes-at 8 _ j zero_table h)

-- `predicate << (7 - j)` holds the predicate at row `j` and nothing else.
pub byte_bit_shifted :
    (b : Bool) (j k : ℕ)
    → j < 8
    → k < 8
    → byte_bit (zext8 b * 2 ^ (7 - j) % 256) k ≡ ((k == j) && b)
unfolding byte_bit zext8
byte_bit_shifted true j k hj hk =
    ground (arith, passes-at 8 _ k (passes-at 8 _ j shifted_table hj) hk)
byte_bit_shifted false j k hj hk = ground (arith, passes-at 8 _ k zero_table hk)

-- `~((~predicate & 1) << (7 - j))` holds the predicate at row `j`, and ones at the others.
pub byte_bit_masked :
    (b : Bool) (j k : ℕ)
    → j < 8
    → k < 8
    → byte_bit (not8 (bit_and (not8 (zext8 b)) 1 * 2 ^ (7 - j) % 256)) k
      ≡ (if k == j then b else true)
unfolding byte_bit zext8 not8
byte_bit_masked false j k hj hk =
    ground (arith, passes-at 8 _ k (passes-at 8 _ j masked_table hj) hk)
byte_bit_masked true j k hj hk = ground (arith, passes-at 8 _ k ones_table hk)

pub window_empty : (lo hi : ℕ) (q : ℕ → Bool) (r : ℕ) → hi ≤ lo → window lo hi q r ≡ true
unfolding window
window_empty lo hi q r h = ground arith

pub window_append :
    (lo mid hi : ℕ) (q : ℕ → Bool) (r : ℕ)
    → lo ≤ mid
    → mid ≤ hi
    → (window lo mid q r && window mid hi q r) ≡ window lo hi q r
unfolding window
window_append lo mid hi q r h k = ground arith

pub window_all : (n : ℕ) (q : ℕ → Bool) (r : ℕ) → r < n → window 0 n q r ≡ q r
unfolding window
window_all n q r h = ground arith

-- The rows of byte `p`, when row `k` of `t` is `q` at it.
pub window_byte :
    (p t : ℕ) (q : ℕ → Bool) (r : ℕ)
    → ((k : ℕ) → k < 8 → byte_bit t k ≡ q (p * 8 + k))
    → (if r / 8 == p then byte_bit t (r % 8) else true) ≡ window (p * 8) (p * 8 + 8) q r
unfolding window
window_byte p t q r bits = elim (Bool-cases (r / 8 == p)) [
  | inl e ↦
      let e' : r / 8 ≡ p = (==_iff (r / 8) p).0 e in
      let at : p * 8 + r % 8 ≡ r = omega arith in
      rw e (rw at at (bits (r % 8) (omega arith)) ∙ ground arith)
  | inr e ↦ ground arith
]

-- One row of byte `p`.
pub window_row :
    (p t j : ℕ) (q : ℕ → Bool) (r : ℕ)
    → j < 8
    → ((k : ℕ) → k < 8 → byte_bit t k ≡ (if k == j then q (p * 8 + j) else true))
    → (if r / 8 == p then byte_bit t (r % 8) else true) ≡ window (p * 8 + j) (p * 8 + j + 1) q r
unfolding window
window_row p t j q r h bits = elim (Bool-cases (r == p * 8 + j)) [
  | inl e ↦ rw ((==_iff r (p * 8 + j)).0 e) (ground (arith, bits j h))
  | inr e ↦ ground (arith, bits (r % 8) (omega arith))
]

-- A buffer of ones passes every row.
pub bitmap_bit-replicate : (n r : ℕ) → r < n * 8 → bitmap_bit (replicate n 255) r ≡ true
unfolding bitmap_bit
bitmap_bit-replicate n r h =
    rw (get_or-replicate {A = ℕ} n 255 0 (r / 8) (omega arith))
      (byte_bit-ones (r % 8) (omega arith))
