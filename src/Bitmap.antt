-- ===== src/Bitmap.antt =====
-- The filter bitmap: a buffer of bytes, the first row in the highest bit of the first byte, and
-- the 8-bit operations of the code that reads and writes it.
pub mod Bits
pub mod Masks
use pefa.Base.{
  ℕ, ◌+◌, ◌-◌, ◌*◌, ◌%◌, ◌^◌, ltb, if◌then◌else◌, Bool, true, false, Outcome, ok, fault, Fault,
}

-- The i8 operations of the emitted code. A shift by the width or more gives no defined value.
unfoldable pub add8 : ℕ → ℕ → ℕ
add8 a b = (a + b) % 256

unfoldable pub sub8 : ℕ → ℕ → ℕ
sub8 a b = (a + 256 - b) % 256

unfoldable pub not8 : ℕ → ℕ
not8 a = 255 - a

unfoldable pub shl8 : ℕ → ℕ → Outcome ℕ
shl8 a k = if ltb k 8 then ok (a * 2 ^ k % 256) else fault Fault.poison

-- An i1 widened to i8 without sign.
unfoldable pub zext8 : Bool → ℕ
zext8 true = 1
zext8 false = 0
