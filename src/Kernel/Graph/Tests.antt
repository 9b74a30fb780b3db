-- ===== src/Kernel/Graph/Tests.antt =====
-- The tests of the graphs, and what an access can lead to.
use pefa.Base.{ℕ, ◌-◌, ◌^◌, ◌<◌, ◌≡◌, refl, arith, ltb, ◌==◌, true, false}
use pefa.Bitmap.{zext8}
use pefa.Kernel.Ir.{flip_sign}

-- The signed comparisons.
pub less8 : (a : ℕ) → a < 8 → (zext8 (ltb (flip_sign 8 a) (flip_sign 8 8)) == 0) ≡ false
unfolding flip_sign zext8
less8 a h = ground arith

pub not_less8 : (zext8 (ltb (flip_sign 8 8) (flip_sign 8 8)) == 0) ≡ true
unfolding flip_sign zext8
not_less8 = refl

pub less64 :
    (a b : ℕ) → b < 2 ^ 61 → a < b → (zext8 (ltb (flip_sign 64 a) (flip_sign 64 b)) == 0) ≡ false
unfolding flip_sign zext8
less64 a b small h = ground arith

pub not_less64 : (a b : ℕ) → a ≡ b → (zext8 (ltb (flip_sign 64 a) (flip_sign 64 b)) == 0) ≡ true
unfolding flip_sign zext8
not_less64 a b e = ground arith

pub in_range8 : (a : ℕ) → a < 8 → ltb a (2 ^ (8 - 1)) ≡ true
in_range8 a h = ground arith

pub in_range64 : (a : ℕ) → a < 2 ^ 63 → ltb a (2 ^ (64 - 1)) ≡ true
in_range64 a h = ground arith
