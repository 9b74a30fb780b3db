-- ===== src/Program/Same.antt =====
-- Code on a state that has the outcome of code without one, and leaves a good state behind.
use pefa.Base.{◌∙◌, ℕ, ◌≡◌, refl, Outcome, ok, throw, fault, ◌>>=◌}
use pefa.Base.Exec.{Exec, after, leave}

module _ {S : Type 0} (IsGood : S → Type 0) where
  -- An exception leaves a good state too; a fault has stopped the program.
  abbrev pub Left : {A : Type 0} → Outcome A → S → Type 0
  Left (ok a) s = IsGood s
  Left (throw e) s = IsGood s
  Left (fault e) s = Unit {0}

  abbrev pub Same : {A : Type 0} → Outcome A → Outcome A × S → Type 0
  Same m r = (r.0 ≡ m) × Left m (r.1)

  pub Same-lift : {A : Type 0} (m : Outcome A) (s : S) → IsGood s → Same m (m, s)
  Same-lift (ok a) s good = (refl, good)
  Same-lift (throw e) s good = (refl, good)
  Same-lift (fault e) s good = (refl, tt)

  pub Same-bind :
      {A B : Type 0} (m : Outcome A) (f : A → Outcome B) (r : Outcome A × S) (g : A → Exec S B)
      → Same m r
      → ((a : A) (s : S) → IsGood s → Same (f a) (g a s))
      → Same (m >>= f) (after (r.0) g (r.1))
  Same-bind (ok a) f (r, s) g h each = rw (h.0) (each a s h.1)
  Same-bind (throw e) f (r, s) g h each = rw (h.0) (refl, h.1)
  Same-bind (fault e) f (r, s) g h each = rw (h.0) (refl, tt)

  -- A scope is left by a destructor that returns.
  pub Same-leave :
      {A : Type 0} (m : Outcome A) (destroy : S → Outcome S) (s : S) {s' : S}
      → destroy s ≡ ok s'
      → IsGood s'
      → Same m (leave destroy m s)
  Same-leave (ok a) destroy s runs good = rw (runs, leave) (refl, good)
  Same-leave (throw e) destroy s runs good = rw (runs, leave) (refl, good)
  Same-leave (fault e) destroy s runs good = (refl, tt)

-- Code that has brought a number of its state to `n`, where it returns.
module _ {S : Type 0} (count : S → ℕ) (n : ℕ) where
  abbrev pub Spent : {A : Type 0} → Outcome A × S → Type 0
  Spent (ok a, s) = count s ≡ n
  Spent (throw e, s) = Unit {0}
  Spent (fault e, s) = Unit {0}

  pub Spent-lift : {A : Type 0} (m : Outcome A) (s : S) → count s ≡ n → Spent (m, s)
  Spent-lift (ok a) s h = h
  Spent-lift (throw e) s h = tt
  Spent-lift (fault e) s h = tt

  pub Spent-leave :
      {A : Type 0} (m : Outcome A) (destroy : S → Outcome S) (s : S) {s' : S}
      → destroy s ≡ ok s'
      → count s' ≡ n
      → Spent (leave destroy m s)
  Spent-leave (ok a) destroy s runs counted = rw (runs, leave) counted
  Spent-leave (throw e) destroy s runs counted = rw (runs, leave) tt
  Spent-leave (fault e) destroy s runs counted = tt

pub Spent-eq :
    {S A : Type 0} (count : S → ℕ) (n k : ℕ) (r : Outcome A × S)
    → Spent count n r
    → n ≡ k
    → Spent count k r
Spent-eq count n k (ok a, s) h e = h ∙ e
Spent-eq count n k (throw x, s) h e = tt
Spent-eq count n k (fault x, s) h e = tt

pub Spent-bind :
    {S A B : Type 0} (IsGood : S → Type 0) (count : S → ℕ) (n k : ℕ) (m : Outcome A)
    (r : Outcome A × S) (g : A → Exec S B)
    → Same IsGood m r
    → Spent count n r
    → ((a : A) (s : S) → IsGood s → count s ≡ n → Spent count k (g a s))
    → Spent count k (after (r.0) g (r.1))
Spent-bind IsGood count n k (ok a) (ok b, s) g h counted each = each b s h.1 counted
Spent-bind IsGood count n k (throw e) (ok b, s) g h counted each = cc
Spent-bind IsGood count n k (fault e) (ok b, s) g h counted each = cc
Spent-bind IsGood count n k m (throw e, s) g h counted each = tt
Spent-bind IsGood count n k m (fault e, s) g h counted each = tt
