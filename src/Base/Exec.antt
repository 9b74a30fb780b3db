-- ===== src/Base/Exec.antt =====
-- Code that may throw and works on a state which it shares with others: what it did to the state
-- before an exception stays done, so a state comes back beside every outcome.
use pefa.Base.Exceptions.{Outcome, ok, throw, fault}

abbrev pub Exec {ℓ} : Type ℓ → Type ℓ → Type ℓ
Exec S A = S → Outcome A × S

module _ {ℓ} {S A B : Type ℓ} where
  abbrev pub after : Outcome A → (A → Exec S B) → Exec S B
  after (ok a) f s = f a s
  after (throw e) f s = (throw e, s)
  after (fault e) f s = (fault e, s)

  infixl 5 ◌>>=◌
  abbrev pub ◌>>=◌ : Exec S A → (A → Exec S B) → Exec S B
  ◌>>=◌ m f s = after ((m s).0) f ((m s).1)

module _ {ℓ} {S A : Type ℓ} where
  abbrev pub lift : Outcome A → Exec S A
  lift m s = (m, s)

  -- The result of a call that returns the new state beside its value, and leaves the state as it was
  -- where it throws.
  abbrev pub call : (S → Outcome (A × S)) → Exec S A
  call m s = elim (m s) [
    | ok (a, s') ↦ (ok a, s')
    | throw e ↦ (throw e, s)
    | fault e ↦ (fault e, s)
  ]

  -- The end of a scope, which is left with an outcome: a destructor runs, also where an exception
  -- leaves the scope. A fault has stopped the program.
  abbrev pub leave : (S → Outcome S) → Outcome A → Exec S A
  leave destroy (fault e) s = (fault e, s)
  leave destroy (ok a) s = elim (destroy s) [
    | ok s' ↦ (ok a, s')
    | throw e ↦ (throw e, s)
    | fault e ↦ (fault e, s)
  ]
  leave destroy (throw x) s = elim (destroy s) [
    | ok s' ↦ (throw x, s')
    | throw e ↦ (throw e, s)
    | fault e ↦ (fault e, s)
  ]

  abbrev pub scoped : (S → Outcome S) → Exec S A → Exec S A
  scoped destroy body s = leave destroy ((body s).0) ((body s).1)
