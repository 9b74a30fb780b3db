-- ===== src/Jit/Keys.antt =====
-- The keys of the modules that are linked: no two modules have one.
use pefa.Base.{ℕ, ◌≡◌, ◌⊎◌, arith, ◌==◌, Bool-cases, inl, inr, List, [], ◌∷◌, ◌++◌}
use pefa.Jit.Laws.{Linked, KeysBelow, HasKey, erase}

module _ {Mod : Type 0} where
  abbrev pub Distinct : List (Linked Mod) → Type 0
  Distinct [] = Unit {0}
  Distinct (l ∷ ls) = (HasKey l.key ls → ⊥) × Distinct ls

  pub KeysBelow-fresh : (n : ℕ) (ls : List (Linked Mod)) → KeysBelow n ls → HasKey n ls → ⊥
  KeysBelow-fresh n [] below has = has
  KeysBelow-fresh n (l ∷ ls) below (inl e) = absurd (omega (arith, below.0))
  KeysBelow-fresh n (l ∷ ls) below (inr has) = KeysBelow-fresh n ls below.1 has

  HasKey-last :
      (n : ℕ) (ls : List (Linked Mod)) (l : Linked Mod)
      → HasKey n (ls ++ l ∷ [])
      → HasKey n ls ⊎ (n ≡ l.key)
  HasKey-last n [] l (inl e) = inr e
  HasKey-last n [] l (inr has) = absurd has
  HasKey-last n (x ∷ ls) l (inl e) = inl (inl e)
  HasKey-last n (x ∷ ls) l (inr has) = elim (HasKey-last n ls l has) [
    | inl h ↦ inl (inr h)
    | inr e ↦ inr e
  ]

  pub Distinct-last :
      (ls : List (Linked Mod)) (l : Linked Mod)
      → KeysBelow l.key ls
      → Distinct ls
      → Distinct (ls ++ l ∷ [])
  Distinct-last [] l below distinct = ((λ h. h), tt)
  Distinct-last (x ∷ ls) l below distinct = (
    (λ has. elim (HasKey-last x.key ls l has) [
      | inl h ↦ distinct.0 h
      | inr e ↦ omega (arith, below.0)
    ]),
    Distinct-last ls l below.1 distinct.1,
  )

  HasKey-erase : (n key : ℕ) (ls : List (Linked Mod)) → HasKey n (erase key ls) → HasKey n ls
  HasKey-erase n key [] has = has
  HasKey-erase n key (l ∷ ls) has = elim (Bool-cases (key == l.key)) [
    | inl e ↦ inr (rw e at has)
    | inr e ↦ elim (rw e at has) [
      | inl same ↦ inl same
      | inr rest ↦ inr (HasKey-erase n key ls rest)
    ]
  ]

  pub Distinct-erase : (key : ℕ) (ls : List (Linked Mod)) → Distinct ls → Distinct (erase key ls)
  Distinct-erase key [] h = tt
  Distinct-erase key (l ∷ ls) h = elim (Bool-cases (key == l.key)) [
    | inl e ↦ rw e (h.1)
    | inr e ↦ rw e ((λ has. h.0 (HasKey-erase l.key key ls has)), Distinct-erase key ls h.1)
  ]
