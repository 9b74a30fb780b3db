-- ===== src/Relation/Lists.antt =====
-- Selecting by numbers: the elements that a bitmap selects are those at the numbers that are kept.
use pefa.Base.{
  ℕ, zero, suc, ◌+◌, ◌≤◌, ◌<◌, ◌≡◌, ◌∙◌, refl, sym, ap, ap₂, arith, Bool, ◌&&◌, if◌then◌else◌,
  Bool-cases, inl, inr, List, [], ◌∷◌, map, length, get_or, some, get_elem?,
}
use pefa.Execution.Materialize.Select.{select}

-- The `n` numbers from `i` on.
abbrev pub upto : ℕ → ℕ → List ℕ
upto i zero = []
upto i (suc n) = i ∷ upto (suc i) n

unfoldable pub keep {ℓ} : {A : Type ℓ} → (A → Bool) → List A → List A
keep p [] = []
keep p (x ∷ xs) = if p x then x ∷ keep p xs else keep p xs

pub keep-keep {ℓ} :
    {A : Type ℓ} (p q : A → Bool) (xs : List A) → keep q (keep p xs) ≡ keep (λ x. p x && q x) xs
unfolding keep
keep-keep p q [] = refl
keep-keep p q (x ∷ xs) = elim (Bool-cases (p x)) [
  | inr e ↦ rw e (keep-keep p q xs)
  | inl e ↦ elim (Bool-cases (q x)) [
    | inl f ↦ rw (e, f) (ap (◌∷◌ x) (keep-keep p q xs))
    | inr f ↦ rw (e, f) (keep-keep p q xs)
  ]
]

pub keep-map {ℓ κ} :
    {A : Type ℓ} {B : Type κ} (p : B → Bool) (f : A → B) (xs : List A)
    → keep p (map f xs) ≡ map f (keep (λ (x : A). p (f x)) xs)
unfolding keep
keep-map p f [] = refl
keep-map p f (x ∷ xs) = elim (Bool-cases (p (f x))) [
  | inl e ↦ rw e (ap (◌∷◌ (f x)) (keep-map p f xs))
  | inr e ↦ rw e (keep-map p f xs)
]

-- The numbers of the selected elements.
abbrev pub chosen : (ℕ → Bool) → ℕ → List ℕ
chosen p n = keep p (upto 0 n)

-- `xs` is the end of a list, from its element `i` on.
select-keep_from :
    (p : ℕ → Bool) (i : ℕ) (xs : List ℕ) (at : ℕ → ℕ)
    → ((k : ℕ) → k < length xs → at (i + k) ≡ get_or xs k 0)
    → select p i xs ≡ map at (keep p (upto i (length xs)))
unfolding select keep
select-keep_from p i [] at h = refl
select-keep_from p i (x ∷ xs) at h =
    let first : at i ≡ x = ap at (omega arith) ∙ h 0 (omega arith) in
    let rest =
      select-keep_from p (suc i) xs at (λ k below. ap at (omega arith) ∙ h (suc k) (omega arith)) in
    let e : i + 1 ≡ suc i = omega arith in
    elim (Bool-cases (p i)) [
      | inl yes' ↦ rw (yes', e) (ap₂ ◌∷◌ (sym first) rest)
      | inr no' ↦ rw (no', e) rest
    ]

pub select-chosen :
    (p : ℕ → Bool) (xs : List ℕ)
    → select p 0 xs ≡ map (λ (r : ℕ). get_or xs r 0) (chosen p (length xs))
select-chosen p xs =
    select-keep_from p 0 xs (λ r. get_or xs r 0)
      (λ k h. ap (λ (t : ℕ). get_or xs t 0) (omega arith))

pub length-map {ℓ κ} :
    {A : Type ℓ} {B : Type κ} (f : A → B) (xs : List A) → length (map f xs) ≡ length xs
length-map f [] = refl
length-map f (x ∷ xs) = ap suc (length-map f xs)

pub get_or-map :
    {A : Type 0} (f : A → ℕ) (xs : List A) (i : ℕ) (d : A) (e : ℕ)
    → i < length xs
    → get_or (map f xs) i e ≡ f (get_or xs i d)
get_or-map f [] i d e h = absurd (omega arith)
get_or-map f (x ∷ xs) zero d e h = refl
get_or-map f (x ∷ xs) (suc i) d e h = get_or-map f xs i d e (omega arith)

pub get_elem?-map {ℓ κ} :
    {A : Type ℓ} {B : Type κ} (f : A → B) (xs : List A) (i : ℕ) {b : B}
    → get_elem? (map f xs) i ≡ some b
    → (a : A) × (get_elem? xs i ≡ some a) × (f a ≡ b)
get_elem?-map f [] i h = cc
get_elem?-map f (x ∷ xs) zero h = (x, refl, cc)
get_elem?-map f (x ∷ xs) (suc i) h = get_elem?-map f xs i h

pub get_or-get_elem? {ℓ} :
    {A : Type ℓ} (xs : List A) (i : ℕ) (d : A) {a : A} → get_elem? xs i ≡ some a → get_or xs i d ≡ a
get_or-get_elem? [] i d h = cc
get_or-get_elem? (x ∷ xs) zero d h = cc
get_or-get_elem? (x ∷ xs) (suc i) d h = get_or-get_elem? xs i d h

-- Reading a list number by number gives the list back.
map-get_or_from :
    {A : Type 0} (g : ℕ → A) (xs : List ℕ) (i : ℕ) (at : ℕ → ℕ)
    → ((k : ℕ) → k < length xs → at (i + k) ≡ get_or xs k 0)
    → map (λ (r : ℕ). g (at r)) (upto i (length xs)) ≡ map g xs
map-get_or_from g [] i at h = refl
map-get_or_from g (x ∷ xs) i at h =
    ap₂ ◌∷◌ (ap g (ap at (omega arith) ∙ h 0 (omega arith)))
      (map-get_or_from g xs (suc i) at (λ k below. ap at (omega arith) ∙ h (suc k) (omega arith)))

pub map-get_or :
    {A : Type 0} (g : ℕ → A) (xs : List ℕ)
    → map (λ (r : ℕ). g (get_or xs r 0)) (upto 0 (length xs)) ≡ map g xs
map-get_or g xs =
    map-get_or_from g xs 0 (λ r. get_or xs r 0) (λ k h. ap (λ (t : ℕ). get_or xs t 0) (omega arith))

pub map_congr {ℓ} :
    {A : Type ℓ} (f g : ℕ → A) (i n : ℕ)
    → ((k : ℕ) → i ≤ k → k < i + n → f k ≡ g k)
    → map f (upto i n) ≡ map g (upto i n)
map_congr f g i zero h = refl
map_congr f g i (suc n) h =
    ap₂ ◌∷◌ (h i (omega arith) (omega arith))
      (map_congr f g (suc i) n (λ k lo hi. h k (omega arith) (omega arith)))

pub length-upto : (i n : ℕ) → length (upto i n) ≡ n
length-upto i zero = refl
length-upto i (suc n) = ap suc (length-upto (suc i) n)

pub length-keep-le {ℓ} : {A : Type ℓ} (p : A → Bool) (xs : List A) → length (keep p xs) ≤ length xs
unfolding keep
length-keep-le p [] = omega arith
length-keep-le p (x ∷ xs) = elim (Bool-cases (p x)) [
  | inl e ↦ rw e (omega (arith, length-keep-le p xs))
  | inr e ↦ rw e (omega (arith, length-keep-le p xs))
]
