-- ===== src/Tests/Addresses.antt =====
-- Addresses of their own for the functions of the test machine, and the code at an address.
use Prim.Native.Char.{code}
use text.Mathlib.Text.{◌==◌ as str_eq}
use text.Mathlib.TextEquality.{Char-path, eq_iff}
use pefa.Base.{
  ℕ, zero, suc, ◌+◌, ◌*◌, ◌==◌, ==_iff, ◌≡◌, ◌≢◌, ◌∙◌, refl, sym, ap, ap₂, arith, if◌then◌else◌,
  Bool-cases, true, false, inl, inr, [], ◌∷◌, String, Option, none, some,
}
use pefa.Jit.Interface.{Body, Linkage, internal, external, Llvm}
use pefa.Jit.Laws.{Linked, HasKey, external_body, LlvmLaws}
use pefa.Jit.Keys.{Distinct}
use pefa.Program.Laws.{IsLinked, CodeLaws}
use pefa.Tests.Machine.{Functions, Layers, llvm_at, llvm_at_laws}

-- 2 ^ a * (2 * b + 1)
unfoldable pub pair : ℕ → ℕ → ℕ
pair zero b = 2 * b + 1
pair (suc a) b = 2 * pair a b

pair_inj : (a b c d : ℕ) → pair a b ≡ pair c d → (a ≡ c) × (b ≡ d)
unfolding pair
pair_inj zero b zero d e = (refl, omega arith)
pair_inj zero b (suc c) d e = absurd (omega arith)
pair_inj (suc a) b zero d e = absurd (omega arith)
pair_inj (suc a) b (suc c) d e = let (p, q) = pair_inj a b c d (omega arith) in (ap suc p, q)

pair_pos : (a b : ℕ) → pair a b ≢ 0
unfolding pair
pair_pos zero b e = omega arith
pair_pos (suc a) b e = pair_pos a b (omega arith)

abbrev number : String → ℕ
number String.[] = 0
number (String.◌∷◌ c s) = pair (code c) (number s)

number_inj : (s t : String) → number s ≡ number t → s ≡ t
number_inj String.[] String.[] e = refl
number_inj String.[] (String.◌∷◌ d t) e = absurd (pair_pos (code d) (number t) (sym e))
number_inj (String.◌∷◌ c s) String.[] e = absurd (pair_pos (code c) (number s) e)
number_inj (String.◌∷◌ c s) (String.◌∷◌ d t) e =
    let (p, q) = pair_inj (code c) (number s) (code d) (number t) e in
    ap₂ String.◌∷◌ (Char-path c d p) (number_inj s t q)

abbrev pub address : ℕ → String → ℕ
address key name = pair key (number name)

abbrev body_at : ℕ → Functions → ℕ → Option Body
body_at key [] a = none
body_at key (f ∷ fs) a =
    let rest = body_at key fs a in
    elim (f.linkage) [
      | internal ↦ rest
      | external ↦ if address key f.name == a then some (f.body) else rest
    ]

abbrev pub code_at : Layers → ℕ → Option Body
code_at [] a = none
code_at (l ∷ ls) a =
    let rest = code_at ls a in elim (body_at l.key l.contents a) [ none ↦ rest | some b ↦ some b ]

address_same : (key : ℕ) (g f : String) → (address key g == address key f) ≡ str_eq g f
address_same key g f = elim (Bool-cases (str_eq g f)) [
  | inl same ↦
      rw same ((==_iff (address key g) (address key f)).1 (ap (address key) ((eq_iff g f).0 same)))
  | inr different ↦ elim (Bool-cases (address key g == address key f)) [
    | inr e ↦ e ∙ sym different
    | inl e ↦
        let same =
          number_inj g f
            (pair_inj key (number g) key (number f)
              ((==_iff (address key g) (address key f)).0 e)).1 in
        let found : str_eq g f ≡ true = (eq_iff g f).1 same in cc
  ]
]

address_differs : (k l : ℕ) (g f : String) → k ≢ l → (address k g == address l f) ≡ false
address_differs k l g f differ = elim (Bool-cases (address k g == address l f)) [
  | inr e ↦ e
  | inl e ↦
      absurd
        (differ (pair_inj k (number g) l (number f) ((==_iff (address k g) (address l f)).0 e)).0)
]

body_at-external_body :
    (key : ℕ) (fs : Functions) (f : String) → body_at key fs (address key f) ≡ external_body fs f
body_at-external_body key [] f = refl
body_at-external_body key (g ∷ fs) f = of_linkage (g.linkage) (body_at-external_body key fs f)
  where
    of_linkage :
        (linkage : Linkage)
        → body_at key fs (address key f) ≡ external_body fs f
        → body_at key (record g { linkage = linkage } ∷ fs) (address key f)
          ≡ external_body (record g { linkage = linkage } ∷ fs) f
    of_linkage internal ih = ih
    of_linkage external ih = rw (address_same key g.name f, ih) refl

body_at-none : (k l : ℕ) (fs : Functions) (f : String) → k ≢ l → body_at k fs (address l f) ≡ none
body_at-none k l [] f differ = refl
body_at-none k l (g ∷ fs) f differ = of_linkage (g.linkage) (body_at-none k l fs f differ)
  where
    of_linkage :
        (linkage : Linkage)
        → body_at k fs (address l f) ≡ none
        → body_at k (record g { linkage = linkage } ∷ fs) (address l f) ≡ none
    of_linkage internal ih = ih
    of_linkage external ih = rw (address_differs k l g.name f differ, ih) refl

IsLinked-HasKey : (l : Linked Functions) (ls : Layers) → IsLinked l ls → HasKey l.key ls
IsLinked-HasKey l [] h = h
IsLinked-HasKey l (x ∷ xs) (inl e) = inl (ap (λ (y : Linked Functions). y.key) e)
IsLinked-HasKey l (x ∷ xs) (inr h) = inr (IsLinked-HasKey l xs h)

pub code_at-placed :
    (ls : Layers) (l : Linked Functions) (f : String) (b : Body)
    → Distinct ls
    → IsLinked l ls
    → external_body l.contents f ≡ some b
    → code_at ls (address l.key f) ≡ some b
code_at-placed [] l f b distinct h defined = absurd h
code_at-placed (x ∷ xs) l f b distinct (inl e) defined =
    rw (← e) (rw (code_at, body_at-external_body l.key l.contents f, defined) refl)
code_at-placed (x ∷ xs) l f b distinct (inr h) defined =
    rw
      (
        body_at-none x.key l.key x.contents f (λ e. distinct.0 (rw e (IsLinked-HasKey l xs h))),
        code_at,
      )
      (code_at-placed xs l f b distinct.1 h defined)

abbrev pub placed_llvm : Llvm Functions Layers (Unit {0}) (Unit {0})
placed_llvm = llvm_at address

abbrev pub placed_laws : LlvmLaws placed_llvm tt
placed_laws = llvm_at_laws address

abbrev pub placed_code_laws : CodeLaws placed_llvm tt placed_laws code_at
placed_code_laws = record { placed_code = code_at-placed }
