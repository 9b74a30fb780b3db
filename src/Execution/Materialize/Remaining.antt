-- ===== src/Execution/Materialize/Remaining.antt =====
-- The rows of a column as they stand in its buffers, and those that are left.
use pefa.Base.{
  ℕ, ◌+◌, ◌-◌, ◌≤◌, ◌≡◌, ◌∙◌, refl, ap, sym, arith, List, [], ◌∷◌, ◌++◌, length, length-append,
  take, drop, length-take, true,
}
use pefa.Arrow.{Array}
use pefa.Execution.Materialize.Select.{length-drop, drop_all}

-- The rows of a chunk as they stand in its buffer.
abbrev pub buffer_rows : Array → List ℕ
buffer_rows c = take c.length c.values

abbrev pub buffer_column : List Array → List ℕ
buffer_column [] = []
buffer_column (c ∷ cs) = buffer_rows c ++ buffer_column cs

-- Chunks with their rows in their buffers, which are mutable.
abbrev pub IsStored : List Array → Type 0
IsStored [] = Unit {0}
IsStored (c ∷ cs) = (c.length ≤ length c.values) × (c.is_mutable ≡ true) × IsStored cs

-- The rows from row `p` of the first chunk on.
abbrev pub remaining : List Array → ℕ → List ℕ
remaining [] p = []
remaining (c ∷ cs) p = drop p (buffer_rows c) ++ buffer_column cs

abbrev pub Inside : List Array → ℕ → Type 0
Inside [] p = p ≡ 0
Inside (c ∷ cs) p = p ≤ c.length

pub Inside-zero : (cs : List Array) → Inside cs 0
Inside-zero [] = refl
Inside-zero (c ∷ cs) = omega arith

pub remaining_zero : (cs : List Array) → remaining cs 0 ≡ buffer_column cs
remaining_zero [] = refl
remaining_zero (c ∷ cs) = refl

pub length-buffer_rows :
    (c : Array) → c.length ≤ length c.values → length (buffer_rows c) ≡ c.length
length-buffer_rows c h = omega (arith, length-take c.length c.values)

pub length-remaining :
    (c : Array) (cs : List Array) (p : ℕ)
    → c.length ≤ length c.values
    → length (remaining (c ∷ cs) p) ≡ (c.length - p) + length (buffer_column cs)
length-remaining c cs p h = omega (
  arith,
  length-append (drop p (buffer_rows c)) (buffer_column cs),
  length-drop p (buffer_rows c),
  length-buffer_rows c h,
)

pub remaining_end :
    (c : Array) (cs : List Array) (p : ℕ)
    → c.length ≤ length c.values
    → p ≡ c.length
    → remaining (c ∷ cs) p ≡ remaining cs 0
remaining_end c cs p h e =
    ap (λ (t : List ℕ). t ++ buffer_column cs)
      (drop_all (buffer_rows c) p (omega (arith, length-buffer_rows c h)))
    ∙ sym (remaining_zero cs)
