-- ===== src/Program/Laws.antt =====
-- What is relied on of the code that LLVM places in memory, and the JITs between two kernels.
use pefa.Base.{ℕ, ◌≡◌, ◌⊎◌, List, [], ◌∷◌, String, Option, none, some}
use pefa.Jit.Interface.{Body, Llvm}
use pefa.Jit.{Jit, new_jit, create_engine_builder, get_jit}
use pefa.Jit.Laws.{Linked, LlvmLaws}
use pefa.Jit.Keys.{Distinct}
use pefa.Jit.Table.{IsJit, new_jit-IsJit}
use pefa.Program.Filter.{Static}

abbrev pub IsLinked : {Mod : Type 0} → Linked Mod → List (Linked Mod) → Type 0
IsLinked l [] = ⊥
IsLinked l (x ∷ xs) = (l ≡ x) ⊎ IsLinked l xs

module _ {Mod Layers Machine Layout : Type 0} (llvm : Llvm Mod Layers Machine Layout)
    (machine : Machine) (laws : LlvmLaws llvm machine) where
  -- At the address of a function of a linked module there is code that does what the function does, as
  -- long as no two modules have one key.
  pub record CodeLaws (code_at : Layers → ℕ → Option Body) : Type 0 where
    pub placed_code :
        (layers : Layers) (l : Linked Mod) (f : String) (b : Body)
        → Distinct (laws.linked layers)
        → IsLinked l (laws.linked layers)
        → laws.defines l.contents f ≡ some b
        → code_at layers (laws.placed l.key f) ≡ some b

  -- A valid JIT on which no kernel is alive.
  pub record IsIdle (jit : Jit Layers Machine Layout) : Type 0 where
    pub valid : IsJit llvm machine laws jit
    pub no_modules : laws.linked jit.layers ≡ []

  -- The static variable is null, or has such a JIT.
  abbrev pub IsQuiet : Static Layers Machine Layout → Type 0
  IsQuiet none = Unit {0}
  IsQuiet (some jit) = IsIdle jit

  pub get_jit-IsIdle :
      machine ≡ llvm.select_target (create_engine_builder llvm)
      → (static : Static Layers Machine Layout) → IsQuiet static
      → IsIdle (get_jit llvm static)
  unfolding get_jit
  get_jit-IsIdle same none quiet = record {
    valid = new_jit-IsJit llvm machine laws same;
    no_modules = unfold new_jit in laws.nothing_linked;
  }
  get_jit-IsIdle same (some jit) quiet = quiet
