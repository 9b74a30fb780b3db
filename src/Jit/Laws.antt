-- ===== src/Jit/Laws.antt =====
-- What is documented of LLVM and relied on: passes keep what the functions of a module do, a layer
-- links the modules that it is given, under their keys, and finds the first function of a name.
use text.Mathlib.Text.{◌==◌ as str_eq}
use pefa.Base.{
  ℕ, ◌+◌, ◌<◌, ◌≡◌, ◌⊎◌, ◌==◌, if◌then◌else◌, Bool, true, List, [], ◌∷◌, ◌++◌, String, Option, none,
  some,
}
use pefa.Jit.Interface.{Pass, internal, external, Body, IrFunction, found, absent, Llvm}

-- The external function of a name.
abbrev pub external_body : List IrFunction → String → Option Body
external_body [] name = none
external_body (f ∷ fs) name =
    let rest = external_body fs name in
    elim (f.linkage) [
      | internal ↦ rest
      | external ↦ if str_eq f.name name then some (f.body) else rest
    ]

-- The module that is linked under a key, and the keys of the modules.
pub record Linked (Mod : Type 0) : Type 0 where
  pub key : ℕ
  pub contents : Mod

module _ {Mod : Type 0} where
  abbrev pub KeysBelow : ℕ → List (Linked Mod) → Type 0
  KeysBelow n [] = Unit {0}
  KeysBelow n (l ∷ ls) = (l.key < n) × KeysBelow n ls

  abbrev pub HasKey : ℕ → List (Linked Mod) → Type 0
  HasKey key [] = ⊥
  HasKey key (l ∷ ls) = (key ≡ l.key) ⊎ HasKey key ls

  abbrev pub erase : ℕ → List (Linked Mod) → List (Linked Mod)
  erase key [] = []
  erase key (l ∷ ls) = let rest = erase key ls in if key == l.key then ls else l ∷ rest

  -- The key of the first module that defines a name.
  abbrev pub first_key : (Mod → Option Body) → List (Linked Mod) → Option ℕ
  first_key defined [] = none
  first_key defined (l ∷ ls) =
      let rest = first_key defined ls in
      elim (defined l.contents) [ none ↦ rest | some b ↦ some (l.key) ]

-- `defines` is what the external function of a name does, `linked` has the modules of a layer, and
-- `placed` is the address of a function of a name in the module of a key.
pub record LlvmLaws {Mod Layers Machine Layout : Type 0} (llvm : Llvm Mod Layers Machine Layout)
    (machine : Machine) : Type 0 where
  pub is_verified : Mod → Bool
  pub defines : Mod → String → Option Body
  pub linked : Layers → List (Linked Mod)
  pub placed : ℕ → String → ℕ
  -- a new module defines the external functions that were built into it
  pub new_module_defines :
      (name triple : String) (layout : Layout) (functions : List IrFunction) (f : String)
      → defines (llvm.new_module name triple layout functions) f ≡ external_body functions f
  -- function passes keep modules verified, and what their functions do
  pub initialization_verified :
      (passes : List Pass) (m : Mod)
      → is_verified m ≡ true
      → is_verified (llvm.do_initialization passes m) ≡ true
  pub initialization_keeps :
      (passes : List Pass) (m : Mod) (f : String)
      → defines (llvm.do_initialization passes m) f ≡ defines m f
  pub function_passes_verified :
      (passes : List Pass) (i : ℕ) (m : Mod)
      → is_verified m ≡ true
      → is_verified (llvm.run_function_passes passes i m) ≡ true
  pub function_passes_keep :
      (passes : List Pass) (i : ℕ) (m : Mod) (f : String)
      → defines (llvm.run_function_passes passes i m) f ≡ defines m f
  pub finalization_verified :
      (passes : List Pass) (m : Mod)
      → is_verified m ≡ true
      → is_verified (llvm.do_finalization passes m) ≡ true
  pub finalization_keeps :
      (passes : List Pass) (m : Mod) (f : String)
      → defines (llvm.do_finalization passes m) f ≡ defines m f
  -- so do the passes of a module, which do not stop on one that is verified
  pub pass_runs :
      (pass : Pass) (m : Mod)
      → is_verified m ≡ true
      → (after : Mod) × (llvm.run_pass machine pass m ≡ some after)
        × (is_verified after ≡ true)
        × ((f : String) → defines after f ≡ defines m f)
  -- keys are given out in their order
  pub keys_increase : (n : ℕ) → llvm.module_key n < llvm.module_key (n + 1)
  pub nothing_linked : linked llvm.new_layers ≡ []
  -- the modules of a layer are kept in the order of their keys
  pub module_added :
      (layers : Layers) (key : ℕ) (m : Mod)
      → KeysBelow key (linked layers)
      → (after : Layers) × (llvm.add_module layers key m ≡ some after)
        × (linked after ≡ linked layers ++ record { key = key; contents = m } ∷ [])
  pub module_removed :
      (layers : Layers) (key : ℕ)
      → HasKey key (linked layers)
      → (after : Layers) × (llvm.remove_module layers key ≡ some after)
        × (linked after ≡ erase key (linked layers))
  pub symbol_found :
      (layers : Layers) (f : String)
      → llvm.find_symbol layers (llvm.mangle (llvm.create_data_layout machine) f) true
        ≡ (elim (first_key (λ (m : Mod). defines m f) (linked layers)) [
          | none ↦ absent
          | some key ↦ found (placed key f)
        ])
