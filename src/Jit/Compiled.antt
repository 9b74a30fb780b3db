-- ===== src/Jit/Compiled.antt =====
-- Which functions a kernel finds when it is compiled.
use Prim.Native.String.{◌++◌}
use mathlib.Core.Path.{subst}
use text.Mathlib.Text.{◌==◌ as str_eq}
use text.Mathlib.TextEquality.{eq_iff}
use text.Mathlib.TextPositions.{eq_refl}
use text.Mathlib.TextLemmas.{append_cancel_left}
use pefa.Base.{
  Option-cases, ℕ, ◌+◌, ◌≡◌, ◌≢◌, ◌∙◌, refl, sym, ap, true, false, Bool-cases, inl, inr, List, [],
  ◌∷◌, ◌++◌ as append, String, Option, none, some, Outcome, ok,
}
use pefa.Arrow.{Arrow, Field}
use pefa.Kernel.Ir.{Floats}
use pefa.Kernel.Object.{Compiled}
use pefa.Jit.Interface.{Body, filter_body, filter_remaining_body, Llvm}
use pefa.Jit.{Jit, find_symbol}
use pefa.Jit.Kernels.{
  KernelImpl, filter_name, filter_remaining_name, module_functions, emit_code, kernel_module,
  get_address, compile,
}
use pefa.Jit.Laws.{Linked, external_body, first_key, LlvmLaws}
use pefa.Jit.Table.{IsJit, Added, add_module-Added}

suffixes_differ : ◌≢◌ {A = String} "_filter" "_filter_remaining"
suffixes_differ same = let e : true ≡ false = ap (str_eq "_filter") same in cc

names_differ : (name : String) → str_eq (name ++ "_filter") (name ++ "_filter_remaining") ≡ false
names_differ name = elim (Bool-cases (str_eq (name ++ "_filter") (name ++ "_filter_remaining"))) [
  | inl same ↦ absurd (
      suffixes_differ (append_cancel_left name "_filter" "_filter_remaining" ((eq_iff _ _).0 same)))
  | inr different ↦ different
]

module _ (field : Field) (code : Compiled) where
  external_body_filter :
      external_body (module_functions field code) (filter_name field) ≡ some (filter_body code)
  unfolding module_functions
  external_body_filter = rw (eq_refl (filter_name field)) refl

  external_body_remaining :
      external_body (module_functions field code) (filter_remaining_name field)
      ≡ some (filter_remaining_body code)
  unfolding module_functions
  external_body_remaining = rw (names_differ field.name, eq_refl (filter_remaining_name field)) refl

module _ {Mod : Type 0} (defined : Mod → Option Body) where
  -- The key of the first module that defines a name, once one more has been linked that does.
  first_key_last :
      (ls : List (Linked Mod)) (l : Linked Mod) {b : Body}
      → defined l.contents ≡ some b
      → first_key defined (append ls (l ∷ []))
        ≡ some (elim (first_key defined ls) [ none ↦ l.key | some key ↦ key ])
  first_key_last [] l h = rw h refl
  first_key_last (x ∷ ls) l h = elim (Option-cases (defined x.contents)) [
    | inl missing ↦ rw missing (first_key_last ls l h)
    | inr (b, defines) ↦ rw defines refl
  ]

-- The owner of a name: the module whose function is found, if the next one defines it too.
module _ {Mod Layers Machine Layout : Type 0} (llvm : Llvm Mod Layers Machine Layout)
    (machine : Machine) (laws : LlvmLaws llvm machine) (jit : Jit Layers Machine Layout) where
  abbrev pub holder : String → Option ℕ
  holder name = first_key (λ (m : Mod). laws.defines m name) (laws.linked jit.layers)

  abbrev pub owner : String → ℕ
  owner name = elim (holder name) [ none ↦ llvm.module_key jit.session | some key ↦ key ]

  -- A function of a module that has been added is found in the module of its owner.
  find_symbol-Added :
      (m : Mod) (added : Added llvm machine laws jit m) (name : String) {b : Body}
      → laws.defines m name ≡ some b
      → get_address (find_symbol llvm added.after name) ≡ ok (laws.placed (owner name) name)
  unfolding find_symbol get_address
  find_symbol-Added m added name defined =
      rw
        (
          added.valid.same_layout,
          laws.symbol_found added.after.layers name,
          added.linked_after,
          first_key_last (λ (n : Mod). laws.defines n name) (laws.linked jit.layers)
              (record { key = llvm.module_key jit.session; contents = added.optimized })
              (added.kept.same name ∙ defined),
        )
        refl

-- The kernel behind `compile`, which has given it the functions of the modules of `filter` and
-- `remaining`.
module _ {Mod Layers Machine Layout : Type 0} (llvm : Llvm Mod Layers Machine Layout)
    (machine : Machine) (laws : LlvmLaws llvm machine) where
  abbrev pub installed : KernelImpl → ℕ → ℕ → ℕ → KernelImpl
  installed kernel key filter remaining = record kernel {
    module_key = key;
    is_compiled = true;
    filter_func = laws.placed filter (filter_name kernel.field);
    filter_remaining_func = laws.placed remaining (filter_remaining_name kernel.field);
  }

  -- A kernel has been compiled to a module, with its functions, under the next key.
  pub record Installed (kernel : KernelImpl) (code : Compiled) (jit : Jit Layers Machine Layout)
      (filter remaining : ℕ) (result : Outcome (KernelImpl × Jit Layers Machine Layout))
      : Type 0 where
    pub contents : Mod
    pub after : Jit Layers Machine Layout
    pub returns :
        result ≡ ok (installed kernel (llvm.module_key jit.session) filter remaining, after)
    pub valid : IsJit llvm machine laws after
    pub next_session : after.session ≡ jit.session + 1
    pub linked_after :
        laws.linked after.layers
        ≡ append
            (laws.linked jit.layers)
            (record { key = llvm.module_key jit.session; contents = contents } ∷ [])
    pub filter_defined : laws.defines contents (filter_name kernel.field) ≡ some (filter_body code)
    pub remaining_defined :
        laws.defines contents (filter_remaining_name kernel.field)
        ≡ some (filter_remaining_body code)

  module _ (arrow : Arrow) (floats : Floats) (jit : Jit Layers Machine Layout) (kernel : KernelImpl)
      (code : Compiled) (valid : IsJit llvm machine laws jit)
      (emitted : emit_code arrow floats kernel.field kernel.expr ≡ ok code)
      (verified : laws.is_verified (kernel_module llvm machine kernel.field code) ≡ true) where
    pub compile-Installed :
        Installed kernel code jit
          (owner llvm machine laws jit (filter_name kernel.field))
          (owner llvm machine laws jit (filter_remaining_name kernel.field))
          (compile arrow floats llvm jit kernel)
    unfolding compile
    compile-Installed =
        let m = kernel_module llvm jit.target_machine kernel.field code in
        let filter_built : laws.defines m (filter_name kernel.field) ≡ some (filter_body code) =
          unfold kernel_module in
          laws.new_module_defines _ _ _ _ _ ∙ external_body_filter kernel.field code in
        let remaining_built : laws.defines m (filter_remaining_name kernel.field)
            ≡ some (filter_remaining_body code) =
          unfold kernel_module in
          laws.new_module_defines _ _ _ _ _ ∙ external_body_remaining kernel.field code in
        let added = add_module-Added llvm machine laws jit m valid (
          subst (λ (t : Machine). laws.is_verified (kernel_module llvm t kernel.field code) ≡ true)
            (sym valid.same_machine) verified) in
        record {
          contents = added.optimized;
          after = added.after;
          returns =
              rw
                (
                  emitted,
                  added.returns,
                  find_symbol-Added llvm machine laws jit m added (filter_name kernel.field)
                      filter_built,
                  find_symbol-Added llvm machine laws jit m added
                      (filter_remaining_name kernel.field) remaining_built,
                )
                refl;
          valid = added.valid;
          next_session = added.next_session;
          linked_after = added.linked_after;
          filter_defined = added.kept.same (filter_name kernel.field) ∙ filter_built;
          remaining_defined =
              added.kept.same (filter_remaining_name kernel.field) ∙ remaining_built;
        }
