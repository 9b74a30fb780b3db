-- ===== src/Jit.antt =====
-- pefa/jit/jit.h and jit.cpp: the table of compiled modules, on the layers of LLVM. A call of `cantFail`
-- that fails is the fault `llvm_error`.
pub mod Interface
pub mod Passes
pub mod Kernels
pub mod Laws
pub mod Optimized
pub mod Table
pub mod Compiled
pub mod Keys
pub mod Verified
pub mod Lifecycle
pub mod Reuse
pub mod Drain
use pefa.Base.{
  ℕ, ◌+◌, ◌==◌, if◌then◌else◌, true, false, List, [], ◌∷◌, String, Option, none, some, Outcome, ok,
  Fault, ◌>>=◌, deref,
}
use pefa.Jit.Interface.{
  EngineKind, CodeGenOptLevel, FpOpFusion, EngineBuilder, Symbol, found, absent, failed, Llvm,
}
use pefa.Jit.Passes.{optimize_module}

-- `session` is the number of keys that the session has given out. Every resolver of the map
-- `m_resolvers` is the same closure, which is `resolve` below, so the map is the list of its keys.
pub record Jit (Layers Machine Layout : Type 0) : Type 0 where
  pub engine_builder : EngineBuilder
  pub session : ℕ
  pub resolvers : List ℕ
  pub target_machine : Machine
  pub data_layout : Layout
  pub layers : Layers

unfoldable pub get_target_machine :
    {Layers Machine Layout : Type 0} → Jit Layers Machine Layout → Machine
get_target_machine jit = jit.target_machine

-- `m_resolvers[key] = ...`
unfoldable pub insert_key : ℕ → List ℕ → List ℕ
insert_key key [] = key ∷ []
insert_key key (k ∷ ks) = let rest = insert_key key ks in if key == k then k ∷ ks else k ∷ rest

module _ {Mod Layers Machine Layout : Type 0} (llvm : Llvm Mod Layers Machine Layout) where
  unfoldable pub create_engine_builder : EngineBuilder
  create_engine_builder =
      let with_cpu = record (llvm.new_engine_builder) { mcpu = llvm.host_cpu } in
      let with_kind = record with_cpu { engine_kind = EngineKind.jit } in
      let with_level = record with_kind { opt_level = CodeGenOptLevel.aggressive } in
      let with_options = record with_level { allow_fp_op_fusion = FpOpFusion.fast } in
      record with_options { mcpu = llvm.host_cpu }

  -- `JIT::JIT`
  unfoldable pub new_jit : Jit Layers Machine Layout
  unfolding create_engine_builder
  new_jit =
      let machine = llvm.select_target create_engine_builder in
      record {
        engine_builder = create_engine_builder;
        session = 0;
        resolvers = [];
        target_machine = machine;
        data_layout = llvm.create_data_layout machine;
        layers = llvm.new_layers;
      }

  -- How the code of a module finds the functions that it calls, by their mangled names.
  unfoldable pub resolve : Jit Layers Machine Layout → String → Symbol
  resolve jit name = elim (llvm.find_symbol jit.layers name false) [
    | found address ↦ found address
    | failed ↦ failed
    | absent ↦
        if llvm.address_in_process name == 0 then absent else found (llvm.address_in_process name)
  ]

  -- The transform layer hands the optimized module on to the compile layer.
  unfoldable pub add_module :
      Jit Layers Machine Layout → Mod → Outcome (ℕ × Jit Layers Machine Layout)
  unfolding insert_key
  add_module jit m = do
    let key = llvm.module_key jit.session
    let keyed = record jit { session = jit.session + 1; resolvers = insert_key key jit.resolvers }
    optimized ← optimize_module llvm jit.target_machine m
    layers ← deref (llvm.add_module jit.layers key optimized) Fault.llvm_error
    ok (key, record keyed { layers = layers })

  unfoldable pub find_symbol : Jit Layers Machine Layout → String → Symbol
  find_symbol jit name = llvm.find_symbol jit.layers (llvm.mangle jit.data_layout name) true

  unfoldable pub remove_module : Jit Layers Machine Layout → ℕ → Outcome (Jit Layers Machine Layout)
  remove_module jit key = do
    layers ← deref (llvm.remove_module jit.layers key) Fault.llvm_error
    ok (record jit { layers = layers })

  -- `get_JIT`, from the static variable, null at first, to the variable behind the call.
  unfoldable pub get_jit : Option (Jit Layers Machine Layout) → Jit Layers Machine Layout
  unfolding new_jit
  get_jit none = new_jit
  get_jit (some jit) = jit
