-- ===== src/Tests/Machine.antt =====
-- A JIT of lists: a module is the list of its functions, which no pass changes.
use pefa.Base.{ℕ, ◌+◌, refl, arith, true, false, List, [], ◌∷◌, ◌++◌, length, String, none, some}
use pefa.Jit.Interface.{
  EngineKind, CodeGenOptLevel, FpOpFusion, IrFunction, Symbol, found, absent, Llvm,
}
use pefa.Jit.Laws.{Linked, external_body, erase, first_key, LlvmLaws}

abbrev pub Functions : Type 0
Functions = List IrFunction

abbrev pub Layers : Type 0
Layers = List (Linked Functions)

-- `placed` is where a function of a name in the module of a key stands.
abbrev first_symbol : (ℕ → String → ℕ) → Layers → String → Symbol
first_symbol placed layers name =
    elim (first_key (λ (m : Functions). external_body m name) layers) [
      | none ↦ absent
      | some key ↦ found (placed key name)
    ]

abbrev pub llvm_at : (ℕ → String → ℕ) → Llvm Functions Layers (Unit {0}) (Unit {0})
llvm_at placed = record {
  host_cpu = "cpu";
  process_triple = "triple";
  new_engine_builder = record {
    mcpu = "";
    engine_kind = EngineKind.either;
    opt_level = CodeGenOptLevel.default_opt;
    allow_fp_op_fusion = FpOpFusion.standard;
  };
  select_target = λ builder. tt;
  create_data_layout = λ machine. tt;
  new_module = λ name triple layout functions. functions;
  function_count = λ m. length m;
  new_pass_builder = record {
    opt_level = 2;
    size_level = 0;
    inliner = none;
    loop_vectorize = false;
    slp_vectorize = false;
    verify_input = false;
  };
  adjust_pass_manager = λ machine builder. builder;
  populate_function_passes = λ builder. [];
  populate_module_passes = λ builder. [];
  populate_lto_passes = λ builder. [];
  do_initialization = λ passes m. m;
  run_function_passes = λ passes i m. m;
  do_finalization = λ passes m. m;
  run_pass = λ machine pass m. some m;
  module_key = λ n. n + 1;
  new_layers = [];
  add_module = λ layers key m. some (layers ++ record { key = key; contents = m } ∷ []);
  remove_module = λ layers key. some (erase key layers);
  find_symbol = λ layers name exported. first_symbol placed layers name;
  mangle = λ layout name. name;
  address_in_process = λ name. 0;
}

abbrev pub llvm_at_laws : (placed : ℕ → String → ℕ) → LlvmLaws (llvm_at placed) tt
llvm_at_laws placed = record {
  is_verified = λ m. true;
  defines = external_body;
  linked = λ layers. layers;
  placed = placed;
  new_module_defines = λ name triple layout functions f. refl;
  initialization_verified = λ passes m h. refl;
  initialization_keeps = λ passes m f. refl;
  function_passes_verified = λ passes i m h. refl;
  function_passes_keep = λ passes i m f. refl;
  finalization_verified = λ passes m h. refl;
  finalization_keeps = λ passes m f. refl;
  pass_runs = λ pass m h. (m, refl, refl, λ f. refl);
  keys_increase = λ n. omega arith;
  nothing_linked = refl;
  module_added = λ layers key m below. (_, refl, refl);
  module_removed = λ layers key has. (_, refl, refl);
  symbol_found = λ layers f. refl;
}

-- A function is at the key of its module, above 0.
abbrev pub at_key : ℕ → String → ℕ
at_key key name = key + 100

abbrev pub test_llvm : Llvm Functions Layers (Unit {0}) (Unit {0})
test_llvm = llvm_at at_key

abbrev pub test_llvm_laws : LlvmLaws test_llvm tt
test_llvm_laws = llvm_at_laws at_key
