-- ===== src/Jit/Interface.antt =====
-- What pefa/jit and the kernels use of LLVM, which is not part of the repository: the options as
-- records, the functions as an interface. Modules, layers, target machines and data layouts are
-- LLVM's own.
use pefa.Base.{ℕ, Bool, List, String, Option}
use pefa.Kernel.Object.{Compiled}
use pefa.Kernel.Ir.{Value}

pub data EngineKind : Type 0 where
  jit interpreter either : EngineKind

pub data CodeGenOptLevel : Type 0 where
  no_opt less default_opt aggressive : CodeGenOptLevel

pub data FpOpFusion : Type 0 where
  fast standard strict : FpOpFusion

pub record EngineBuilder : Type 0 where
  pub mcpu : String
  pub engine_kind : EngineKind
  pub opt_level : CodeGenOptLevel
  pub allow_fp_op_fusion : FpOpFusion

pub record Inliner : Type 0 where
  pub opt_level : ℕ
  pub size_level : ℕ
  pub disable_hot_call_site : Bool

pub record PassManagerBuilder : Type 0 where
  pub opt_level : ℕ
  pub size_level : ℕ
  pub inliner : Option Inliner
  pub loop_vectorize : Bool
  pub slp_vectorize : Bool
  pub verify_input : Bool

-- The passes that the code adds itself, and those that a builder adds, by number.
pub data Pass : Type 0 where
  verifier target_library_info target_transform_info : Pass
  built : ℕ → Pass

pub data Linkage : Type 0 where
  internal external : Linkage

-- What a function does: the emitted predicate, or one of the two functions that call it.
pub data Body : Type 0 where
  predicate_body : Value → Body
  filter_body filter_remaining_body : Compiled → Body

pub record IrFunction : Type 0 where
  pub name : String
  pub linkage : Linkage
  pub body : Body

-- A symbol with its address, `nullptr`, or an error.
pub data Symbol : Type 0 where
  found : ℕ → Symbol
  absent failed : Symbol

pub record Llvm (Mod Layers Machine Layout : Type 0) : Type 0 where
  pub host_cpu : String
  pub process_triple : String
  pub new_engine_builder : EngineBuilder
  pub select_target : EngineBuilder → Machine
  pub create_data_layout : Machine → Layout
  -- a module with its name, target triple, data layout and functions
  pub new_module : String → String → Layout → List IrFunction → Mod
  pub function_count : Mod → ℕ
  pub new_pass_builder : PassManagerBuilder
  pub adjust_pass_manager : Machine → PassManagerBuilder → PassManagerBuilder
  pub populate_function_passes : PassManagerBuilder → List Pass
  pub populate_module_passes : PassManagerBuilder → List Pass
  pub populate_lto_passes : PassManagerBuilder → List Pass
  -- function passes: before all functions, on the function of a number, behind all functions
  pub do_initialization : List Pass → Mod → Mod
  pub run_function_passes : List Pass → ℕ → Mod → Mod
  pub do_finalization : List Pass → Mod → Mod
  -- a pass of a module; none where it stops the program, as the verifier does for a broken module
  pub run_pass : Machine → Pass → Mod → Option Mod
  -- `ExecutionSession::allocateVModule`, by the number of keys that have been given out
  pub module_key : ℕ → ℕ
  pub new_layers : Layers
  -- `addModule` and `removeModule` of the compile layer; none for an error
  pub add_module : Layers → ℕ → Mod → Option Layers
  pub remove_module : Layers → ℕ → Option Layers
  -- the name, and whether only exported symbols are looked for
  pub find_symbol : Layers → String → Bool → Symbol
  pub mangle : Layout → String → String
  -- `RTDyldMemoryManager::getSymbolAddressInProcess`, 0 for no symbol
  pub address_in_process : String → ℕ
