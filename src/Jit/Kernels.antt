-- ===== src/Jit/Kernels.antt =====
-- `compile` and the destructor of `FitlerKernelImpl`, pefa/kernels/filter.cpp, on the JIT that the kernels
-- share.
use Prim.Native.String.{◌++◌}
use pefa.Base.{
  ℕ, Bool, true, false, if◌then◌else◌, List, [], ◌∷◌, String, Outcome, ok, fault, Fault, ◌>>=◌,
  deref,
}
use pefa.Arrow.{Arrow, Field}
use pefa.Expressions.{Expr}
use pefa.Kernel.Ir.{Floats, from_arrow}
use pefa.Kernel.Emit.{gen_predicate_func}
use pefa.Kernel.Object.{Compiled}
use pefa.Jit.Interface.{
  Linkage, predicate_body, filter_body, filter_remaining_body, IrFunction, Symbol, found, absent,
  failed, Llvm,
}
use pefa.Jit.{Jit, get_target_machine, add_module, find_symbol, remove_module}

-- The function pointers are addresses, 0 for null.
pub record KernelImpl : Type 0 where
  pub field : Field
  pub expr : Expr
  pub module_key : ℕ
  pub is_compiled : Bool
  pub filter_func : ℕ
  pub filter_remaining_func : ℕ

unfoldable pub new_kernel : Field → Expr → KernelImpl
new_kernel field expr = record {
  field = field;
  expr = expr;
  module_key = 0;
  is_compiled = false;
  filter_func = 0;
  filter_remaining_func = 0;
}

abbrev pub filter_name : Field → String
filter_name field = field.name ++ "_filter"

abbrev pub filter_remaining_name : Field → String
filter_remaining_name field = field.name ++ "_filter_remaining"

-- The functions of a kernel's module, in the order in which they are emitted.
unfoldable pub module_functions : Field → Compiled → List IrFunction
module_functions field code =
    record {
      name = field.name ++ "_predicate";
      linkage = Linkage.internal;
      body = predicate_body (code.predicate);
    }
    ∷ record { name = filter_name field; linkage = Linkage.external; body = filter_body code }
    ∷ record {
      name = filter_remaining_name field;
      linkage = Linkage.external;
      body = filter_remaining_body code;
    }
    ∷ []

-- `getAddress().get()`
unfoldable pub get_address : Symbol → Outcome ℕ
get_address (found address) = ok address
get_address absent = ok 0
get_address failed = fault Fault.llvm_error

module _ {Mod Layers Machine Layout : Type 0} (llvm : Llvm Mod Layers Machine Layout) where
  unfoldable pub kernel_module : Machine → Field → Compiled → Mod
  unfolding module_functions
  kernel_module machine field code =
      llvm.new_module (field.name ++ "_filter_mod") llvm.process_triple
        (llvm.create_data_layout machine) (module_functions field code)

  -- `~FitlerKernelImpl`
  unfoldable pub destroy :
      Jit Layers Machine Layout → KernelImpl → Outcome (Jit Layers Machine Layout)
  unfolding remove_module
  destroy jit kernel =
      if kernel.is_compiled then remove_module llvm jit kernel.module_key else ok jit

module _ (arrow : Arrow) (floats : Floats) where
  -- What the three functions of the module are emitted from. A predicate that returns nothing, though its
  -- type is i1, is an error to the verifier, with which the module's optimization begins.
  unfoldable pub emit_code : Field → Expr → Outcome Compiled
  unfolding gen_predicate_func from_arrow
  emit_code field expr = do
    returned ← gen_predicate_func arrow floats field expr
    element ← from_arrow arrow field.type
    predicate ← deref returned Fault.llvm_error
    ok (record { predicate = predicate; element = element })

  module _ {Mod Layers Machine Layout : Type 0} (llvm : Llvm Mod Layers Machine Layout) where
    unfoldable pub compile :
        Jit Layers Machine Layout → KernelImpl → Outcome (KernelImpl × Jit Layers Machine Layout)
    unfolding get_target_machine
    compile jit kernel = do
      code ← emit_code kernel.field kernel.expr
      (key, after) ←
          add_module llvm jit (kernel_module llvm (get_target_machine jit) kernel.field code)
      filter_func ← get_address (find_symbol llvm after (filter_name kernel.field))
      filter_remaining_func ←
          get_address (find_symbol llvm after (filter_remaining_name kernel.field))
      ok (
        record kernel {
          module_key = key;
          is_compiled = true;
          filter_func = filter_func;
          filter_remaining_func = filter_remaining_func;
        },
        after,
      )
