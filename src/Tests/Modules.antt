-- ===== src/Tests/Modules.antt =====
-- Kernels on a JIT.
use pefa.Base.{ℕ, ◌+◌, ◌≡◌, refl, arith, true, false, List, [], ◌∷◌, length, some, ok, ◌>>=◌}
use pefa.Arrow.{TypeId, Field}
use pefa.Expressions.{boolean_expr, compare_expr, double_lit, ge}
use pefa.Kernel.Ir.{input, const_fp, fcmp, oge, f64}
use pefa.Kernel.Object
use pefa.Kernel.Object.{Compiled}
use pefa.Jit.{Jit, new_jit, add_module, find_symbol}
use pefa.Jit.Kernels.{
  KernelImpl, new_kernel, emit_code, compile, destroy, get_address, kernel_module, module_functions,
}
use pefa.Jit.Passes.{optimize_module}
use pefa.Jit.Compiled.{Installed}
use pefa.Jit.Table.{IsJit, new_jit-IsJit}
use pefa.Jit.Lifecycle.{
  recompiles, orphan, alive, World, Reaches, starts, steps, compiles, IsWorld, Reaches-IsWorld,
  Agree,
}
use pefa.Jit.Reuse.{compile-Object, compile_shadowed, destroy-compile}
use pefa.Jit.Drain.{destroy-Reaches, destroy_all, destroy_all-Reaches}
use pefa.Tests.Data.{test_arrow, test_floats}
use pefa.Tests.Machine.{Layers, test_llvm, test_llvm_laws}

abbrev x_field : Field
x_field = record { name = "x"; type = TypeId.double }

abbrev x_kernel : KernelImpl
x_kernel = record {
  field = x_field;
  expr = boolean_expr (compare_expr (record { name = "x" }) (record { value = double_lit 4 }) ge);
  module_key = 0;
  is_compiled = false;
  filter_func = 0;
  filter_remaining_func = 0;
}

abbrev x_code : Compiled
x_code = record { predicate = fcmp oge (input f64) (const_fp f64 4); element = f64 }

x_emitted : emit_code test_arrow test_floats x_field x_kernel.expr ≡ ok x_code
unfolding emit_code
x_emitted = refl

x_compiles :
    Object.compile test_arrow test_floats (Object.create_cpu x_field x_kernel.expr)
    ≡ ok (record { field = x_field; expr = x_kernel.expr; code = some x_code })
unfolding Object.compile Object.create_cpu
x_compiles = refl

empty-IsJit : IsJit test_llvm tt test_llvm_laws (new_jit test_llvm)
empty-IsJit = new_jit-IsJit test_llvm tt test_llvm_laws refl

compile-Object_example :
    Installed test_llvm tt test_llvm_laws x_kernel x_code
      (new_jit test_llvm)
      1
      1
      (compile test_arrow test_floats test_llvm (new_jit test_llvm) x_kernel)
unfolding new_jit
compile-Object_example =
    compile-Object test_arrow test_floats test_llvm tt test_llvm_laws (new_jit test_llvm) x_kernel
      x_code empty-IsJit x_compiles refl refl refl

-- The JIT with the module of the kernel.
abbrev loaded_jit : Jit Layers (Unit {0}) (Unit {0})
loaded_jit = record (new_jit test_llvm) {
  session = 1;
  resolvers = 1 ∷ [];
  layers = record { key = 1; contents = module_functions x_field x_code } ∷ [];
}

loaded_jit-IsJit : IsJit test_llvm tt test_llvm_laws loaded_jit
loaded_jit-IsJit = record {
  same_machine = refl;
  same_layout = refl;
  keys_given = (omega arith, tt);
  resolvers_given = (omega arith, tt);
  resolvers_counted = refl;
}

compile_shadowed_example :
    Installed test_llvm tt test_llvm_laws x_kernel x_code loaded_jit 1 1
      (compile test_arrow test_floats test_llvm loaded_jit x_kernel)
unfolding module_functions
compile_shadowed_example =
    compile_shadowed test_arrow test_floats test_llvm tt test_llvm_laws loaded_jit x_kernel x_code
      loaded_jit-IsJit x_emitted refl 1 refl refl

destroy-compile_example :
    (after : Jit Layers (Unit {0}) (Unit {0})) × ((compile test_arrow test_floats test_llvm
          loaded_jit x_kernel
        >>= λ p. destroy test_llvm (p.1) (p.0))
      ≡ ok after)
    × IsJit test_llvm tt test_llvm_laws after
    × (after.layers ≡ loaded_jit.layers)
    × (length after.resolvers ≡ length loaded_jit.resolvers + 1)
destroy-compile_example =
    destroy-compile test_arrow test_floats test_llvm tt test_llvm_laws loaded_jit x_kernel x_code
      loaded_jit-IsJit x_emitted refl

-- The kernel behind its compilation.
abbrev x_compiled : KernelImpl
x_compiled = record x_kernel {
  module_key = 1;
  is_compiled = true;
  filter_func = 101;
  filter_remaining_func = 101;
}

x_compilation :
    compile test_arrow test_floats test_llvm (new_jit test_llvm) x_kernel
    ≡ ok (x_compiled, loaded_jit)
unfolding compile new_jit add_module optimize_module find_symbol get_address emit_code kernel_module
x_compilation = refl

abbrev loaded : World Layers (Unit {0}) (Unit {0})
loaded = record { jit = loaded_jit; live = alive x_compiled ∷ [] }

loaded-Reaches : Reaches test_arrow test_floats test_llvm loaded
unfolding new_kernel
loaded-Reaches = steps starts (compiles x_field x_kernel.expr x_compilation)

Reaches-IsWorld_example : IsWorld test_arrow test_floats test_llvm tt test_llvm_laws loaded
Reaches-IsWorld_example =
    Reaches-IsWorld test_arrow test_floats test_llvm tt test_llvm_laws refl
      (λ field code typed. refl) loaded loaded-Reaches

destroy-Reaches_example :
    (after : Jit Layers (Unit {0}) (Unit {0})) × (destroy test_llvm loaded_jit x_compiled
      ≡ ok after)
    × Agree test_arrow test_floats test_llvm tt test_llvm_laws [] after.layers
destroy-Reaches_example =
    destroy-Reaches test_arrow test_floats test_llvm tt test_llvm_laws refl
      (λ field code typed. refl) loaded_jit [] [] x_compiled loaded-Reaches

-- The kernel compiled again: its module of before is an orphan, which its function pointers are to.
abbrev x_again : KernelImpl
x_again = record x_compiled { module_key = 2 }

abbrev again_jit : Jit Layers (Unit {0}) (Unit {0})
again_jit = record loaded_jit {
  session = 2;
  resolvers = 1 ∷ 2 ∷ [];
  layers =
      record { key = 1; contents = module_functions x_field x_code }
      ∷ record { key = 2; contents = module_functions x_field x_code }
      ∷ [];
}

x_recompilation :
    compile test_arrow test_floats test_llvm loaded_jit x_compiled ≡ ok (x_again, again_jit)
unfolding compile new_jit add_module optimize_module find_symbol get_address emit_code kernel_module
x_recompilation = refl

again-Reaches :
    Reaches test_arrow test_floats test_llvm
      (record { jit = again_jit; live = orphan ∷ alive x_again ∷ [] })
again-Reaches = steps loaded-Reaches (recompiles [] [] x_compiled x_recompilation)

destroy_all-Reaches_example :
    (after : Jit Layers (Unit {0}) (Unit {0})) × (destroy_all test_arrow test_floats test_llvm tt
        test_llvm_laws again_jit
        (orphan ∷ alive x_again ∷ [])
      ≡ ok after)
    × (length after.layers ≡ 1)
destroy_all-Reaches_example =
    destroy_all-Reaches test_arrow test_floats test_llvm tt test_llvm_laws refl
      (λ field code typed. refl) again_jit (orphan ∷ alive x_again ∷ []) again-Reaches

abbrev pointers : KernelImpl → List ℕ
pointers kernel = kernel.module_key ∷ kernel.filter_func ∷ kernel.filter_remaining_func ∷ []

-- One compilation, and one more for the same field while the first kernel is alive: the second kernel
-- has the functions of the first.
compiled_twice :
    (compile test_arrow test_floats test_llvm (new_jit test_llvm) x_kernel >>= λ p.
    compile test_arrow test_floats test_llvm (p.1) x_kernel >>= λ q.
    ok (pointers (p.0) ∷ pointers (q.0) ∷ []))
    ≡ ok ((1 ∷ 101 ∷ 101 ∷ []) ∷ (2 ∷ 101 ∷ 101 ∷ []) ∷ [])
unfolding compile new_jit add_module optimize_module find_symbol get_address emit_code kernel_module
compiled_twice = refl
