-- ===== src/Program/Kernels.antt =====
-- `execute`, `execute_remaining` and the lifetime of `FitlerKernelImpl`, pefa/kernels/filter.cpp, on
-- the JIT. `code_at` has the functions that the layers of LLVM have placed in memory.
use pefa.Base.{
  ℕ, if◌then◌else◌, List, Option, none, some, Outcome, throw, fault, Fault, ok, ◌>>=◌,
  kernel_not_compiled, not_implemented,
}
use pefa.Base.Exec.{Exec, call, scoped}
use pefa.Base.Exec
use pefa.Arrow.{Arrow, Array, Field}
use pefa.Expressions.{Expr}
use pefa.Kernel.Ir.{Floats}
use pefa.Kernel.Object.{Compiled, FilterMethods, execute_with, execute_remaining_with}
use pefa.Jit.Interface.{Body, predicate_body, filter_body, filter_remaining_body, Llvm}
use pefa.Jit.{Jit}
use pefa.Jit.Kernels.{KernelImpl, compile, destroy, new_kernel}

-- What the function at an address is compiled from, if it is one of the kind that is called.
unfoldable pub as_filter : Option Body → Outcome Compiled
as_filter none = fault Fault.no_function
as_filter (some (predicate_body p)) = fault Fault.no_function
as_filter (some (filter_body code)) = ok code
as_filter (some (filter_remaining_body code)) = fault Fault.no_function

unfoldable pub as_filter_remaining : Option Body → Outcome Compiled
as_filter_remaining none = fault Fault.no_function
as_filter_remaining (some (predicate_body p)) = fault Fault.no_function
as_filter_remaining (some (filter_body code)) = fault Fault.no_function
as_filter_remaining (some (filter_remaining_body code)) = ok code

module _ (arrow : Arrow) (floats : Floats) where
  -- The call of `m_filter_func`, on a type of fixed width.
  unfoldable pub execute_at : Option ℕ → Option Body → Array → List ℕ → ℕ → ℕ → Outcome (List ℕ)
  unfolding as_filter execute_with
  execute_at none body column dest out offset =
      throw (not_implemented "Variable length type filtering does not implemented yet")
  execute_at (some width) body column dest out offset = do
    code ← as_filter body
    execute_with arrow floats (some width) code column dest out offset

  unfoldable pub execute_remaining_at :
      Option ℕ → Option Body → Array → List ℕ → ℕ → ℕ → ℕ → Outcome (List ℕ)
  unfolding as_filter_remaining execute_remaining_with
  execute_remaining_at none body column dest out array_offset bit_offset =
      throw (not_implemented "Variable length type filtering does not implemented yet")
  execute_remaining_at (some width) body column dest out array_offset bit_offset = do
    code ← as_filter_remaining body
    execute_remaining_with arrow floats (some width) code column dest out array_offset bit_offset

  module _ (code_at : ℕ → Option Body) (kernel : KernelImpl) where
    unfoldable pub execute : Array → List ℕ → ℕ → ℕ → Outcome (List ℕ)
    unfolding execute_at
    execute column dest out offset =
        if kernel.is_compiled
        then execute_at (arrow.bit_width column.type) (code_at kernel.filter_func) column dest out
            offset
        else throw kernel_not_compiled

    unfoldable pub execute_remaining : Array → List ℕ → ℕ → ℕ → ℕ → Outcome (List ℕ)
    unfolding execute_remaining_at
    execute_remaining column dest out array_offset bit_offset =
        if kernel.is_compiled
        then execute_remaining_at (arrow.bit_width column.type)
            (code_at kernel.filter_remaining_func) column dest out array_offset bit_offset
        else throw kernel_not_compiled

    abbrev pub kernel_methods : FilterMethods
    kernel_methods = record { execute_chunk = execute; execute_edge = execute_remaining }

  module _ {Mod Layers Machine Layout : Type 0} (llvm : Llvm Mod Layers Machine Layout) where
    -- A kernel from `create_cpu` on: it is compiled, does what it is made for, and is destroyed.
    unfoldable pub with_kernel :
        {A : Type 0}
        → Field
        → Expr
        → (KernelImpl → Exec (Jit Layers Machine Layout) A)
        → Exec (Jit Layers Machine Layout) A
    unfolding new_kernel compile destroy
    with_kernel field expr body =
        Exec.◌>>=◌ (call (λ jit. compile arrow floats llvm jit (new_kernel field expr)))
          (λ kernel. scoped (λ jit. destroy llvm jit kernel) (body kernel))
