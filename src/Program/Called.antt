-- ===== src/Program/Called.antt =====
-- A kernel that is called by the addresses that it found.
use mathlib.Core.Path.{fun_ext}
use pefa.Base.{ℕ, ◌≡◌, refl, ap₂, true, List, Option, none, some}
use pefa.Arrow.{Arrow, Array, Field}
use pefa.Expressions.{Expr}
use pefa.Kernel.Ir.{Floats}
use pefa.Kernel.Object.{Compiled, FilterKernel, FilterMethods}
use pefa.Kernel.Object
use pefa.Jit.Interface.{Body, filter_body, filter_remaining_body}
use pefa.Jit.Kernels.{KernelImpl}
use pefa.Program.Kernels.{
  execute_at, execute_remaining_at, execute, execute_remaining, kernel_methods,
}

-- The kernel that is called without a JIT.
abbrev pub own_kernel : Field → Expr → Compiled → FilterKernel
own_kernel field expr code = record { field = field; expr = expr; code = some code }

module _ (arrow : Arrow) (floats : Floats) where
  -- A kernel whose pointers are the addresses of functions that do what its code says.
  pub record Callable (code_at : ℕ → Option Body) (kernel : KernelImpl) (code : Compiled)
      : Type 0 where
    pub compiled : kernel.is_compiled ≡ true
    pub filter_at : code_at kernel.filter_func ≡ some (filter_body code)
    pub remaining_at : code_at kernel.filter_remaining_func ≡ some (filter_remaining_body code)

  execute_at-with :
      (width : Option ℕ) (code : Compiled) (column : Array) (dest : List ℕ) (out offset : ℕ)
      → execute_at arrow floats width (some (filter_body code)) column dest out offset
        ≡ Object.execute_with arrow floats width code column dest out offset
  unfolding execute_at Object.execute_with
  execute_at-with none code column dest out offset = refl
  execute_at-with (some width) code column dest out offset = refl

  execute_remaining_at-with :
      (width : Option ℕ) (code : Compiled) (column : Array) (dest : List ℕ)
      (out array_offset bit_offset : ℕ)
      → execute_remaining_at arrow floats width
          (some (filter_remaining_body code))
          column
          dest
          out
          array_offset
          bit_offset
        ≡ Object.execute_remaining_with arrow floats width code column dest out array_offset
            bit_offset
  unfolding execute_remaining_at Object.execute_remaining_with
  execute_remaining_at-with none code column dest out array_offset bit_offset = refl
  execute_remaining_at-with (some width) code column dest out array_offset bit_offset = refl

  module _ (code_at : ℕ → Option Body) (kernel : KernelImpl) (code : Compiled) (field : Field)
      (expr : Expr) (callable : Callable code_at kernel code) where
    execute-Object :
        (column : Array) (dest : List ℕ) (out offset : ℕ)
        → execute arrow floats code_at kernel column dest out offset
          ≡ Object.execute arrow floats (own_kernel field expr code) column dest out offset
    unfolding execute Object.execute
    execute-Object column dest out offset =
        rw (callable.compiled, callable.filter_at)
          (execute_at-with (arrow.bit_width column.type) code column dest out offset)

    execute_remaining-Object :
        (column : Array) (dest : List ℕ) (out array_offset bit_offset : ℕ)
        → execute_remaining arrow floats code_at kernel column dest out array_offset bit_offset
          ≡ Object.execute_remaining arrow floats
              (own_kernel field expr code)
              column
              dest
              out
              array_offset
              bit_offset
    unfolding execute_remaining Object.execute_remaining
    execute_remaining-Object column dest out array_offset bit_offset =
        rw (callable.compiled, callable.remaining_at)
          (execute_remaining_at-with (arrow.bit_width column.type) code column dest out array_offset
            bit_offset)

    pub kernel_methods-Object :
        kernel_methods arrow floats code_at kernel
        ≡ Object.kernel_methods arrow floats (own_kernel field expr code)
    kernel_methods-Object =
        ap₂ (λ chunk edge. record { execute_chunk = chunk; execute_edge = edge })
          (fun_ext λ column.
            fun_ext λ dest. fun_ext λ out. fun_ext λ offset. execute-Object column dest out offset)
          (fun_ext λ column. fun_ext λ dest. fun_ext λ out.
            fun_ext λ start. fun_ext λ bits. execute_remaining-Object column dest out start bits)
