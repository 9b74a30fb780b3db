-- ===== src/Kernel/Object.antt =====
-- `FitlerKernelImpl` of pefa/kernels/filter.cpp. A kernel finds the functions of its own module:
-- no other kernel for a field of that name is alive.
use pefa.Base.{
  ℕ, ◌+◌, ◌-◌, ◌*◌, ◌/◌, ◌%◌, ◌^◌, min, ◌==◌, if◌then◌else◌, Bool, List, Option, none, some,
  get_elem?, Outcome, ok, throw, fault, Fault, ◌>>=◌, deref, kernel_not_compiled, not_implemented,
}
use pefa.Arrow.{Arrow, Field, Array}
use pefa.Expressions.{Expr}
use pefa.Kernel.Ir.{Ty, Value, Floats, int_width, from_arrow, eval}
use pefa.Kernel.Emit.{gen_predicate_func}
use pefa.Kernel.Code.{filter, filter_remaining}

-- What `compile` leaves: the emitted predicate and the type that the source pointers are cast to.
pub record Compiled : Type 0 where
  pub predicate : Value
  pub element : Ty

pub record FilterKernel : Type 0 where
  pub field : Field
  pub expr : Expr
  pub code : Option Compiled

-- The virtual methods of `FilterKernel` that are called once it is compiled: on a chunk, with the
-- buffer of the bitmap, the byte of it that `bitmap` points at, and the offsets.
pub record FilterMethods : Type 0 where
  pub execute_chunk : Array → List ℕ → ℕ → ℕ → Outcome (List ℕ)
  pub execute_edge : Array → List ℕ → ℕ → ℕ → ℕ → Outcome (List ℕ)

unfoldable pub create_cpu : Field → Expr → FilterKernel
create_cpu field expr = record { field = field; expr = expr; code = none }

-- Element `k` of a `ty` array whose first element is at byte `p` of a buffer of `width`-bit values.
unfoldable pub load_element : Ty → ℕ → List ℕ → ℕ → ℕ → Outcome ℕ
unfolding int_width
load_element ty width values p k =
    if int_width ty == width
    then if p % (width / 8) == 0
      then deref (get_elem? values (p / (width / 8) + k)) Fault.out_of_bounds
      else fault Fault.out_of_bounds
    else fault Fault.out_of_bounds

-- `a - b` on `size_t`
unfoldable pub sub_size : ℕ → ℕ → ℕ
sub_size a b = (a + 2 ^ 64 - b) % 2 ^ 64

module _ (arrow : Arrow) (floats : Floats) where
  -- A predicate that returns nothing, though its type is i1, is an error to LLVM's verifier.
  unfoldable pub compile : FilterKernel → Outcome FilterKernel
  unfolding gen_predicate_func
  compile kernel = do
    returned ← gen_predicate_func arrow floats kernel.field kernel.expr
    element ← from_arrow arrow kernel.field.type
    predicate ← deref returned Fault.llvm_error
    ok (record kernel { code = some (record { predicate = predicate; element = element }) })

  -- The emitted predicate, as a test.
  unfoldable pub run_predicate : Compiled → ℕ → Bool
  unfolding eval
  run_predicate code x = eval floats code.predicate x == 1

  unfoldable pub execute_with : Option ℕ → Compiled → Array → List ℕ → ℕ → ℕ → Outcome (List ℕ)
  unfolding load_element sub_size run_predicate filter
  execute_with none code column dest out offset =
      throw (not_implemented "Variable length type filtering does not implemented yet")
  execute_with (some width) code column dest out offset =
      filter (run_predicate code)
        (load_element code.element width column.values (width * offset % 2 ^ 64 / 8)) dest
        (out + (if offset == 0 then 0 else 1)) (sub_size column.length offset)

  -- `dest` is the buffer and `out` the byte of it that the parameter `bitmap` points at.
  unfoldable pub execute : FilterKernel → Array → List ℕ → ℕ → ℕ → Outcome (List ℕ)
  unfolding execute_with
  execute kernel column dest out offset = elim (kernel.code) [
    | none ↦ throw kernel_not_compiled
    | some code ↦ execute_with (arrow.bit_width column.type) code column dest out offset
  ]

  -- `len`, a `uint8_t`
  unfoldable pub remaining_length : ℕ → ℕ → ℕ → ℕ
  unfolding sub_size
  remaining_length length array_offset bit_offset =
      if array_offset == 0
      then min ((8 + 256 - bit_offset) % 256) (sub_size length array_offset % 256)
      else sub_size length array_offset % 256

  unfoldable pub execute_remaining_with :
      Option ℕ → Compiled → Array → List ℕ → ℕ → ℕ → ℕ → Outcome (List ℕ)
  unfolding load_element run_predicate remaining_length filter_remaining
  execute_remaining_with none code column dest out array_offset bit_offset =
      throw (not_implemented "Variable length type filtering does not implemented yet")
  execute_remaining_with (some width) code column dest out array_offset bit_offset =
      filter_remaining (run_predicate code)
        (load_element code.element width column.values (width * array_offset % 2 ^ 64 / 8)) dest out
        (remaining_length column.length array_offset bit_offset) bit_offset

  unfoldable pub execute_remaining : FilterKernel → Array → List ℕ → ℕ → ℕ → ℕ → Outcome (List ℕ)
  unfolding execute_remaining_with
  execute_remaining kernel column dest out array_offset bit_offset = elim (kernel.code) [
    | none ↦ throw kernel_not_compiled
    | some code ↦
        execute_remaining_with (arrow.bit_width column.type) code column dest out array_offset
          bit_offset
  ]

  abbrev pub kernel_methods : FilterKernel → FilterMethods
  kernel_methods kernel = record {
    execute_chunk = execute kernel;
    execute_edge = execute_remaining kernel;
  }
