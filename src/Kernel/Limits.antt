-- ===== src/Kernel/Limits.antt =====
-- Chunks that the kernel's functions do not handle: those too short, and those whose length is a
-- multiple of 256.
use pefa.Base.{
  ℕ, zero, suc, ◌+◌, ◌-◌, ◌*◌, ◌/◌, ◌%◌, ◌^◌, ◌≤◌, ◌<◌, ◌≡◌, ◌≢◌, refl, arith, ◌==◌, if◌then◌else◌,
  Bool, List, length, length-set, get_elem?, get_elem?-lt, Option, none, some, set, Outcome, ok,
  Fault, deref, returned_step, min,
}
use Prim.Native.Nat.{bit_and}
use pefa.Arrow.{Arrow, Array}
use pefa.Kernel.Ir.{Floats}
use pefa.Kernel.Code.{inner_loop, outer_loop, filter, filter_remaining, remaining_loop}
use pefa.Kernel.Object.{
  FilterKernel, Compiled, execute, execute_remaining, remaining_length, sub_size, run_predicate,
  load_element,
}

deref-ok : {A : Type 0} (o : Option A) (e : Fault) {a : A} → deref o e ≡ ok a → o ≡ some a
deref-ok none e h = cc
deref-ok (some a) e h = cc

module _ (predicate : ℕ → Bool) (load : ℕ → Outcome ℕ) where
  -- The outer loop only returns where all its bytes are in the buffer.
  outer_loop-fits :
      (rounds out i : ℕ) (dest d : List ℕ)
      → outer_loop predicate load rounds out i dest ≡ ok d
      → rounds ≤ length dest - (out + i)
  unfolding outer_loop
  outer_loop-fits zero out i dest d h = omega arith
  outer_loop-fits (suc rounds) out i dest d h =
      let (tmp, h1, e) = returned_step (inner_loop predicate load 8 (i * 8) 0 0) h in
      let (v, h2, e') = returned_step (deref (get_elem? dest (out + i)) Fault.out_of_bounds) h1 in
      omega (
        arith,
        get_elem?-lt dest (out + i) (deref-ok (get_elem? dest (out + i)) Fault.out_of_bounds e'),
        outer_loop-fits rounds out (i + 1) (set dest (out + i) (bit_and v tmp)) d h2,
        length-set dest (out + i) (bit_and v tmp),
      )

module _ (arrow : Arrow) (floats : Floats) (kernel : FilterKernel) (code : Compiled) (c : Array)
    (width : ℕ) (compiled : kernel.code ≡ some code)
    (fixed : arrow.bit_width c.type ≡ some width) where
  -- For a chunk with fewer rows than the up to seven that are to be left out at its start, as one
  -- that begins and ends within the same byte of the bitmap, and a bitmap of less than 2 ^ 60
  -- bytes: `execute` of a compiled kernel on a type of fixed width returns no bitmap, since the
  -- length that it passes on is close to 2 ^ 64.
  pub execute_short :
      (dest : List ℕ) (out offset : ℕ)
      → c.length < offset
      → offset < 8
      → length dest < 2 ^ 60
      → (d : List ℕ) → execute arrow floats kernel c dest out offset ≢ ok d
  unfolding execute sub_size filter
  execute_short dest out offset short small fits d h =
      let runs = rw (compiled, fixed) at h in
      let first : ℕ = out + (if offset == 0 then 0 else 1) in
      omega (
        arith,
        outer_loop-fits (run_predicate arrow floats code)
            (load_element code.element width c.values (width * offset % 2 ^ 64 / 8))
            ((c.length + 2 ^ 64 - offset) % 2 ^ 64 % 2 ^ 64 / 8) first 0 dest d runs,
      )

  -- For a chunk of a multiple of 256 rows, fewer than 2 ^ 64, `execute_remaining` of a compiled
  -- kernel on a type of fixed width leaves the bitmap as it is when it is called for the chunk's
  -- beginning: the length that it passes on, cut down to 8 bits, is 0.
  pub execute_remaining_256 :
      (dest : List ℕ) (out bit_offset : ℕ)
      → c.length % 256 ≡ 0
      → c.length < 2 ^ 64
      → execute_remaining arrow floats kernel c dest out 0 bit_offset ≡ ok dest
  unfolding execute_remaining remaining_length sub_size filter_remaining remaining_loop
  execute_remaining_256 dest out bit_offset e small =
      let len : min ((8 + 256 - bit_offset) % 256) ((c.length + 2 ^ 64 - 0) % 2 ^ 64 % 256) ≡ 0 =
        omega arith in
      rw (compiled, fixed, len) refl
