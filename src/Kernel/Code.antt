-- ===== src/Kernel/Code.antt =====
-- The two functions that `gen_filter_func` and `gen_filter_remaining_func` of
-- pefa/kernels/filter.cpp emit, as loops: their arithmetic is that of the instructions on i8 and i64.
-- The loops count down the rounds that are left, and each names the value of its counter.
use Prim.Native.Nat.{bit_and, bit_or}
use pefa.Base.{
  ℕ, zero, suc, ◌+◌, ◌*◌, ◌/◌, ◌%◌, ◌^◌, ltb, if◌then◌else◌, Bool, List, get_elem?, set, Outcome,
  ok, Fault, ◌>>=◌, deref,
}
use pefa.Bitmap.{add8, sub8, not8, shl8, zext8}

-- `predicate` is the emitted predicate, `load k` reads element `k` behind the source pointer, and
-- `out` is the byte of the buffer that the destination pointer stands at.
module _ (predicate : ℕ → Bool) (load : ℕ → Outcome ℕ) where
  -- innerloop: eight rows into one byte.
  unfoldable pub inner_loop : ℕ → ℕ → ℕ → ℕ → Outcome ℕ
  unfolding add8 sub8 shl8 zext8
  inner_loop zero src j tmp = ok tmp
  inner_loop (suc rounds) src j tmp = do
    x ← load (src + j)
    bit_with_shift ← shl8 (zext8 (predicate x)) (sub8 7 j)
    inner_loop rounds src (add8 j 1) (bit_or tmp bit_with_shift)

  -- outerloop: byte `i` of the destination.
  unfoldable pub outer_loop : ℕ → ℕ → ℕ → List ℕ → Outcome (List ℕ)
  unfolding inner_loop
  outer_loop zero out i dest = ok dest
  outer_loop (suc rounds) out i dest = do
    tmp_bitmap ← inner_loop 8 (i * 8) 0 0
    dest_val ← deref (get_elem? dest (out + i)) Fault.out_of_bounds
    outer_loop rounds out (i + 1) (set dest (out + i) (bit_and dest_val tmp_bitmap))

  -- `len` is an i64; it is divided without sign, so the signed test of the loop sees a number
  -- below 2 ^ 61.
  unfoldable pub filter : List ℕ → ℕ → ℕ → Outcome (List ℕ)
  unfolding outer_loop
  filter dest out len = outer_loop (len % 2 ^ 64 / 8) out 0 dest

  unfoldable pub remaining_loop : ℕ → ℕ → ℕ → ℕ → List ℕ → Outcome (List ℕ)
  unfolding add8 sub8 not8 shl8 zext8
  remaining_loop zero bit_offset out i dest = ok dest
  remaining_loop (suc rounds) bit_offset out i dest = do
    x ← load i
    shifted ← shl8 (bit_and (not8 (zext8 (predicate x))) 1) (sub8 7 (add8 i bit_offset))
    dest_val ← deref (get_elem? dest out) Fault.out_of_bounds
    remaining_loop rounds bit_offset out (add8 i 1) (set dest out (bit_and dest_val (not8 shifted)))

  -- The test `i < len` is signed, on i8: no round for a length from 128.
  unfoldable pub filter_remaining : List ℕ → ℕ → ℕ → ℕ → Outcome (List ℕ)
  unfolding remaining_loop
  filter_remaining dest out len bit_offset =
      remaining_loop (if ltb len 128 then len else 0) bit_offset out 0 dest
