-- ===== src/Kernel/Execute.antt =====
-- What `execute` and `execute_remaining` of a compiled kernel do to the rows of a bitmap.
use pefa.Base.{
  ℕ, ◌+◌, ◌-◌, ◌*◌, ◌/◌, ◌%◌, ◌^◌, ◌≤◌, ◌<◌, ◌≡◌, ◌≢◌, ◌∙◌, ap, sym, arith, ◌==◌, if◌then◌else◌,
  Bool, List, length, get_or, min, some, Outcome, ok, get_elem?-eq-get_or,
}
use pefa.Arrow.{Arrow, Array}
use pefa.Bitmap.Bits.{window}
use pefa.Bitmap.Masks.{Masks}
use pefa.Kernel.Ir.{Ty, i8, i16, i32, i64, f16, f32, f64, Floats, int_width}
use pefa.Kernel.Object.{
  FilterKernel, Compiled, load_element, sub_size, run_predicate, execute, execute_remaining,
  remaining_length,
}
use pefa.Kernel.Loops.{Passes}
use pefa.Kernel.Remaining.{filter-Masks, filter_remaining-Masks}

at_type :
    (ty : Ty) (o : ℕ)
    → o < 2 ^ 57
    → (int_width ty * o % 2 ^ 64 / 8 % (int_width ty / 8) ≡ 0)
      × (int_width ty * o % 2 ^ 64 / 8 / (int_width ty / 8) ≡ o)
unfolding int_width
at_type i8 o h = omega arith
at_type i16 o h = omega arith
at_type i32 o h = omega arith
at_type i64 o h = omega arith
at_type f16 o h = omega arith
at_type f32 o h = omega arith
at_type f64 o h = omega arith

-- The byte address of element `o` leads to the elements from `o` on.
load_element_lem :
    (ty : Ty) (values : List ℕ) (o k : ℕ)
    → o < 2 ^ 57
    → o + k < length values
    → load_element ty (int_width ty) values (int_width ty * o % 2 ^ 64 / 8) k
      ≡ ok (get_or values (o + k) 0)
unfolding load_element
load_element_lem ty values o k h fits =
    ground (arith, at_type ty o h, get_elem?-eq-get_or values (o + k) 0 fits)

module _ (arrow : Arrow) (floats : Floats) (kernel : FilterKernel) (code : Compiled) (c : Array)
    (q : ℕ → Bool) (off : ℕ) where
  -- The kernel is compiled for the type of the chunk, the chunk's rows are in its buffer, and
  -- row `k` of it is row `off + k` of the bitmap.
  pub record IsReady : Type 0 where
    pub compiled : kernel.code ≡ some code
    pub width : arrow.bit_width c.type ≡ some (int_width code.element)
    pub small : c.length < 2 ^ 57
    pub stored : c.length ≤ length c.values
    pub passes :
        (k : ℕ) → k < c.length → run_predicate arrow floats code (get_or c.values k 0) ≡ q (off + k)

  abbrev predicate : ℕ → Bool
  predicate = run_predicate arrow floats code

  abbrev load_from : ℕ → ℕ → Outcome ℕ
  load_from first =
      load_element code.element (int_width code.element) c.values
        (int_width code.element * first % 2 ^ 64 / 8)

  module _ (ready : IsReady) where
    read_row :
        (first k r : ℕ)
        → first + k < c.length
        → r ≡ off + (first + k)
        → Passes predicate (load_from first) k (q r)
    read_row first k r h e = (
      get_or c.values (first + k) 0,
      load_element_lem code.element c.values first k (omega (arith, ready.small))
          (omega (arith, ready.stored)),
      ready.passes (first + k) h ∙ ap q (sym e),
    )

    -- For a ready chunk with at least the rows up to the end of the byte that its first row stands
    -- in, and a bitmap with a bit for each of its rows: `execute`, called with those rows left out,
    -- clears, of the rows in the bytes that the chunk fills whole, exactly those at which `q` is
    -- false, and changes nothing else.
    pub execute-Masks :
        (dest : List ℕ)
        → (8 - off % 8) % 8 ≤ c.length
        → off + c.length ≤ length dest * 8
        → Masks
            (window (off + (8 - off % 8) % 8) ((off + c.length) / 8 * 8) q)
            dest
            (execute arrow floats kernel c dest (off / 8) ((8 - off % 8) % 8))
    unfolding execute sub_size
    execute-Masks dest h fits =
        let rem : ℕ = (8 - off % 8) % 8 in
        let out : ℕ = off / 8 + (if rem == 0 then 0 else 1) in
        let lo : out * 8 ≡ off + rem = ground arith in
        let len : (c.length + 2 ^ 64 - rem) % 2 ^ 64 ≡ c.length - rem =
          omega (arith, ready.small) in
        let hi : (out + (c.length - rem) / 8) * 8 ≡ (off + c.length) / 8 * 8 = omega arith in
        rw (ready.compiled, ready.width, len, ← lo, ← hi)
          (filter-Masks predicate (load_from rem) q dest out (c.length - rem)
            (omega (arith, ready.small)) (omega arith)
            (λ k hk. read_row rem k (out * 8 + k) (omega arith) (omega arith)))

    -- For a ready chunk that starts within a byte of the bitmap and reaches its end, also when its
    -- length is cut down to 8 bits, and a bitmap with a bit for each of its rows:
    -- `execute_remaining` clears, of the chunk's rows in that byte, exactly those at which `q` is
    -- false, and changes nothing else.
    pub head-Masks :
        (dest : List ℕ)
        → off % 8 ≢ 0
        → 8 ≤ off % 8 + c.length % 256
        → off + c.length ≤ length dest * 8
        → Masks
            (window off (off / 8 * 8 + 8) q)
            dest
            (execute_remaining arrow floats kernel c dest (off / 8) 0 (off % 8))
    unfolding execute_remaining remaining_length sub_size
    head-Masks dest h room fits =
        let lo : off / 8 * 8 + off % 8 ≡ off = omega arith in
        let size : (c.length + 2 ^ 64 - 0) % 2 ^ 64 ≡ c.length = omega (arith, ready.small) in
        let len : min ((8 + 256 - off % 8) % 256) (c.length % 256) ≡ 8 - off % 8 = omega arith in
        let hi : 8 - off % 8 + off % 8 ≡ 8 = omega arith in
        rw (ready.compiled, ready.width, size, len)
          (rw (lo, hi) at
            (filter_remaining-Masks predicate (load_from 0) q dest (off / 8) (8 - off % 8) (off % 8)
              (omega arith) (omega arith)
              (λ k hk. read_row 0 k (off / 8 * 8 + (k + off % 8)) (omega arith) (omega arith))))

    tail_length :
        (t : ℕ)
        → t < 8
        → t ≤ c.length
        → remaining_length arrow floats c.length (sub_size c.length t) 0 ≡ t
    unfolding remaining_length sub_size
    tail_length t h h' = ground (arith, ready.small)

    -- For a ready chunk that starts at or before the beginning of the byte that it ends in, and a
    -- bitmap with that byte: `execute_remaining`, called with the chunk's end, clears, of the
    -- chunk's rows in that byte, exactly those at which `q` is false, and changes nothing else.
    pub tail-Masks :
        (dest : List ℕ)
        → (off + c.length) % 8 ≤ c.length
        → off + c.length < length dest * 8
        → Masks (window ((off + c.length) / 8 * 8) (off + c.length) q) dest (
            execute_remaining arrow floats kernel c dest
              ((off + c.length) / 8)
              (sub_size c.length ((off + c.length) % 8))
              0)
    unfolding execute_remaining
    tail-Masks dest h fits =
        let next : ℕ = off + c.length in
        let t : ℕ = next % 8 in
        let first : sub_size c.length t ≡ c.length - t =
          unfold sub_size in omega (arith, ready.small) in
        let lo : next / 8 * 8 + 0 ≡ next / 8 * 8 = omega arith in
        let hi : next / 8 * 8 + (t + 0) ≡ next = omega arith in
        rw (ready.compiled, ready.width, tail_length t (omega arith) h, first)
          (rw (lo, hi) at
            (filter_remaining-Masks predicate (load_from (c.length - t)) q dest (next / 8) t 0
              (omega arith) (omega arith)
              (λ k hk.
                read_row (c.length - t) k (next / 8 * 8 + (k + 0)) (omega arith) (omega arith))))
