-- ===== src/Kernel/Graph.antt =====
-- The control flow graphs that `gen_filter_func` and `gen_filter_remaining_func` of
-- pefa/kernels/filter.cpp build: what the builder is asked for, block by block, and how LLVM's language
-- reference says that it runs.
pub mod Filter
pub mod Remaining
pub mod Tests
pub mod Inner
pub mod Runs
pub mod RemainingRuns
use Prim.Native.Nat.{bit_and, bit_or}
use pefa.Base.{
  ℕ, zero, suc, ◌+◌, ◌-◌, ◌*◌, ◌/◌, ◌%◌, ◌^◌, ltb, ◌==◌, if◌then◌else◌, Bool, List, [], ◌∷◌, Option,
  none, some, get_elem?, set, length, Outcome, ok, fault, Fault, ◌>>=◌, deref,
}
use pefa.Bitmap.{add8, sub8, not8, shl8, zext8}
use pefa.Kernel.Ir.{flip_sign}

pub data Width : Type 0 where
  w8 w64 : Width

pub data BinaryOp : Type 0 where
  add sub mul udiv shl and or : BinaryOp

-- The variables that `CreateAlloca` makes, and the values that the C++ code names.
pub data Slot : Type 0 where
  i j tmp_bitmap : Slot

pub data Name : Type 0 where
  source condition li src bit bit_with_shift updated_tmp_bitmap dest_val updated_bitmap masked_bit :
      Name

-- The calls of the builder that make a value.
pub data Operand : Type 0 where
  get_arg : ℕ → Operand
  constant : Width → ℕ → Operand
  value : Name → Operand
  load_slot : Slot → Operand
  pointer_cast load int_cast call_predicate not_value : Operand → Operand
  in_bounds_gep : Operand → Width → Operand → Operand
  binary : Width → BinaryOp → Operand → Operand → Operand
  icmp_slt : Width → Operand → Operand → Operand

pub data Statement : Type 0 where
  assign : Name → Operand → Statement
  store_slot : Operand → Slot → Statement
  store : Operand → Operand → Statement

pub data Terminator (Label : Type 0) : Type 0 where
  br : Label → Terminator Label
  cond_br : Operand → Label → Label → Terminator Label
  ret_void : Terminator Label

pub record Block (Label : Type 0) : Type 0 where
  pub statements : List Statement
  pub terminator : Terminator Label

-- A number, or a pointer to an element behind the source pointer, or to a byte of the buffer that
-- the destination pointer points into.
pub data Datum : Type 0 where
  number source_at dest_at : ℕ → Datum

pub record State : Type 0 where
  pub i : Option Datum
  pub j : Option Datum
  pub tmp_bitmap : Option Datum
  pub source : Option Datum
  pub condition : Option Datum
  pub li : Option Datum
  pub src : Option Datum
  pub bit : Option Datum
  pub bit_with_shift : Option Datum
  pub updated_tmp_bitmap : Option Datum
  pub dest_val : Option Datum
  pub updated_bitmap : Option Datum
  pub masked_bit : Option Datum
  pub dest : List ℕ

abbrev pub get_slot : Slot → State → Option Datum
get_slot Slot.i s = s.i
get_slot Slot.j s = s.j
get_slot Slot.tmp_bitmap s = s.tmp_bitmap

abbrev pub set_slot : Slot → Datum → State → State
set_slot Slot.i v s = record s { i = some v }
set_slot Slot.j v s = record s { j = some v }
set_slot Slot.tmp_bitmap v s = record s { tmp_bitmap = some v }

abbrev pub get_name : Name → State → Option Datum
get_name Name.source s = s.source
get_name Name.condition s = s.condition
get_name Name.li s = s.li
get_name Name.src s = s.src
get_name Name.bit s = s.bit
get_name Name.bit_with_shift s = s.bit_with_shift
get_name Name.updated_tmp_bitmap s = s.updated_tmp_bitmap
get_name Name.dest_val s = s.dest_val
get_name Name.updated_bitmap s = s.updated_bitmap
get_name Name.masked_bit s = s.masked_bit

abbrev pub set_name : Name → Datum → State → State
set_name Name.source v s = record s { source = some v }
set_name Name.condition v s = record s { condition = some v }
set_name Name.li v s = record s { li = some v }
set_name Name.src v s = record s { src = some v }
set_name Name.bit v s = record s { bit = some v }
set_name Name.bit_with_shift v s = record s { bit_with_shift = some v }
set_name Name.updated_tmp_bitmap v s = record s { updated_tmp_bitmap = some v }
set_name Name.dest_val v s = record s { dest_val = some v }
set_name Name.updated_bitmap v s = record s { updated_bitmap = some v }
set_name Name.masked_bit v s = record s { masked_bit = some v }

abbrev bits : Width → ℕ
bits w8 = 8
bits w64 = 64

abbrev eval_binary : Width → BinaryOp → ℕ → ℕ → Outcome ℕ
eval_binary w8 BinaryOp.add a b = ok (add8 a b)
eval_binary w8 BinaryOp.sub a b = ok (sub8 a b)
eval_binary w8 BinaryOp.shl a b = shl8 a b
eval_binary w8 BinaryOp.mul a b = ok (a * b % 256)
eval_binary w64 BinaryOp.add a b = ok ((a + b) % 2 ^ 64)
eval_binary w64 BinaryOp.sub a b = ok ((a + 2 ^ 64 - b) % 2 ^ 64)
eval_binary w64 BinaryOp.shl a b = if ltb b 64 then ok (a * 2 ^ b % 2 ^ 64) else fault Fault.poison
eval_binary w64 BinaryOp.mul a b = ok (a * b % 2 ^ 64)
eval_binary w BinaryOp.udiv a b = if b == 0 then fault Fault.poison else ok (a / b)
eval_binary w BinaryOp.and a b = ok (bit_and a b)
eval_binary w BinaryOp.or a b = ok (bit_or a b)

abbrev as_number : Datum → Outcome ℕ
as_number (number n) = ok n
as_number _ = fault Fault.out_of_bounds

-- A pointer moved by an index, which is signed: the emitted code never moves one back.
abbrev moved : Datum → Width → ℕ → Outcome Datum
moved (source_at k) w n =
    if ltb n (2 ^ (bits w - 1)) then ok (source_at (k + n)) else fault Fault.out_of_bounds
moved (dest_at k) w n =
    if ltb n (2 ^ (bits w - 1)) then ok (dest_at (k + n)) else fault Fault.out_of_bounds
moved (number m) w n = fault Fault.out_of_bounds

-- `predicate` is the emitted predicate, `read k` reads element `k` behind the source pointer, and `args`
-- are the arguments of the function.
module _ (predicate : ℕ → Bool) (read : ℕ → Outcome ℕ) (args : List Datum) where
  abbrev read_at : Datum → State → Outcome ℕ
  read_at (source_at k) s = read k
  read_at (dest_at k) s = deref (get_elem? s.dest k) Fault.out_of_bounds
  read_at (number n) s = fault Fault.out_of_bounds

  abbrev write_at : Datum → ℕ → State → Outcome State
  write_at (dest_at k) v s = do
    old ← deref (get_elem? s.dest k) Fault.out_of_bounds
    ok (record s { dest = set s.dest k v })
  write_at _ v s = fault Fault.out_of_bounds

  abbrev pub eval : Operand → State → Outcome Datum
  eval (get_arg n) s = deref (get_elem? args n) Fault.out_of_bounds
  eval (constant w n) s = ok (number n)
  eval (value x) s = deref (get_name x s) Fault.out_of_bounds
  eval (load_slot x) s = deref (get_slot x s) Fault.out_of_bounds
  eval (pointer_cast p) s = eval p s
  eval (load p) s = do at ← eval p s; v ← read_at at s; ok (number v)
  eval (int_cast b) s = eval b s
  eval (call_predicate x) s = do v ← eval x s; n ← as_number v; ok (number (zext8 (predicate n)))
  eval (not_value x) s = do v ← eval x s; n ← as_number v; ok (number (not8 n))
  eval (in_bounds_gep p w x) s = do at ← eval p s; v ← eval x s; n ← as_number v; moved at w n
  eval (binary w op x y) s = do
    v ← eval x s
    u ← eval y s
    m ← as_number v
    n ← as_number u
    r ← eval_binary w op m n
    ok (number r)
  eval (icmp_slt w x y) s = do
    v ← eval x s
    u ← eval y s
    m ← as_number v
    n ← as_number u
    ok (number (zext8 (ltb (flip_sign (bits w) m) (flip_sign (bits w) n))))

  abbrev pub execute_statement : Statement → State → Outcome State
  execute_statement (assign x o) s = do v ← eval o s; ok (set_name x v s)
  execute_statement (store_slot o x) s = do v ← eval o s; ok (set_slot x v s)
  execute_statement (store o p) s = do v ← eval o s; at ← eval p s; n ← as_number v; write_at at n s

  abbrev pub execute_statements : List Statement → State → Outcome State
  execute_statements [] s = ok s
  execute_statements (x ∷ xs) s = do after ← execute_statement x s; execute_statements xs after

  -- The block that comes next, none behind a return.
  abbrev pub next_label : {Label : Type 0} → Terminator Label → State → Outcome (Option Label)
  next_label (br l) s = ok (some l)
  next_label (cond_br o l k) s = do
    v ← eval o s
    n ← as_number v
    ok (some (if n == 0 then k else l))
  next_label ret_void s = ok none

  -- The fuel counts blocks.
  unfoldable pub run :
      {Label : Type 0} → (Label → Block Label) → ℕ → Label → State → Outcome (List ℕ)
  run function zero l s = fault Fault.no_fuel
  run function (suc fuel) l s = do
    after ← execute_statements (function l).statements s
    next ← next_label (function l).terminator after
    elim next [ none ↦ ok (after.dest) | some k ↦ run function fuel k after ]
