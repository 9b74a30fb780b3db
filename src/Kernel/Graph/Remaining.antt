-- ===== src/Kernel/Graph/Remaining.antt =====
-- `gen_filter_remaining_func` of pefa/kernels/filter.cpp.
use pefa.Base.{[], ◌∷◌}
use pefa.Kernel.Graph.{
  w8, add, sub, shl, and, i, Name, Operand, get_arg, constant, value, load_slot, pointer_cast, load,
  int_cast, call_predicate, not_value, in_bounds_gep, binary, icmp_slt, assign, store_slot, store,
  br, cond_br, ret_void, Block,
}

pub data Label : Type 0 where
  body cond loop end_loop : Label

abbrev arg_source : Operand
arg_source = get_arg 0

abbrev arg_dest : Operand
arg_dest = get_arg 1

abbrev arg_len : Operand
arg_len = get_arg 2

abbrev arg_bit_offset : Operand
arg_bit_offset = get_arg 3

unfoldable pub gen_filter_remaining_func : Label → Block Label
gen_filter_remaining_func body = record {
  statements = store_slot (constant w8 0) i ∷ assign Name.source (pointer_cast arg_source) ∷ [];
  terminator = br cond;
}
gen_filter_remaining_func cond = record {
  statements = assign Name.condition (icmp_slt w8 (load_slot i) arg_len) ∷ [];
  terminator = cond_br (value Name.condition) loop end_loop;
}
gen_filter_remaining_func loop = record {
  statements =
      assign Name.bit
        (int_cast (call_predicate (load (in_bounds_gep (value Name.source) w8 (load_slot i)))))
      ∷ assign Name.masked_bit (
          not_value (
            binary w8 shl (binary w8 and (not_value (value Name.bit)) (constant w8 1))
              (binary w8 sub (constant w8 7) (binary w8 add (load_slot i) arg_bit_offset))))
      ∷ store (binary w8 and (load arg_dest) (value Name.masked_bit)) arg_dest
      ∷ store_slot (binary w8 add (load_slot i) (constant w8 1)) i
      ∷ [];
  terminator = br cond;
}
gen_filter_remaining_func end_loop = record { statements = []; terminator = ret_void }
