-- ===== src/Kernel/Graph/Filter.antt =====
-- `gen_filter_func` of pefa/kernels/filter.cpp.
use pefa.Base.{[], ◌∷◌}
use pefa.Kernel.Graph.{
  w8, w64, add, sub, mul, udiv, shl, and, or, i, j, tmp_bitmap, Name, Operand, get_arg, constant,
  value, load_slot, pointer_cast, load, int_cast, call_predicate, in_bounds_gep, binary, icmp_slt,
  assign, store_slot, store, br, cond_br, ret_void, Block,
}

pub data Label : Type 0 where
  body cond_1 for_1 cond_2 for_2 end_for1 end_for2 : Label

abbrev arg_source : Operand
arg_source = get_arg 0

abbrev arg_dest : Operand
arg_dest = get_arg 1

abbrev arg_len : Operand
arg_len = get_arg 2

unfoldable pub gen_filter_func : Label → Block Label
gen_filter_func body = record {
  statements = store_slot (constant w64 0) i ∷ assign Name.source (pointer_cast arg_source) ∷ [];
  terminator = br cond_1;
}
gen_filter_func cond_1 = record {
  statements =
      assign Name.condition (icmp_slt w64 (load_slot i) (binary w64 udiv arg_len (constant w64 8)))
      ∷ [];
  terminator = cond_br (value Name.condition) for_1 end_for1;
}
gen_filter_func for_1 = record {
  statements =
      assign Name.li (load_slot i)
      ∷ assign Name.src
          (in_bounds_gep (value Name.source) w64 (binary w64 mul (value Name.li) (constant w64 8)))
      ∷ store_slot (constant w8 0) tmp_bitmap
      ∷ store_slot (constant w8 0) j
      ∷ [];
  terminator = br cond_2;
}
gen_filter_func cond_2 = record {
  statements = [];
  terminator = cond_br (icmp_slt w8 (load_slot j) (constant w8 8)) for_2 end_for2;
}
gen_filter_func for_2 = record {
  statements =
      assign Name.bit
        (int_cast (call_predicate (load (in_bounds_gep (value Name.src) w8 (load_slot j)))))
      ∷ assign Name.bit_with_shift
          (binary w8 shl (value Name.bit) (binary w8 sub (constant w8 7) (load_slot j)))
      ∷ assign Name.updated_tmp_bitmap
          (binary w8 or (load_slot tmp_bitmap) (value Name.bit_with_shift))
      ∷ store_slot (value Name.updated_tmp_bitmap) tmp_bitmap
      ∷ store_slot (binary w8 add (load_slot j) (constant w8 1)) j
      ∷ [];
  terminator = br cond_2;
}
gen_filter_func end_for2 = record {
  statements =
      assign Name.dest_val (load (in_bounds_gep arg_dest w64 (load_slot i)))
      ∷ assign Name.updated_bitmap (binary w8 and (value Name.dest_val) (load_slot tmp_bitmap))
      ∷ store (value Name.updated_bitmap) (in_bounds_gep arg_dest w64 (load_slot i))
      ∷ store_slot (binary w64 add (load_slot i) (constant w64 1)) i
      ∷ [];
  terminator = br cond_1;
}
gen_filter_func end_for1 = record { statements = []; terminator = ret_void }
