-- ===== src/Swf/Avm2/Op.antt =====
-- The instructions of the AVM2 (`Op` of swf/src/avm2/types.rs).
use ruffle.Prelude.{ℕ, ℤ, Bool, List}
use ruffle.Swf.Avm2.Types.{Index}

-- `In` has the name `in_op`, as `in` is taken.
pub data Op : Type 0 where
  add add_i as_type_late bit_and bit_not bit_or bit_xor check_filter coerce_a coerce_s : Op
  convert_b convert_d convert_i convert_o convert_s convert_u decrement decrement_i divide : Op
  dup dxns_late equals esc_x_attr esc_x_elem get_global_scope greater_equals greater_than : Op
  has_next in_op increment increment_i instance_of is_type_late label less_equals less_than : Op
  l_shift modulo multiply multiply_i negate negate_i new_activation next_name next_value : Op
  nop not pop pop_scope push_false push_nan push_null push_scope push_true push_undefined : Op
  push_with return_value return_void r_shift strict_equals subtract subtract_i swap throw : Op
  type_of ur_shift : Op
  as_type : (type_name : Index) → Op
  call construct construct_super new_array new_object : (num_args : ℕ) → Op
  call_method call_property call_prop_lex call_prop_void call_static call_super :
      (index : Index) (num_args : ℕ) → Op
  call_super_void construct_prop : (index : Index) (num_args : ℕ) → Op
  coerce delete_property dxns find_property find_prop_strict get_descendants get_lex :
      (index : Index) → Op
  get_property get_super init_property is_type new_catch new_class new_function :
      (index : Index) → Op
  set_property set_super : (index : Index) → Op
  debug : (is_local_register : Bool) (register_name : Index) (register : ℕ) → Op
  debug_file : (file_name : Index) → Op
  debug_line : (line_num : ℕ) → Op
  dec_local dec_local_i get_global_slot get_local get_scope_object get_slot inc_local :
      (index : ℕ) → Op
  inc_local_i kill set_local set_global_slot set_slot : (index : ℕ) → Op
  has_next_2 : (object_register : ℕ) (index_register : ℕ) → Op
  if_eq if_false if_ge if_gt if_le if_lt if_nge if_ngt if_nle if_nlt if_ne if_strict_eq :
      (offset : ℤ) → Op
  if_strict_ne if_true jump : (offset : ℤ) → Op
  lookup_switch : (default_offset : ℤ) (case_offsets : List ℤ) → Op
  push_byte push_short : (value : ℕ) → Op
  push_double push_int push_namespace push_string push_uint : (value : Index) → Op
