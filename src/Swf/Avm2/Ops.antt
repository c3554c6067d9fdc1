-- ===== src/Swf/Avm2/Ops.antt =====
-- The AVM2 instructions that read back, by the variants of `Op` (swf/src/avm2/types.rs).
pub mod Reading
use ruffle.Prelude.{◌^◌, ◌<◌, refl, length, All, some}
use ruffle.Swf.Avm2.OpCode.{OpCode}
use ruffle.Swf.Avm2.Op.{Op}
use ruffle.Swf.Avm2.ReadOp.{read_op, read_operands, read_operands_from_in}
use ruffle.Swf.Avm2.WriteOp.{write_op, write_op_from_get_property, write_op_from_modulo}
use ruffle.Swf.Avm2.Reads.{Reads, Reads-u8, Reads-bind, Reads-map}
use ruffle.Swf.Avm2.Varint.{read_u30-write_u30, Reads-index}
use ruffle.Swf.Avm2.Operands.{
  IsPalindrome, Reads-i24, Reads-operands, Reads-bare, Reads-debug, Reads-lookup_switch,
  Reads-get_local, Reads-set_local,
}

-- The operands fit their fields. An offset has to be its own reverse, as it is written with the
-- highest byte first and read with the lowest byte first.
abbrev pub IsEncodableOp : Op → Type 0
IsEncodableOp (Op.as_type type_name) = type_name < 2 ^ 32
IsEncodableOp (Op.call num_args) = num_args < 2 ^ 32
IsEncodableOp (Op.call_method index num_args) = (index < 2 ^ 32) × (num_args < 2 ^ 32)
IsEncodableOp (Op.call_property index num_args) = (index < 2 ^ 32) × (num_args < 2 ^ 32)
IsEncodableOp (Op.call_prop_lex index num_args) = (index < 2 ^ 32) × (num_args < 2 ^ 32)
IsEncodableOp (Op.call_prop_void index num_args) = (index < 2 ^ 32) × (num_args < 2 ^ 32)
IsEncodableOp (Op.call_static index num_args) = (index < 2 ^ 32) × (num_args < 2 ^ 32)
IsEncodableOp (Op.call_super index num_args) = (index < 2 ^ 32) × (num_args < 2 ^ 32)
IsEncodableOp (Op.call_super_void index num_args) = (index < 2 ^ 32) × (num_args < 2 ^ 32)
IsEncodableOp (Op.coerce index) = index < 2 ^ 32
IsEncodableOp (Op.construct num_args) = num_args < 2 ^ 32
IsEncodableOp (Op.construct_prop index num_args) = (index < 2 ^ 32) × (num_args < 2 ^ 32)
IsEncodableOp (Op.construct_super num_args) = num_args < 2 ^ 32
IsEncodableOp (Op.debug is_local_register register_name register) = register_name < 2 ^ 32
IsEncodableOp (Op.debug_file file_name) = file_name < 2 ^ 32
IsEncodableOp (Op.debug_line line_num) = line_num < 2 ^ 32
IsEncodableOp (Op.dec_local index) = index < 2 ^ 32
IsEncodableOp (Op.dec_local_i index) = index < 2 ^ 32
IsEncodableOp (Op.delete_property index) = index < 2 ^ 32
IsEncodableOp (Op.dxns index) = index < 2 ^ 32
IsEncodableOp (Op.find_property index) = index < 2 ^ 32
IsEncodableOp (Op.find_prop_strict index) = index < 2 ^ 32
IsEncodableOp (Op.get_descendants index) = index < 2 ^ 32
IsEncodableOp (Op.get_global_slot index) = index < 2 ^ 32
IsEncodableOp (Op.get_lex index) = index < 2 ^ 32
IsEncodableOp (Op.get_local index) = index < 2 ^ 32
IsEncodableOp (Op.get_property index) = index < 2 ^ 32
IsEncodableOp (Op.get_slot index) = index < 2 ^ 32
IsEncodableOp (Op.get_super index) = index < 2 ^ 32
IsEncodableOp (Op.has_next_2 object_register index_register) =
    (object_register < 2 ^ 32) × (index_register < 2 ^ 32)
IsEncodableOp (Op.if_eq offset) = IsPalindrome offset
IsEncodableOp (Op.if_false offset) = IsPalindrome offset
IsEncodableOp (Op.if_ge offset) = IsPalindrome offset
IsEncodableOp (Op.if_gt offset) = IsPalindrome offset
IsEncodableOp (Op.if_le offset) = IsPalindrome offset
IsEncodableOp (Op.if_lt offset) = IsPalindrome offset
IsEncodableOp (Op.if_nge offset) = IsPalindrome offset
IsEncodableOp (Op.if_ngt offset) = IsPalindrome offset
IsEncodableOp (Op.if_nle offset) = IsPalindrome offset
IsEncodableOp (Op.if_nlt offset) = IsPalindrome offset
IsEncodableOp (Op.if_ne offset) = IsPalindrome offset
IsEncodableOp (Op.if_strict_eq offset) = IsPalindrome offset
IsEncodableOp (Op.if_strict_ne offset) = IsPalindrome offset
IsEncodableOp (Op.if_true offset) = IsPalindrome offset
IsEncodableOp (Op.inc_local index) = index < 2 ^ 32
IsEncodableOp (Op.inc_local_i index) = index < 2 ^ 32
IsEncodableOp (Op.init_property index) = index < 2 ^ 32
IsEncodableOp (Op.is_type index) = index < 2 ^ 32
IsEncodableOp (Op.jump offset) = IsPalindrome offset
IsEncodableOp (Op.kill index) = index < 2 ^ 32
IsEncodableOp (Op.lookup_switch default_offset case_offsets) =
    IsPalindrome default_offset
    × All IsPalindrome case_offsets
    × (0 < length case_offsets)
    × (length case_offsets < 2 ^ 32)
IsEncodableOp (Op.new_array num_args) = num_args < 2 ^ 32
IsEncodableOp (Op.new_catch index) = index < 2 ^ 32
IsEncodableOp (Op.new_class index) = index < 2 ^ 32
IsEncodableOp (Op.new_function index) = index < 2 ^ 32
IsEncodableOp (Op.new_object num_args) = num_args < 2 ^ 32
IsEncodableOp (Op.push_double value) = value < 2 ^ 32
IsEncodableOp (Op.push_int value) = value < 2 ^ 32
IsEncodableOp (Op.push_namespace value) = value < 2 ^ 32
IsEncodableOp (Op.push_short value) = value < 2 ^ 32
IsEncodableOp (Op.push_string value) = value < 2 ^ 32
IsEncodableOp (Op.push_uint value) = value < 2 ^ 32
IsEncodableOp (Op.set_local index) = index < 2 ^ 32
IsEncodableOp (Op.set_global_slot index) = index < 2 ^ 32
IsEncodableOp (Op.set_property index) = index < 2 ^ 32
IsEncodableOp (Op.set_slot index) = index < 2 ^ 32
IsEncodableOp (Op.set_super index) = index < 2 ^ 32
IsEncodableOp op = Unit
