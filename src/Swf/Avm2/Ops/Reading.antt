-- ===== src/Swf/Avm2/Ops/Reading.antt =====
-- The AVM2 instructions read back: one clause for each variant of `Op` (swf/src/avm2/read.rs,
-- swf/src/avm2/write.rs).
use ruffle.Prelude.{refl, some}
use ruffle.Swf.Avm2.OpCode.{OpCode}
use ruffle.Swf.Avm2.Op.{Op}
use ruffle.Swf.Avm2.ReadOp.{read_op, read_operands, read_operands_from_in}
use ruffle.Swf.Avm2.WriteOp.{write_op, write_op_from_get_property, write_op_from_modulo}
use ruffle.Swf.Avm2.Reads.{Reads, Reads-u8, Reads-bind, Reads-map}
use ruffle.Swf.Avm2.Varint.{read_u30-write_u30, Reads-index}
use ruffle.Swf.Avm2.Operands.{
  Reads-i24, Reads-operands, Reads-bare, Reads-debug, Reads-lookup_switch, Reads-get_local,
  Reads-set_local,
}
use ruffle.Swf.Avm2.Ops.{IsEncodableOp}

pub Reads-op : (op : Op) → IsEncodableOp op → Reads read_op (write_op op) (some op)
unfolding write_op write_op_from_get_property write_op_from_modulo read_operands
    read_operands_from_in
Reads-op Op.add h = Reads-bare OpCode.add refl
Reads-op Op.add_i h = Reads-bare OpCode.add_i refl
Reads-op (Op.as_type type_name) h =
    Reads-operands OpCode.as_type (Reads-map Op.as_type (Reads-index type_name h))
Reads-op Op.as_type_late h = Reads-bare OpCode.as_type_late refl
Reads-op Op.bit_and h = Reads-bare OpCode.bit_and refl
Reads-op Op.bit_not h = Reads-bare OpCode.bit_not refl
Reads-op Op.bit_or h = Reads-bare OpCode.bit_or refl
Reads-op Op.bit_xor h = Reads-bare OpCode.bit_xor refl
Reads-op (Op.call num_args) h =
    Reads-operands OpCode.call (Reads-map Op.call (read_u30-write_u30 num_args h))
Reads-op (Op.call_method index num_args) (h, k) = Reads-operands OpCode.call_method (
    Reads-bind _ (Reads-index index h)
      (Reads-map (Op.call_method index) (read_u30-write_u30 num_args k)))
Reads-op (Op.call_property index num_args) (h, k) = Reads-operands OpCode.call_property (
    Reads-bind _ (Reads-index index h)
      (Reads-map (Op.call_property index) (read_u30-write_u30 num_args k)))
Reads-op (Op.call_prop_lex index num_args) (h, k) = Reads-operands OpCode.call_prop_lex (
    Reads-bind _ (Reads-index index h)
      (Reads-map (Op.call_prop_lex index) (read_u30-write_u30 num_args k)))
Reads-op (Op.call_prop_void index num_args) (h, k) = Reads-operands OpCode.call_prop_void (
    Reads-bind _ (Reads-index index h)
      (Reads-map (Op.call_prop_void index) (read_u30-write_u30 num_args k)))
Reads-op (Op.call_static index num_args) (h, k) = Reads-operands OpCode.call_static (
    Reads-bind _ (Reads-index index h)
      (Reads-map (Op.call_static index) (read_u30-write_u30 num_args k)))
Reads-op (Op.call_super index num_args) (h, k) = Reads-operands OpCode.call_super (
    Reads-bind _ (Reads-index index h)
      (Reads-map (Op.call_super index) (read_u30-write_u30 num_args k)))
Reads-op (Op.call_super_void index num_args) (h, k) = Reads-operands OpCode.call_super_void (
    Reads-bind _ (Reads-index index h)
      (Reads-map (Op.call_super_void index) (read_u30-write_u30 num_args k)))
Reads-op Op.check_filter h = Reads-bare OpCode.check_filter refl
Reads-op (Op.coerce index) h =
    Reads-operands OpCode.coerce (Reads-map Op.coerce (Reads-index index h))
Reads-op Op.coerce_a h = Reads-bare OpCode.coerce_a refl
Reads-op Op.coerce_s h = Reads-bare OpCode.coerce_s refl
Reads-op (Op.construct num_args) h =
    Reads-operands OpCode.construct (Reads-map Op.construct (read_u30-write_u30 num_args h))
Reads-op (Op.construct_prop index num_args) (h, k) = Reads-operands OpCode.construct_prop (
    Reads-bind _ (Reads-index index h)
      (Reads-map (Op.construct_prop index) (read_u30-write_u30 num_args k)))
Reads-op (Op.construct_super num_args) h =
    Reads-operands OpCode.construct_super
      (Reads-map Op.construct_super (read_u30-write_u30 num_args h))
Reads-op Op.convert_b h = Reads-bare OpCode.convert_b refl
Reads-op Op.convert_d h = Reads-bare OpCode.convert_d refl
Reads-op Op.convert_i h = Reads-bare OpCode.convert_i refl
Reads-op Op.convert_o h = Reads-bare OpCode.convert_o refl
Reads-op Op.convert_s h = Reads-bare OpCode.convert_s refl
Reads-op Op.convert_u h = Reads-bare OpCode.convert_u refl
Reads-op (Op.debug is_local_register register_name register) h =
    Reads-debug is_local_register register_name register h
Reads-op (Op.debug_file file_name) h =
    Reads-operands OpCode.debug_file (Reads-map Op.debug_file (Reads-index file_name h))
Reads-op (Op.debug_line line_num) h =
    Reads-operands OpCode.debug_line (Reads-map Op.debug_line (read_u30-write_u30 line_num h))
Reads-op (Op.dec_local index) h =
    Reads-operands OpCode.dec_local (Reads-map Op.dec_local (read_u30-write_u30 index h))
Reads-op (Op.dec_local_i index) h =
    Reads-operands OpCode.dec_local_i (Reads-map Op.dec_local_i (read_u30-write_u30 index h))
Reads-op Op.decrement h = Reads-bare OpCode.decrement refl
Reads-op Op.decrement_i h = Reads-bare OpCode.decrement_i refl
Reads-op (Op.delete_property index) h =
    Reads-operands OpCode.delete_property (Reads-map Op.delete_property (Reads-index index h))
Reads-op Op.divide h = Reads-bare OpCode.divide refl
Reads-op Op.dup h = Reads-bare OpCode.dup refl
Reads-op (Op.dxns index) h = Reads-operands OpCode.dxns (Reads-map Op.dxns (Reads-index index h))
Reads-op Op.dxns_late h = Reads-bare OpCode.dxns_late refl
Reads-op Op.equals h = Reads-bare OpCode.equals refl
Reads-op Op.esc_x_attr h = Reads-bare OpCode.esc_x_attr refl
Reads-op Op.esc_x_elem h = Reads-bare OpCode.esc_x_elem refl
Reads-op (Op.find_property index) h =
    Reads-operands OpCode.find_property (Reads-map Op.find_property (Reads-index index h))
Reads-op (Op.find_prop_strict index) h =
    Reads-operands OpCode.find_prop_strict (Reads-map Op.find_prop_strict (Reads-index index h))
Reads-op (Op.get_descendants index) h =
    Reads-operands OpCode.get_descendants (Reads-map Op.get_descendants (Reads-index index h))
Reads-op Op.get_global_scope h = Reads-bare OpCode.get_global_scope refl
Reads-op (Op.get_global_slot index) h =
    Reads-operands OpCode.get_global_slot
      (Reads-map Op.get_global_slot (read_u30-write_u30 index h))
Reads-op (Op.get_lex index) h =
    Reads-operands OpCode.get_lex (Reads-map Op.get_lex (Reads-index index h))
Reads-op (Op.get_local index) h = Reads-get_local index h
Reads-op (Op.get_property index) h =
    Reads-operands OpCode.get_property (Reads-map Op.get_property (Reads-index index h))
Reads-op (Op.get_scope_object index) h =
    Reads-operands OpCode.get_scope_object (Reads-map Op.get_scope_object (Reads-u8 index))
Reads-op (Op.get_slot index) h =
    Reads-operands OpCode.get_slot (Reads-map Op.get_slot (read_u30-write_u30 index h))
Reads-op (Op.get_super index) h =
    Reads-operands OpCode.get_super (Reads-map Op.get_super (Reads-index index h))
Reads-op Op.greater_equals h = Reads-bare OpCode.greater_equals refl
Reads-op Op.greater_than h = Reads-bare OpCode.greater_than refl
Reads-op Op.has_next h = Reads-bare OpCode.has_next refl
Reads-op (Op.has_next_2 object_register index_register) (h, k) = Reads-operands OpCode.has_next_2 (
    Reads-bind _ (read_u30-write_u30 object_register h)
      (Reads-map (Op.has_next_2 object_register) (read_u30-write_u30 index_register k)))
Reads-op (Op.if_eq offset) h = Reads-operands OpCode.if_eq (Reads-map Op.if_eq (Reads-i24 offset h))
Reads-op (Op.if_false offset) h =
    Reads-operands OpCode.if_false (Reads-map Op.if_false (Reads-i24 offset h))
Reads-op (Op.if_ge offset) h = Reads-operands OpCode.if_ge (Reads-map Op.if_ge (Reads-i24 offset h))
Reads-op (Op.if_gt offset) h = Reads-operands OpCode.if_gt (Reads-map Op.if_gt (Reads-i24 offset h))
Reads-op (Op.if_le offset) h = Reads-operands OpCode.if_le (Reads-map Op.if_le (Reads-i24 offset h))
Reads-op (Op.if_lt offset) h = Reads-operands OpCode.if_lt (Reads-map Op.if_lt (Reads-i24 offset h))
Reads-op (Op.if_nge offset) h =
    Reads-operands OpCode.if_nge (Reads-map Op.if_nge (Reads-i24 offset h))
Reads-op (Op.if_ngt offset) h =
    Reads-operands OpCode.if_ngt (Reads-map Op.if_ngt (Reads-i24 offset h))
Reads-op (Op.if_nle offset) h =
    Reads-operands OpCode.if_nle (Reads-map Op.if_nle (Reads-i24 offset h))
Reads-op (Op.if_nlt offset) h =
    Reads-operands OpCode.if_nlt (Reads-map Op.if_nlt (Reads-i24 offset h))
Reads-op (Op.if_ne offset) h = Reads-operands OpCode.if_ne (Reads-map Op.if_ne (Reads-i24 offset h))
Reads-op (Op.if_strict_eq offset) h =
    Reads-operands OpCode.if_strict_eq (Reads-map Op.if_strict_eq (Reads-i24 offset h))
Reads-op (Op.if_strict_ne offset) h =
    Reads-operands OpCode.if_strict_ne (Reads-map Op.if_strict_ne (Reads-i24 offset h))
Reads-op (Op.if_true offset) h =
    Reads-operands OpCode.if_true (Reads-map Op.if_true (Reads-i24 offset h))
Reads-op Op.in_op h = Reads-bare OpCode.in_op refl
Reads-op (Op.inc_local index) h =
    Reads-operands OpCode.inc_local (Reads-map Op.inc_local (read_u30-write_u30 index h))
Reads-op (Op.inc_local_i index) h =
    Reads-operands OpCode.inc_local_i (Reads-map Op.inc_local_i (read_u30-write_u30 index h))
Reads-op Op.increment h = Reads-bare OpCode.increment refl
Reads-op Op.increment_i h = Reads-bare OpCode.increment_i refl
Reads-op (Op.init_property index) h =
    Reads-operands OpCode.init_property (Reads-map Op.init_property (Reads-index index h))
Reads-op Op.instance_of h = Reads-bare OpCode.instance_of refl
Reads-op (Op.is_type index) h =
    Reads-operands OpCode.is_type (Reads-map Op.is_type (Reads-index index h))
Reads-op Op.is_type_late h = Reads-bare OpCode.is_type_late refl
Reads-op (Op.jump offset) h = Reads-operands OpCode.jump (Reads-map Op.jump (Reads-i24 offset h))
Reads-op (Op.kill index) h =
    Reads-operands OpCode.kill (Reads-map Op.kill (read_u30-write_u30 index h))
Reads-op Op.label h = Reads-bare OpCode.label refl
Reads-op Op.less_equals h = Reads-bare OpCode.less_equals refl
Reads-op Op.less_than h = Reads-bare OpCode.less_than refl
Reads-op (Op.lookup_switch default_offset case_offsets) h =
    Reads-lookup_switch default_offset case_offsets h
Reads-op Op.l_shift h = Reads-bare OpCode.l_shift refl
Reads-op Op.modulo h = Reads-bare OpCode.modulo refl
Reads-op Op.multiply h = Reads-bare OpCode.multiply refl
Reads-op Op.multiply_i h = Reads-bare OpCode.multiply_i refl
Reads-op Op.negate h = Reads-bare OpCode.negate refl
Reads-op Op.negate_i h = Reads-bare OpCode.negate_i refl
Reads-op Op.new_activation h = Reads-bare OpCode.new_activation refl
Reads-op (Op.new_array num_args) h =
    Reads-operands OpCode.new_array (Reads-map Op.new_array (read_u30-write_u30 num_args h))
Reads-op (Op.new_catch index) h =
    Reads-operands OpCode.new_catch (Reads-map Op.new_catch (Reads-index index h))
Reads-op (Op.new_class index) h =
    Reads-operands OpCode.new_class (Reads-map Op.new_class (Reads-index index h))
Reads-op (Op.new_function index) h =
    Reads-operands OpCode.new_function (Reads-map Op.new_function (Reads-index index h))
Reads-op (Op.new_object num_args) h =
    Reads-operands OpCode.new_object (Reads-map Op.new_object (read_u30-write_u30 num_args h))
Reads-op Op.next_name h = Reads-bare OpCode.next_name refl
Reads-op Op.next_value h = Reads-bare OpCode.next_value refl
Reads-op Op.nop h = Reads-bare OpCode.nop refl
Reads-op Op.not h = Reads-bare OpCode.not refl
Reads-op Op.pop h = Reads-bare OpCode.pop refl
Reads-op Op.pop_scope h = Reads-bare OpCode.pop_scope refl
Reads-op (Op.push_byte value) h =
    Reads-operands OpCode.push_byte (Reads-map Op.push_byte (Reads-u8 value))
Reads-op (Op.push_double value) h =
    Reads-operands OpCode.push_double (Reads-map Op.push_double (Reads-index value h))
Reads-op Op.push_false h = Reads-bare OpCode.push_false refl
Reads-op (Op.push_int value) h =
    Reads-operands OpCode.push_int (Reads-map Op.push_int (Reads-index value h))
Reads-op (Op.push_namespace value) h =
    Reads-operands OpCode.push_namespace (Reads-map Op.push_namespace (Reads-index value h))
Reads-op Op.push_nan h = Reads-bare OpCode.push_nan refl
Reads-op Op.push_null h = Reads-bare OpCode.push_null refl
Reads-op Op.push_scope h = Reads-bare OpCode.push_scope refl
Reads-op (Op.push_short value) h =
    Reads-operands OpCode.push_short (Reads-map Op.push_short (read_u30-write_u30 value h))
Reads-op (Op.push_string value) h =
    Reads-operands OpCode.push_string (Reads-map Op.push_string (Reads-index value h))
Reads-op Op.push_true h = Reads-bare OpCode.push_true refl
Reads-op (Op.push_uint value) h =
    Reads-operands OpCode.push_uint (Reads-map Op.push_uint (Reads-index value h))
Reads-op Op.push_undefined h = Reads-bare OpCode.push_undefined refl
Reads-op Op.push_with h = Reads-bare OpCode.push_with refl
Reads-op Op.return_value h = Reads-bare OpCode.return_value refl
Reads-op Op.return_void h = Reads-bare OpCode.return_void refl
Reads-op Op.r_shift h = Reads-bare OpCode.r_shift refl
Reads-op (Op.set_local index) h = Reads-set_local index h
Reads-op (Op.set_global_slot index) h =
    Reads-operands OpCode.set_global_slot
      (Reads-map Op.set_global_slot (read_u30-write_u30 index h))
Reads-op (Op.set_property index) h =
    Reads-operands OpCode.set_property (Reads-map Op.set_property (Reads-index index h))
Reads-op (Op.set_slot index) h =
    Reads-operands OpCode.set_slot (Reads-map Op.set_slot (read_u30-write_u30 index h))
Reads-op (Op.set_super index) h =
    Reads-operands OpCode.set_super (Reads-map Op.set_super (Reads-index index h))
Reads-op Op.strict_equals h = Reads-bare OpCode.strict_equals refl
Reads-op Op.subtract h = Reads-bare OpCode.subtract refl
Reads-op Op.subtract_i h = Reads-bare OpCode.subtract_i refl
Reads-op Op.swap h = Reads-bare OpCode.swap refl
Reads-op Op.throw h = Reads-bare OpCode.throw refl
Reads-op Op.type_of h = Reads-bare OpCode.type_of refl
Reads-op Op.ur_shift h = Reads-bare OpCode.ur_shift refl
