-- ===== src/Swf/Avm2/WriteOp.antt =====
-- The AVM2 instructions, written (`write_op` of swf/src/avm2/write.rs).
use ruffle.Prelude.{ℕ, ◌-◌, ℤ, Bool, true, false, List, none, ◌==◌, if◌then◌else◌, length}
use ruffle.Swf.Write.{W, ◌>>◌, write_u8, write_each}
use ruffle.Swf.Avm2.OpCode.{OpCode, as_u8}
use ruffle.Swf.Avm2.Op.{Op}
use ruffle.Swf.Avm2.Primitives.{as_u32, write_u30, write_i24, write_index}

unfoldable pub write_opcode : OpCode → W
write_opcode opcode = write_u8 (as_u8 opcode)

unfoldable pub bool_as_u8 : Bool → ℕ
bool_as_u8 true = 1
bool_as_u8 false = 0

-- The first four registers have opcodes of their own.
unfoldable pub write_local : (other zeroth first second third : OpCode) → ℕ → W
unfolding write_opcode
write_local other zeroth first second third index =
    if index == 0
    then write_opcode zeroth
    else if index == 1
    then write_opcode first
    else if index == 2
    then write_opcode second
    else if index == 3
    then write_opcode third
    else write_opcode other >> write_u30 index

-- `case_offsets.len() as u32 - 1`
unfoldable pub write_num_cases : ℕ → W
write_num_cases count = if count == 0 then none else write_u30 (count - 1)

unfoldable pub write_lookup_switch : ℤ → List ℤ → W
unfolding write_opcode write_num_cases
write_lookup_switch default_offset case_offsets =
    write_opcode OpCode.lookup_switch
    >> (write_i24 default_offset
        >> (write_num_cases (as_u32 (length case_offsets)) >> write_each write_i24 case_offsets))

-- The arms of the match on the instruction, from `Modulo` on.
unfoldable pub write_op_from_modulo : Op → W
unfolding write_opcode write_local bool_as_u8 write_lookup_switch
write_op_from_modulo Op.modulo = write_opcode OpCode.modulo
write_op_from_modulo Op.multiply = write_opcode OpCode.multiply
write_op_from_modulo Op.multiply_i = write_opcode OpCode.multiply_i
write_op_from_modulo Op.negate = write_opcode OpCode.negate
write_op_from_modulo Op.negate_i = write_opcode OpCode.negate_i
write_op_from_modulo Op.new_activation = write_opcode OpCode.new_activation
write_op_from_modulo (Op.new_array num_args) = write_opcode OpCode.new_array >> write_u30 num_args
write_op_from_modulo (Op.new_catch index) = write_opcode OpCode.new_catch >> write_index index
write_op_from_modulo (Op.new_class index) = write_opcode OpCode.new_class >> write_index index
write_op_from_modulo (Op.new_function index) = write_opcode OpCode.new_function >> write_index index
write_op_from_modulo (Op.new_object num_args) = write_opcode OpCode.new_object >> write_u30 num_args
write_op_from_modulo Op.next_name = write_opcode OpCode.next_name
write_op_from_modulo Op.next_value = write_opcode OpCode.next_value
write_op_from_modulo Op.nop = write_opcode OpCode.nop
write_op_from_modulo Op.not = write_opcode OpCode.not
write_op_from_modulo Op.pop = write_opcode OpCode.pop
write_op_from_modulo Op.pop_scope = write_opcode OpCode.pop_scope
write_op_from_modulo (Op.push_byte value) = write_opcode OpCode.push_byte >> write_u8 value
write_op_from_modulo (Op.push_double value) = write_opcode OpCode.push_double >> write_index value
write_op_from_modulo Op.push_false = write_opcode OpCode.push_false
write_op_from_modulo (Op.push_int value) = write_opcode OpCode.push_int >> write_index value
write_op_from_modulo (Op.push_namespace value) =
    write_opcode OpCode.push_namespace >> write_index value
write_op_from_modulo Op.push_nan = write_opcode OpCode.push_nan
write_op_from_modulo Op.push_null = write_opcode OpCode.push_null
write_op_from_modulo Op.push_scope = write_opcode OpCode.push_scope
write_op_from_modulo (Op.push_short value) = write_opcode OpCode.push_short >> write_u30 value
write_op_from_modulo (Op.push_string value) = write_opcode OpCode.push_string >> write_index value
write_op_from_modulo Op.push_true = write_opcode OpCode.push_true
write_op_from_modulo (Op.push_uint value) = write_opcode OpCode.push_uint >> write_index value
write_op_from_modulo Op.push_undefined = write_opcode OpCode.push_undefined
write_op_from_modulo Op.push_with = write_opcode OpCode.push_with
write_op_from_modulo Op.return_value = write_opcode OpCode.return_value
write_op_from_modulo Op.return_void = write_opcode OpCode.return_void
write_op_from_modulo Op.r_shift = write_opcode OpCode.r_shift
write_op_from_modulo (Op.set_local index) =
    write_local OpCode.set_local OpCode.set_local_0 OpCode.set_local_1 OpCode.set_local_2
      OpCode.set_local_3 index
write_op_from_modulo (Op.set_global_slot index) =
    write_opcode OpCode.set_global_slot >> write_u30 index
write_op_from_modulo (Op.set_property index) = write_opcode OpCode.set_property >> write_index index
write_op_from_modulo (Op.set_slot index) = write_opcode OpCode.set_slot >> write_u30 index
write_op_from_modulo (Op.set_super index) = write_opcode OpCode.set_super >> write_index index
write_op_from_modulo Op.strict_equals = write_opcode OpCode.strict_equals
write_op_from_modulo Op.subtract = write_opcode OpCode.subtract
write_op_from_modulo Op.subtract_i = write_opcode OpCode.subtract_i
write_op_from_modulo Op.swap = write_opcode OpCode.swap
write_op_from_modulo Op.throw = write_opcode OpCode.throw
write_op_from_modulo Op.type_of = write_opcode OpCode.type_of
write_op_from_modulo Op.ur_shift = write_opcode OpCode.ur_shift
write_op_from_modulo _ = none

-- The arms from `GetProperty` on.
unfoldable pub write_op_from_get_property : Op → W
unfolding write_opcode write_local bool_as_u8 write_lookup_switch write_op_from_modulo
write_op_from_get_property (Op.get_property index) =
    write_opcode OpCode.get_property >> write_index index
write_op_from_get_property (Op.get_scope_object index) =
    write_opcode OpCode.get_scope_object >> write_u8 index
write_op_from_get_property (Op.get_slot index) = write_opcode OpCode.get_slot >> write_u30 index
write_op_from_get_property (Op.get_super index) = write_opcode OpCode.get_super >> write_index index
write_op_from_get_property Op.greater_equals = write_opcode OpCode.greater_equals
write_op_from_get_property Op.greater_than = write_opcode OpCode.greater_than
write_op_from_get_property Op.has_next = write_opcode OpCode.has_next
write_op_from_get_property (Op.has_next_2 object_register index_register) =
    write_opcode OpCode.has_next_2 >> (write_u30 object_register >> write_u30 index_register)
write_op_from_get_property (Op.if_eq offset) = write_opcode OpCode.if_eq >> write_i24 offset
write_op_from_get_property (Op.if_false offset) = write_opcode OpCode.if_false >> write_i24 offset
write_op_from_get_property (Op.if_ge offset) = write_opcode OpCode.if_ge >> write_i24 offset
write_op_from_get_property (Op.if_gt offset) = write_opcode OpCode.if_gt >> write_i24 offset
write_op_from_get_property (Op.if_le offset) = write_opcode OpCode.if_le >> write_i24 offset
write_op_from_get_property (Op.if_lt offset) = write_opcode OpCode.if_lt >> write_i24 offset
write_op_from_get_property (Op.if_nge offset) = write_opcode OpCode.if_nge >> write_i24 offset
write_op_from_get_property (Op.if_ngt offset) = write_opcode OpCode.if_ngt >> write_i24 offset
write_op_from_get_property (Op.if_nle offset) = write_opcode OpCode.if_nle >> write_i24 offset
write_op_from_get_property (Op.if_nlt offset) = write_opcode OpCode.if_nlt >> write_i24 offset
write_op_from_get_property (Op.if_ne offset) = write_opcode OpCode.if_ne >> write_i24 offset
write_op_from_get_property (Op.if_strict_eq offset) =
    write_opcode OpCode.if_strict_eq >> write_i24 offset
write_op_from_get_property (Op.if_strict_ne offset) =
    write_opcode OpCode.if_strict_ne >> write_i24 offset
write_op_from_get_property (Op.if_true offset) = write_opcode OpCode.if_true >> write_i24 offset
write_op_from_get_property Op.in_op = write_opcode OpCode.in_op
write_op_from_get_property (Op.inc_local index) = write_opcode OpCode.inc_local >> write_u30 index
write_op_from_get_property (Op.inc_local_i index) =
    write_opcode OpCode.inc_local_i >> write_u30 index
write_op_from_get_property Op.increment = write_opcode OpCode.increment
write_op_from_get_property Op.increment_i = write_opcode OpCode.increment_i
write_op_from_get_property (Op.init_property index) =
    write_opcode OpCode.init_property >> write_index index
write_op_from_get_property Op.instance_of = write_opcode OpCode.instance_of
write_op_from_get_property (Op.is_type index) = write_opcode OpCode.is_type >> write_index index
write_op_from_get_property Op.is_type_late = write_opcode OpCode.is_type_late
write_op_from_get_property (Op.jump offset) = write_opcode OpCode.jump >> write_i24 offset
write_op_from_get_property (Op.kill index) = write_opcode OpCode.kill >> write_u30 index
write_op_from_get_property Op.label = write_opcode OpCode.label
write_op_from_get_property Op.less_equals = write_opcode OpCode.less_equals
write_op_from_get_property Op.less_than = write_opcode OpCode.less_than
write_op_from_get_property (Op.lookup_switch default_offset case_offsets) =
    write_lookup_switch default_offset case_offsets
write_op_from_get_property Op.l_shift = write_opcode OpCode.l_shift
write_op_from_get_property op = write_op_from_modulo op

unfoldable pub write_op : Op → W
unfolding write_opcode write_local bool_as_u8 write_lookup_switch write_op_from_get_property
write_op Op.add = write_opcode OpCode.add
write_op Op.add_i = write_opcode OpCode.add_i
write_op (Op.as_type type_name) = write_opcode OpCode.as_type >> write_index type_name
write_op Op.as_type_late = write_opcode OpCode.as_type_late
write_op Op.bit_and = write_opcode OpCode.bit_and
write_op Op.bit_not = write_opcode OpCode.bit_not
write_op Op.bit_or = write_opcode OpCode.bit_or
write_op Op.bit_xor = write_opcode OpCode.bit_xor
write_op (Op.call num_args) = write_opcode OpCode.call >> write_u30 num_args
write_op (Op.call_method index num_args) =
    write_opcode OpCode.call_method >> (write_index index >> write_u30 num_args)
write_op (Op.call_property index num_args) =
    write_opcode OpCode.call_property >> (write_index index >> write_u30 num_args)
write_op (Op.call_prop_lex index num_args) =
    write_opcode OpCode.call_prop_lex >> (write_index index >> write_u30 num_args)
write_op (Op.call_prop_void index num_args) =
    write_opcode OpCode.call_prop_void >> (write_index index >> write_u30 num_args)
write_op (Op.call_static index num_args) =
    write_opcode OpCode.call_static >> (write_index index >> write_u30 num_args)
write_op (Op.call_super index num_args) =
    write_opcode OpCode.call_super >> (write_index index >> write_u30 num_args)
write_op (Op.call_super_void index num_args) =
    write_opcode OpCode.call_super_void >> (write_index index >> write_u30 num_args)
write_op Op.check_filter = write_opcode OpCode.check_filter
write_op (Op.coerce index) = write_opcode OpCode.coerce >> write_index index
write_op Op.coerce_a = write_opcode OpCode.coerce_a
write_op Op.coerce_s = write_opcode OpCode.coerce_s
write_op (Op.construct num_args) = write_opcode OpCode.construct >> write_u30 num_args
write_op (Op.construct_prop index num_args) =
    write_opcode OpCode.construct_prop >> (write_index index >> write_u30 num_args)
write_op (Op.construct_super num_args) = write_opcode OpCode.construct_super >> write_u30 num_args
write_op Op.convert_b = write_opcode OpCode.convert_b
write_op Op.convert_d = write_opcode OpCode.convert_d
write_op Op.convert_i = write_opcode OpCode.convert_i
write_op Op.convert_o = write_opcode OpCode.convert_o
write_op Op.convert_s = write_opcode OpCode.convert_s
write_op Op.convert_u = write_opcode OpCode.convert_u
write_op (Op.debug is_local_register register_name register) =
    write_opcode OpCode.debug
    >> (write_u8 (bool_as_u8 is_local_register)
        >> (write_index register_name >> (write_u8 register >> write_u30 0)))
write_op (Op.debug_file file_name) = write_opcode OpCode.debug_file >> write_index file_name
write_op (Op.debug_line line_num) = write_opcode OpCode.debug_line >> write_u30 line_num
write_op (Op.dec_local index) = write_opcode OpCode.dec_local >> write_u30 index
write_op (Op.dec_local_i index) = write_opcode OpCode.dec_local_i >> write_u30 index
write_op Op.decrement = write_opcode OpCode.decrement
write_op Op.decrement_i = write_opcode OpCode.decrement_i
write_op (Op.delete_property index) = write_opcode OpCode.delete_property >> write_index index
write_op Op.divide = write_opcode OpCode.divide
write_op Op.dup = write_opcode OpCode.dup
write_op (Op.dxns index) = write_opcode OpCode.dxns >> write_index index
write_op Op.dxns_late = write_opcode OpCode.dxns_late
write_op Op.equals = write_opcode OpCode.equals
write_op Op.esc_x_attr = write_opcode OpCode.esc_x_attr
write_op Op.esc_x_elem = write_opcode OpCode.esc_x_elem
write_op (Op.find_property index) = write_opcode OpCode.find_property >> write_index index
write_op (Op.find_prop_strict index) = write_opcode OpCode.find_prop_strict >> write_index index
write_op (Op.get_descendants index) = write_opcode OpCode.get_descendants >> write_index index
write_op Op.get_global_scope = write_opcode OpCode.get_global_scope
write_op (Op.get_global_slot index) = write_opcode OpCode.get_global_slot >> write_u30 index
write_op (Op.get_lex index) = write_opcode OpCode.get_lex >> write_index index
write_op (Op.get_local index) =
    write_local OpCode.get_local OpCode.get_local_0 OpCode.get_local_1 OpCode.get_local_2
      OpCode.get_local_3 index
write_op op = write_op_from_get_property op
