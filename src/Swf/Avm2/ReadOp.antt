-- ===== src/Swf/Avm2/ReadOp.antt =====
-- The AVM2 instructions, read (`read_op` of swf/src/avm2/read.rs).
use ruffle.Prelude.{ℕ, ◌+◌, ◌^◌, ◌==◌, leb, not, if◌then◌else◌, Option, some, none}
use ruffle.Swf.Error.{invalid_data}
use ruffle.Swf.Read.{M, pure, fail, panic, ◌>>=◌, read_u8, read_many}
use ruffle.Swf.Avm2.OpCode.{OpCode, from_u8}
use ruffle.Swf.Avm2.Op.{Op}
use ruffle.Swf.Avm2.Primitives.{read_u30, read_i24, read_index}

unfoldable pub read_debug : M Op
read_debug = do
  is_local_register ← read_u8
  register_name ← read_index
  register ← read_u8
  unused ← read_u30
  pure (Op.debug (not (is_local_register == 0)) register_name register)

-- `self.read_u30()? + 1`
unfoldable pub num_cases : M ℕ
num_cases = read_u30 >>= λ n. if leb (2 ^ 32) (n + 1) then panic else pure (n + 1)

unfoldable pub read_lookup_switch : M Op
unfolding num_cases
read_lookup_switch = do
  default_offset ← read_i24
  count ← num_cases
  case_offsets ← read_many count read_i24
  pure (Op.lookup_switch default_offset case_offsets)

-- The arms of the match on the opcode, from `In` on.
unfoldable pub read_operands_from_in : OpCode → M Op
read_operands_from_in OpCode.in_op = pure Op.in_op
read_operands_from_in OpCode.inc_local = read_u30 >>= λ index. pure (Op.inc_local index)
read_operands_from_in OpCode.inc_local_i = read_u30 >>= λ index. pure (Op.inc_local_i index)
read_operands_from_in OpCode.increment = pure Op.increment
read_operands_from_in OpCode.increment_i = pure Op.increment_i
read_operands_from_in OpCode.init_property = read_index >>= λ index. pure (Op.init_property index)
read_operands_from_in OpCode.instance_of = pure Op.instance_of
read_operands_from_in OpCode.is_type = read_index >>= λ index. pure (Op.is_type index)
read_operands_from_in OpCode.is_type_late = pure Op.is_type_late
read_operands_from_in OpCode.jump = read_i24 >>= λ offset. pure (Op.jump offset)
read_operands_from_in OpCode.kill = read_u30 >>= λ index. pure (Op.kill index)
read_operands_from_in OpCode.label = pure Op.label
read_operands_from_in OpCode.less_equals = pure Op.less_equals
read_operands_from_in OpCode.less_than = pure Op.less_than
read_operands_from_in OpCode.lookup_switch = read_lookup_switch
read_operands_from_in OpCode.l_shift = pure Op.l_shift
read_operands_from_in OpCode.modulo = pure Op.modulo
read_operands_from_in OpCode.multiply = pure Op.multiply
read_operands_from_in OpCode.multiply_i = pure Op.multiply_i
read_operands_from_in OpCode.negate = pure Op.negate
read_operands_from_in OpCode.negate_i = pure Op.negate_i
read_operands_from_in OpCode.new_activation = pure Op.new_activation
read_operands_from_in OpCode.new_array = read_u30 >>= λ num_args. pure (Op.new_array num_args)
read_operands_from_in OpCode.new_catch = read_index >>= λ index. pure (Op.new_catch index)
read_operands_from_in OpCode.new_class = read_index >>= λ index. pure (Op.new_class index)
read_operands_from_in OpCode.new_function = read_index >>= λ index. pure (Op.new_function index)
read_operands_from_in OpCode.new_object = read_u30 >>= λ num_args. pure (Op.new_object num_args)
read_operands_from_in OpCode.next_name = pure Op.next_name
read_operands_from_in OpCode.next_value = pure Op.next_value
read_operands_from_in OpCode.nop = pure Op.nop
read_operands_from_in OpCode.not = pure Op.not
read_operands_from_in OpCode.pop = pure Op.pop
read_operands_from_in OpCode.pop_scope = pure Op.pop_scope
read_operands_from_in OpCode.push_byte = read_u8 >>= λ value. pure (Op.push_byte value)
read_operands_from_in OpCode.push_double = read_index >>= λ value. pure (Op.push_double value)
read_operands_from_in OpCode.push_false = pure Op.push_false
read_operands_from_in OpCode.push_int = read_index >>= λ value. pure (Op.push_int value)
read_operands_from_in OpCode.push_namespace = read_index >>= λ value. pure (Op.push_namespace value)
read_operands_from_in OpCode.push_nan = pure Op.push_nan
read_operands_from_in OpCode.push_null = pure Op.push_null
read_operands_from_in OpCode.push_scope = pure Op.push_scope
read_operands_from_in OpCode.push_short = read_u30 >>= λ value. pure (Op.push_short value)
read_operands_from_in OpCode.push_string = read_index >>= λ value. pure (Op.push_string value)
read_operands_from_in OpCode.push_true = pure Op.push_true
read_operands_from_in OpCode.push_uint = read_index >>= λ value. pure (Op.push_uint value)
read_operands_from_in OpCode.push_undefined = pure Op.push_undefined
read_operands_from_in OpCode.push_with = pure Op.push_with
read_operands_from_in OpCode.return_value = pure Op.return_value
read_operands_from_in OpCode.return_void = pure Op.return_void
read_operands_from_in OpCode.r_shift = pure Op.r_shift
read_operands_from_in OpCode.set_local = read_u30 >>= λ index. pure (Op.set_local index)
read_operands_from_in OpCode.set_local_0 = pure (Op.set_local 0)
read_operands_from_in OpCode.set_local_1 = pure (Op.set_local 1)
read_operands_from_in OpCode.set_local_2 = pure (Op.set_local 2)
read_operands_from_in OpCode.set_local_3 = pure (Op.set_local 3)
read_operands_from_in OpCode.set_global_slot = read_u30 >>= λ index. pure (Op.set_global_slot index)
read_operands_from_in OpCode.set_property = read_index >>= λ index. pure (Op.set_property index)
read_operands_from_in OpCode.set_slot = read_u30 >>= λ index. pure (Op.set_slot index)
read_operands_from_in OpCode.set_super = read_index >>= λ index. pure (Op.set_super index)
read_operands_from_in OpCode.strict_equals = pure Op.strict_equals
read_operands_from_in OpCode.subtract = pure Op.subtract
read_operands_from_in OpCode.subtract_i = pure Op.subtract_i
read_operands_from_in OpCode.swap = pure Op.swap
read_operands_from_in OpCode.throw = pure Op.throw
read_operands_from_in OpCode.type_of = pure Op.type_of
read_operands_from_in OpCode.ur_shift = pure Op.ur_shift
read_operands_from_in _ = panic

-- The arms of the match on the opcode.
unfoldable pub read_operands : OpCode → M Op
unfolding read_operands_from_in
read_operands OpCode.add = pure Op.add
read_operands OpCode.add_i = pure Op.add_i
read_operands OpCode.as_type = read_index >>= λ type_name. pure (Op.as_type type_name)
read_operands OpCode.as_type_late = pure Op.as_type_late
read_operands OpCode.bit_and = pure Op.bit_and
read_operands OpCode.bit_not = pure Op.bit_not
read_operands OpCode.bit_or = pure Op.bit_or
read_operands OpCode.bit_xor = pure Op.bit_xor
read_operands OpCode.call = read_u30 >>= λ num_args. pure (Op.call num_args)
read_operands OpCode.call_method = do
  index ← read_index
  num_args ← read_u30
  pure (Op.call_method index num_args)
read_operands OpCode.call_property = do
  index ← read_index
  num_args ← read_u30
  pure (Op.call_property index num_args)
read_operands OpCode.call_prop_lex = do
  index ← read_index
  num_args ← read_u30
  pure (Op.call_prop_lex index num_args)
read_operands OpCode.call_prop_void = do
  index ← read_index
  num_args ← read_u30
  pure (Op.call_prop_void index num_args)
read_operands OpCode.call_static = do
  index ← read_index
  num_args ← read_u30
  pure (Op.call_static index num_args)
read_operands OpCode.call_super = do
  index ← read_index
  num_args ← read_u30
  pure (Op.call_super index num_args)
read_operands OpCode.call_super_void = do
  index ← read_index
  num_args ← read_u30
  pure (Op.call_super_void index num_args)
read_operands OpCode.check_filter = pure Op.check_filter
read_operands OpCode.coerce = read_index >>= λ index. pure (Op.coerce index)
read_operands OpCode.coerce_a = pure Op.coerce_a
read_operands OpCode.coerce_s = pure Op.coerce_s
read_operands OpCode.construct = read_u30 >>= λ num_args. pure (Op.construct num_args)
read_operands OpCode.construct_prop = do
  index ← read_index
  num_args ← read_u30
  pure (Op.construct_prop index num_args)
read_operands OpCode.construct_super = read_u30 >>= λ num_args. pure (Op.construct_super num_args)
read_operands OpCode.convert_b = pure Op.convert_b
read_operands OpCode.convert_d = pure Op.convert_d
read_operands OpCode.convert_i = pure Op.convert_i
read_operands OpCode.convert_o = pure Op.convert_o
read_operands OpCode.convert_s = pure Op.convert_s
read_operands OpCode.convert_u = pure Op.convert_u
read_operands OpCode.debug = read_debug
read_operands OpCode.debug_file = read_index >>= λ file_name. pure (Op.debug_file file_name)
read_operands OpCode.debug_line = read_u30 >>= λ line_num. pure (Op.debug_line line_num)
read_operands OpCode.dec_local = read_u30 >>= λ index. pure (Op.dec_local index)
read_operands OpCode.dec_local_i = read_u30 >>= λ index. pure (Op.dec_local_i index)
read_operands OpCode.decrement = pure Op.decrement
read_operands OpCode.decrement_i = pure Op.decrement_i
read_operands OpCode.delete_property = read_index >>= λ index. pure (Op.delete_property index)
read_operands OpCode.divide = pure Op.divide
read_operands OpCode.dup = pure Op.dup
read_operands OpCode.dxns = read_index >>= λ index. pure (Op.dxns index)
read_operands OpCode.dxns_late = pure Op.dxns_late
read_operands OpCode.equals = pure Op.equals
read_operands OpCode.esc_x_attr = pure Op.esc_x_attr
read_operands OpCode.esc_x_elem = pure Op.esc_x_elem
read_operands OpCode.find_property = read_index >>= λ index. pure (Op.find_property index)
read_operands OpCode.find_prop_strict = read_index >>= λ index. pure (Op.find_prop_strict index)
read_operands OpCode.get_descendants = read_index >>= λ index. pure (Op.get_descendants index)
read_operands OpCode.get_global_scope = pure Op.get_global_scope
read_operands OpCode.get_global_slot = read_u30 >>= λ index. pure (Op.get_global_slot index)
read_operands OpCode.get_lex = read_index >>= λ index. pure (Op.get_lex index)
read_operands OpCode.get_local = read_u30 >>= λ index. pure (Op.get_local index)
read_operands OpCode.get_local_0 = pure (Op.get_local 0)
read_operands OpCode.get_local_1 = pure (Op.get_local 1)
read_operands OpCode.get_local_2 = pure (Op.get_local 2)
read_operands OpCode.get_local_3 = pure (Op.get_local 3)
read_operands OpCode.get_property = read_index >>= λ index. pure (Op.get_property index)
read_operands OpCode.get_scope_object = read_u8 >>= λ index. pure (Op.get_scope_object index)
read_operands OpCode.get_slot = read_u30 >>= λ index. pure (Op.get_slot index)
read_operands OpCode.get_super = read_index >>= λ index. pure (Op.get_super index)
read_operands OpCode.greater_equals = pure Op.greater_equals
read_operands OpCode.greater_than = pure Op.greater_than
read_operands OpCode.has_next = pure Op.has_next
read_operands OpCode.has_next_2 = do
  object_register ← read_u30
  index_register ← read_u30
  pure (Op.has_next_2 object_register index_register)
read_operands OpCode.if_eq = read_i24 >>= λ offset. pure (Op.if_eq offset)
read_operands OpCode.if_false = read_i24 >>= λ offset. pure (Op.if_false offset)
read_operands OpCode.if_ge = read_i24 >>= λ offset. pure (Op.if_ge offset)
read_operands OpCode.if_gt = read_i24 >>= λ offset. pure (Op.if_gt offset)
read_operands OpCode.if_le = read_i24 >>= λ offset. pure (Op.if_le offset)
read_operands OpCode.if_lt = read_i24 >>= λ offset. pure (Op.if_lt offset)
read_operands OpCode.if_nge = read_i24 >>= λ offset. pure (Op.if_nge offset)
read_operands OpCode.if_ngt = read_i24 >>= λ offset. pure (Op.if_ngt offset)
read_operands OpCode.if_nle = read_i24 >>= λ offset. pure (Op.if_nle offset)
read_operands OpCode.if_nlt = read_i24 >>= λ offset. pure (Op.if_nlt offset)
read_operands OpCode.if_ne = read_i24 >>= λ offset. pure (Op.if_ne offset)
read_operands OpCode.if_strict_eq = read_i24 >>= λ offset. pure (Op.if_strict_eq offset)
read_operands OpCode.if_strict_ne = read_i24 >>= λ offset. pure (Op.if_strict_ne offset)
read_operands OpCode.if_true = read_i24 >>= λ offset. pure (Op.if_true offset)
read_operands opcode = read_operands_from_in opcode

unfoldable pub read_op_as : Option OpCode → M (Option Op)
unfolding read_operands
read_op_as none = fail (invalid_data "Unknown ABC opcode")
read_op_as (some opcode) = read_operands opcode >>= λ op. pure (some op)

unfoldable pub read_op : M (Option Op)
unfolding read_op_as
read_op = do byte ← read_u8; read_op_as (from_u8 byte)
