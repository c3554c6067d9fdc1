-- ===== src/Swf/Avm2/OpCode.antt =====
-- The AVM2 opcodes (swf/src/avm2/opcode.rs).
use ruffle.Prelude.{ℕ, List, [], ◌∷◌, ◌≡◌, refl, Option, some, none, ◌==◌, if◌then◌else◌}

-- `In` has the name `in_op`, as `in` is taken.
pub data OpCode : Type 0 where
  add add_i as_type as_type_late bit_and bit_not bit_or bit_xor call call_method : OpCode
  call_property call_prop_lex call_prop_void call_static call_super call_super_void : OpCode
  check_filter coerce coerce_a coerce_s construct construct_prop construct_super convert_b : OpCode
  convert_i convert_d convert_o convert_u convert_s debug debug_file debug_line dec_local : OpCode
  dec_local_i decrement decrement_i delete_property divide dup dxns dxns_late equals : OpCode
  esc_x_attr esc_x_elem find_property find_prop_strict get_descendants get_global_scope : OpCode
  get_global_slot get_lex get_local get_local_0 get_local_1 get_local_2 get_local_3 : OpCode
  get_property get_scope_object get_slot get_super greater_equals greater_than has_next : OpCode
  has_next_2 if_eq if_false if_ge if_gt if_le if_lt if_nge if_ngt if_nle if_nlt if_ne : OpCode
  if_strict_eq if_strict_ne if_true in_op inc_local inc_local_i increment increment_i : OpCode
  init_property instance_of is_type is_type_late jump kill label less_equals less_than : OpCode
  lookup_switch l_shift modulo multiply multiply_i negate negate_i new_activation new_array : OpCode
  new_catch new_class new_function new_object next_name next_value nop not pop pop_scope : OpCode
  push_byte push_double push_false push_int push_namespace push_nan push_null push_scope : OpCode
  push_short push_string push_true push_uint push_undefined push_with return_value : OpCode
  return_void r_shift set_local set_local_0 set_local_1 set_local_2 set_local_3 : OpCode
  set_global_slot set_property set_slot set_super strict_equals subtract subtract_i swap : OpCode
  throw type_of ur_shift : OpCode

-- `opcode as u8`: the discriminant.
unfoldable pub as_u8 : OpCode → ℕ
as_u8 OpCode.add = 0xA0
as_u8 OpCode.add_i = 0xC5
as_u8 OpCode.as_type = 0x86
as_u8 OpCode.as_type_late = 0x87
as_u8 OpCode.bit_and = 0xA8
as_u8 OpCode.bit_not = 0x97
as_u8 OpCode.bit_or = 0xa9
as_u8 OpCode.bit_xor = 0xaa
as_u8 OpCode.call = 0x41
as_u8 OpCode.call_method = 0x43
as_u8 OpCode.call_property = 0x46
as_u8 OpCode.call_prop_lex = 0x4c
as_u8 OpCode.call_prop_void = 0x4f
as_u8 OpCode.call_static = 0x44
as_u8 OpCode.call_super = 0x45
as_u8 OpCode.call_super_void = 0x4e
as_u8 OpCode.check_filter = 0x78
as_u8 OpCode.coerce = 0x80
as_u8 OpCode.coerce_a = 0x82
as_u8 OpCode.coerce_s = 0x85
as_u8 OpCode.construct = 0x42
as_u8 OpCode.construct_prop = 0x4a
as_u8 OpCode.construct_super = 0x49
as_u8 OpCode.convert_b = 0x76
as_u8 OpCode.convert_i = 0x73
as_u8 OpCode.convert_d = 0x75
as_u8 OpCode.convert_o = 0x77
as_u8 OpCode.convert_u = 0x74
as_u8 OpCode.convert_s = 0x70
as_u8 OpCode.debug = 0xef
as_u8 OpCode.debug_file = 0xf1
as_u8 OpCode.debug_line = 0xf0
as_u8 OpCode.dec_local = 0x94
as_u8 OpCode.dec_local_i = 0xc3
as_u8 OpCode.decrement = 0x93
as_u8 OpCode.decrement_i = 0xc1
as_u8 OpCode.delete_property = 0x6a
as_u8 OpCode.divide = 0xa3
as_u8 OpCode.dup = 0x2a
as_u8 OpCode.dxns = 0x06
as_u8 OpCode.dxns_late = 0x07
as_u8 OpCode.equals = 0xab
as_u8 OpCode.esc_x_attr = 0x72
as_u8 OpCode.esc_x_elem = 0x71
as_u8 OpCode.find_property = 0x5e
as_u8 OpCode.find_prop_strict = 0x5d
as_u8 OpCode.get_descendants = 0x59
as_u8 OpCode.get_global_scope = 0x64
as_u8 OpCode.get_global_slot = 0x6e
as_u8 OpCode.get_lex = 0x60
as_u8 OpCode.get_local = 0x62
as_u8 OpCode.get_local_0 = 0xd0
as_u8 OpCode.get_local_1 = 0xd1
as_u8 OpCode.get_local_2 = 0xd2
as_u8 OpCode.get_local_3 = 0xd3
as_u8 OpCode.get_property = 0x66
as_u8 OpCode.get_scope_object = 0x65
as_u8 OpCode.get_slot = 0x6c
as_u8 OpCode.get_super = 0x04
as_u8 OpCode.greater_equals = 0xb0
as_u8 OpCode.greater_than = 0xaf
as_u8 OpCode.has_next = 0x1f
as_u8 OpCode.has_next_2 = 0x32
as_u8 OpCode.if_eq = 0x13
as_u8 OpCode.if_false = 0x12
as_u8 OpCode.if_ge = 0x18
as_u8 OpCode.if_gt = 0x17
as_u8 OpCode.if_le = 0x16
as_u8 OpCode.if_lt = 0x15
as_u8 OpCode.if_nge = 0x0f
as_u8 OpCode.if_ngt = 0x0e
as_u8 OpCode.if_nle = 0x0d
as_u8 OpCode.if_nlt = 0x0c
as_u8 OpCode.if_ne = 0x14
as_u8 OpCode.if_strict_eq = 0x19
as_u8 OpCode.if_strict_ne = 0x1a
as_u8 OpCode.if_true = 0x11
as_u8 OpCode.in_op = 0xb4
as_u8 OpCode.inc_local = 0x92
as_u8 OpCode.inc_local_i = 0xc2
as_u8 OpCode.increment = 0x91
as_u8 OpCode.increment_i = 0xc0
as_u8 OpCode.init_property = 0x68
as_u8 OpCode.instance_of = 0xb1
as_u8 OpCode.is_type = 0xb2
as_u8 OpCode.is_type_late = 0xb3
as_u8 OpCode.jump = 0x10
as_u8 OpCode.kill = 0x08
as_u8 OpCode.label = 0x09
as_u8 OpCode.less_equals = 0xae
as_u8 OpCode.less_than = 0xad
as_u8 OpCode.lookup_switch = 0x1b
as_u8 OpCode.l_shift = 0xa5
as_u8 OpCode.modulo = 0xa4
as_u8 OpCode.multiply = 0xa2
as_u8 OpCode.multiply_i = 0xc7
as_u8 OpCode.negate = 0x90
as_u8 OpCode.negate_i = 0xc4
as_u8 OpCode.new_activation = 0x57
as_u8 OpCode.new_array = 0x56
as_u8 OpCode.new_catch = 0x5a
as_u8 OpCode.new_class = 0x58
as_u8 OpCode.new_function = 0x40
as_u8 OpCode.new_object = 0x55
as_u8 OpCode.next_name = 0x1e
as_u8 OpCode.next_value = 0x23
as_u8 OpCode.nop = 0x02
as_u8 OpCode.not = 0x96
as_u8 OpCode.pop = 0x29
as_u8 OpCode.pop_scope = 0x1d
as_u8 OpCode.push_byte = 0x24
as_u8 OpCode.push_double = 0x2f
as_u8 OpCode.push_false = 0x27
as_u8 OpCode.push_int = 0x2d
as_u8 OpCode.push_namespace = 0x31
as_u8 OpCode.push_nan = 0x28
as_u8 OpCode.push_null = 0x20
as_u8 OpCode.push_scope = 0x30
as_u8 OpCode.push_short = 0x25
as_u8 OpCode.push_string = 0x2c
as_u8 OpCode.push_true = 0x26
as_u8 OpCode.push_uint = 0x2e
as_u8 OpCode.push_undefined = 0x21
as_u8 OpCode.push_with = 0x1c
as_u8 OpCode.return_value = 0x48
as_u8 OpCode.return_void = 0x47
as_u8 OpCode.r_shift = 0xa6
as_u8 OpCode.set_local = 0x63
as_u8 OpCode.set_local_0 = 0xd4
as_u8 OpCode.set_local_1 = 0xd5
as_u8 OpCode.set_local_2 = 0xd6
as_u8 OpCode.set_local_3 = 0xd7
as_u8 OpCode.set_global_slot = 0x6f
as_u8 OpCode.set_property = 0x61
as_u8 OpCode.set_slot = 0x6d
as_u8 OpCode.set_super = 0x05
as_u8 OpCode.strict_equals = 0xac
as_u8 OpCode.subtract = 0xa1
as_u8 OpCode.subtract_i = 0xc6
as_u8 OpCode.swap = 0x2b
as_u8 OpCode.throw = 0x03
as_u8 OpCode.type_of = 0x95
as_u8 OpCode.ur_shift = 0xa7

-- The variants in the order of the declaration.
abbrev all_opcodes : List OpCode
all_opcodes =
    OpCode.add ∷ OpCode.add_i ∷ OpCode.as_type ∷ OpCode.as_type_late ∷ OpCode.bit_and
    ∷ OpCode.bit_not ∷ OpCode.bit_or ∷ OpCode.bit_xor ∷ OpCode.call ∷ OpCode.call_method
    ∷ OpCode.call_property ∷ OpCode.call_prop_lex ∷ OpCode.call_prop_void ∷ OpCode.call_static
    ∷ OpCode.call_super ∷ OpCode.call_super_void ∷ OpCode.check_filter ∷ OpCode.coerce
    ∷ OpCode.coerce_a ∷ OpCode.coerce_s ∷ OpCode.construct ∷ OpCode.construct_prop
    ∷ OpCode.construct_super ∷ OpCode.convert_b ∷ OpCode.convert_i ∷ OpCode.convert_d
    ∷ OpCode.convert_o ∷ OpCode.convert_u ∷ OpCode.convert_s ∷ OpCode.debug ∷ OpCode.debug_file
    ∷ OpCode.debug_line ∷ OpCode.dec_local ∷ OpCode.dec_local_i ∷ OpCode.decrement
    ∷ OpCode.decrement_i ∷ OpCode.delete_property ∷ OpCode.divide ∷ OpCode.dup ∷ OpCode.dxns
    ∷ OpCode.dxns_late ∷ OpCode.equals ∷ OpCode.esc_x_attr ∷ OpCode.esc_x_elem
    ∷ OpCode.find_property ∷ OpCode.find_prop_strict ∷ OpCode.get_descendants
    ∷ OpCode.get_global_scope ∷ OpCode.get_global_slot ∷ OpCode.get_lex ∷ OpCode.get_local
    ∷ OpCode.get_local_0 ∷ OpCode.get_local_1 ∷ OpCode.get_local_2 ∷ OpCode.get_local_3
    ∷ OpCode.get_property ∷ OpCode.get_scope_object ∷ OpCode.get_slot ∷ OpCode.get_super
    ∷ OpCode.greater_equals ∷ OpCode.greater_than ∷ OpCode.has_next ∷ OpCode.has_next_2
    ∷ OpCode.if_eq ∷ OpCode.if_false ∷ OpCode.if_ge ∷ OpCode.if_gt ∷ OpCode.if_le ∷ OpCode.if_lt
    ∷ OpCode.if_nge ∷ OpCode.if_ngt ∷ OpCode.if_nle ∷ OpCode.if_nlt ∷ OpCode.if_ne
    ∷ OpCode.if_strict_eq ∷ OpCode.if_strict_ne ∷ OpCode.if_true ∷ OpCode.in_op ∷ OpCode.inc_local
    ∷ OpCode.inc_local_i ∷ OpCode.increment ∷ OpCode.increment_i ∷ OpCode.init_property
    ∷ OpCode.instance_of ∷ OpCode.is_type ∷ OpCode.is_type_late ∷ OpCode.jump ∷ OpCode.kill
    ∷ OpCode.label ∷ OpCode.less_equals ∷ OpCode.less_than ∷ OpCode.lookup_switch ∷ OpCode.l_shift
    ∷ OpCode.modulo ∷ OpCode.multiply ∷ OpCode.multiply_i ∷ OpCode.negate ∷ OpCode.negate_i
    ∷ OpCode.new_activation ∷ OpCode.new_array ∷ OpCode.new_catch ∷ OpCode.new_class
    ∷ OpCode.new_function ∷ OpCode.new_object ∷ OpCode.next_name ∷ OpCode.next_value ∷ OpCode.nop
    ∷ OpCode.not ∷ OpCode.pop ∷ OpCode.pop_scope ∷ OpCode.push_byte ∷ OpCode.push_double
    ∷ OpCode.push_false ∷ OpCode.push_int ∷ OpCode.push_namespace ∷ OpCode.push_nan
    ∷ OpCode.push_null ∷ OpCode.push_scope ∷ OpCode.push_short ∷ OpCode.push_string
    ∷ OpCode.push_true ∷ OpCode.push_uint ∷ OpCode.push_undefined ∷ OpCode.push_with
    ∷ OpCode.return_value ∷ OpCode.return_void ∷ OpCode.r_shift ∷ OpCode.set_local
    ∷ OpCode.set_local_0 ∷ OpCode.set_local_1 ∷ OpCode.set_local_2 ∷ OpCode.set_local_3
    ∷ OpCode.set_global_slot ∷ OpCode.set_property ∷ OpCode.set_slot ∷ OpCode.set_super
    ∷ OpCode.strict_equals ∷ OpCode.subtract ∷ OpCode.subtract_i ∷ OpCode.swap ∷ OpCode.throw
    ∷ OpCode.type_of ∷ OpCode.ur_shift ∷ []

find_opcode : ℕ → List OpCode → Option OpCode
unfolding as_u8
find_opcode n [] = none
find_opcode n (op ∷ ops) = if as_u8 op == n then some op else find_opcode n ops

-- The derived `FromPrimitive`: the variant with this discriminant.
unfoldable pub from_u8 : ℕ → Option OpCode
unfolding find_opcode
from_u8 n = find_opcode n all_opcodes

-- No two variants share a discriminant.
pub from_u8-as_u8 : (op : OpCode) → from_u8 (as_u8 op) ≡ some op
unfolding from_u8
from_u8-as_u8 OpCode.add = refl
from_u8-as_u8 _ = refl
