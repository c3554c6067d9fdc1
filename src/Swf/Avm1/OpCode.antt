-- ===== src/Swf/Avm1/OpCode.antt =====
-- The AVM1 opcodes (swf/src/avm1/opcode.rs).
use ruffle.Prelude.{ℕ, List, [], ◌∷◌, ◌≡◌, refl, Option, some, none, ◌==◌, if◌then◌else◌}

-- `ActionIf` has the name `action_if`, as `if` is taken.
pub data OpCode : Type 0 where
  end next_frame previous_frame play stop toggle_quality stop_sounds add subtract multiply : OpCode
  divide equals less and or not string_equals string_length string_extract pop to_integer : OpCode
  get_variable set_variable set_target2 string_add get_property set_property clone_sprite : OpCode
  remove_sprite trace start_drag end_drag string_less throw cast_op implements_op : OpCode
  random_number mb_string_length char_to_ascii ascii_to_char get_time mb_string_extract : OpCode
  mb_char_to_ascii mb_ascii_to_char delete delete2 define_local call_function return modulo : OpCode
  new_object define_local2 init_array init_object type_of target_path enumerate add2 less2 : OpCode
  equals2 to_number to_string push_duplicate stack_swap get_member set_member increment : OpCode
  decrement call_method new_method instance_of enumerate2 bit_and bit_or bit_xor bit_lshift : OpCode
  bit_rshift bit_urshift strict_equals greater string_greater extends goto_frame get_url : OpCode
  store_register constant_pool wait_for_frame set_target goto_label wait_for_frame2 : OpCode
  define_function2 try with push jump get_url2 define_function action_if call goto_frame2 : OpCode

-- `opcode as u8`: the discriminant.
unfoldable pub as_u8 : OpCode → ℕ
as_u8 OpCode.end = 0x00
as_u8 OpCode.next_frame = 0x04
as_u8 OpCode.previous_frame = 0x05
as_u8 OpCode.play = 0x06
as_u8 OpCode.stop = 0x07
as_u8 OpCode.toggle_quality = 0x08
as_u8 OpCode.stop_sounds = 0x09
as_u8 OpCode.add = 0x0A
as_u8 OpCode.subtract = 0x0B
as_u8 OpCode.multiply = 0x0C
as_u8 OpCode.divide = 0x0D
as_u8 OpCode.equals = 0x0E
as_u8 OpCode.less = 0x0F
as_u8 OpCode.and = 0x10
as_u8 OpCode.or = 0x11
as_u8 OpCode.not = 0x12
as_u8 OpCode.string_equals = 0x13
as_u8 OpCode.string_length = 0x14
as_u8 OpCode.string_extract = 0x15
as_u8 OpCode.pop = 0x17
as_u8 OpCode.to_integer = 0x18
as_u8 OpCode.get_variable = 0x1C
as_u8 OpCode.set_variable = 0x1D
as_u8 OpCode.set_target2 = 0x20
as_u8 OpCode.string_add = 0x21
as_u8 OpCode.get_property = 0x22
as_u8 OpCode.set_property = 0x23
as_u8 OpCode.clone_sprite = 0x24
as_u8 OpCode.remove_sprite = 0x25
as_u8 OpCode.trace = 0x26
as_u8 OpCode.start_drag = 0x27
as_u8 OpCode.end_drag = 0x28
as_u8 OpCode.string_less = 0x29
as_u8 OpCode.throw = 0x2A
as_u8 OpCode.cast_op = 0x2B
as_u8 OpCode.implements_op = 0x2C
as_u8 OpCode.random_number = 0x30
as_u8 OpCode.mb_string_length = 0x31
as_u8 OpCode.char_to_ascii = 0x32
as_u8 OpCode.ascii_to_char = 0x33
as_u8 OpCode.get_time = 0x34
as_u8 OpCode.mb_string_extract = 0x35
as_u8 OpCode.mb_char_to_ascii = 0x36
as_u8 OpCode.mb_ascii_to_char = 0x37
as_u8 OpCode.delete = 0x3A
as_u8 OpCode.delete2 = 0x3B
as_u8 OpCode.define_local = 0x3C
as_u8 OpCode.call_function = 0x3D
as_u8 OpCode.return = 0x3E
as_u8 OpCode.modulo = 0x3F
as_u8 OpCode.new_object = 0x40
as_u8 OpCode.define_local2 = 0x41
as_u8 OpCode.init_array = 0x42
as_u8 OpCode.init_object = 0x43
as_u8 OpCode.type_of = 0x44
as_u8 OpCode.target_path = 0x45
as_u8 OpCode.enumerate = 0x46
as_u8 OpCode.add2 = 0x47
as_u8 OpCode.less2 = 0x48
as_u8 OpCode.equals2 = 0x49
as_u8 OpCode.to_number = 0x4A
as_u8 OpCode.to_string = 0x4B
as_u8 OpCode.push_duplicate = 0x4C
as_u8 OpCode.stack_swap = 0x4D
as_u8 OpCode.get_member = 0x4E
as_u8 OpCode.set_member = 0x4F
as_u8 OpCode.increment = 0x50
as_u8 OpCode.decrement = 0x51
as_u8 OpCode.call_method = 0x52
as_u8 OpCode.new_method = 0x53
as_u8 OpCode.instance_of = 0x54
as_u8 OpCode.enumerate2 = 0x55
as_u8 OpCode.bit_and = 0x60
as_u8 OpCode.bit_or = 0x61
as_u8 OpCode.bit_xor = 0x62
as_u8 OpCode.bit_lshift = 0x63
as_u8 OpCode.bit_rshift = 0x64
as_u8 OpCode.bit_urshift = 0x65
as_u8 OpCode.strict_equals = 0x66
as_u8 OpCode.greater = 0x67
as_u8 OpCode.string_greater = 0x68
as_u8 OpCode.extends = 0x69
as_u8 OpCode.goto_frame = 0x81
as_u8 OpCode.get_url = 0x83
as_u8 OpCode.store_register = 0x87
as_u8 OpCode.constant_pool = 0x88
as_u8 OpCode.wait_for_frame = 0x8A
as_u8 OpCode.set_target = 0x8B
as_u8 OpCode.goto_label = 0x8C
as_u8 OpCode.wait_for_frame2 = 0x8D
as_u8 OpCode.define_function2 = 0x8E
as_u8 OpCode.try = 0x8F
as_u8 OpCode.with = 0x94
as_u8 OpCode.push = 0x96
as_u8 OpCode.jump = 0x99
as_u8 OpCode.get_url2 = 0x9A
as_u8 OpCode.define_function = 0x9B
as_u8 OpCode.action_if = 0x9D
as_u8 OpCode.call = 0x9E
as_u8 OpCode.goto_frame2 = 0x9F

-- The variants in the order of the declaration.
abbrev all_opcodes : List OpCode
all_opcodes =
    OpCode.end ∷ OpCode.next_frame ∷ OpCode.previous_frame ∷ OpCode.play ∷ OpCode.stop
    ∷ OpCode.toggle_quality ∷ OpCode.stop_sounds ∷ OpCode.add ∷ OpCode.subtract ∷ OpCode.multiply
    ∷ OpCode.divide ∷ OpCode.equals ∷ OpCode.less ∷ OpCode.and ∷ OpCode.or ∷ OpCode.not
    ∷ OpCode.string_equals ∷ OpCode.string_length ∷ OpCode.string_extract ∷ OpCode.pop
    ∷ OpCode.to_integer ∷ OpCode.get_variable ∷ OpCode.set_variable ∷ OpCode.set_target2
    ∷ OpCode.string_add ∷ OpCode.get_property ∷ OpCode.set_property ∷ OpCode.clone_sprite
    ∷ OpCode.remove_sprite ∷ OpCode.trace ∷ OpCode.start_drag ∷ OpCode.end_drag ∷ OpCode.string_less
    ∷ OpCode.throw ∷ OpCode.cast_op ∷ OpCode.implements_op ∷ OpCode.random_number
    ∷ OpCode.mb_string_length ∷ OpCode.char_to_ascii ∷ OpCode.ascii_to_char ∷ OpCode.get_time
    ∷ OpCode.mb_string_extract ∷ OpCode.mb_char_to_ascii ∷ OpCode.mb_ascii_to_char ∷ OpCode.delete
    ∷ OpCode.delete2 ∷ OpCode.define_local ∷ OpCode.call_function ∷ OpCode.return ∷ OpCode.modulo
    ∷ OpCode.new_object ∷ OpCode.define_local2 ∷ OpCode.init_array ∷ OpCode.init_object
    ∷ OpCode.type_of ∷ OpCode.target_path ∷ OpCode.enumerate ∷ OpCode.add2 ∷ OpCode.less2
    ∷ OpCode.equals2 ∷ OpCode.to_number ∷ OpCode.to_string ∷ OpCode.push_duplicate
    ∷ OpCode.stack_swap ∷ OpCode.get_member ∷ OpCode.set_member ∷ OpCode.increment
    ∷ OpCode.decrement ∷ OpCode.call_method ∷ OpCode.new_method ∷ OpCode.instance_of
    ∷ OpCode.enumerate2 ∷ OpCode.bit_and ∷ OpCode.bit_or ∷ OpCode.bit_xor ∷ OpCode.bit_lshift
    ∷ OpCode.bit_rshift ∷ OpCode.bit_urshift ∷ OpCode.strict_equals ∷ OpCode.greater
    ∷ OpCode.string_greater ∷ OpCode.extends ∷ OpCode.goto_frame ∷ OpCode.get_url
    ∷ OpCode.store_register ∷ OpCode.constant_pool ∷ OpCode.wait_for_frame ∷ OpCode.set_target
    ∷ OpCode.goto_label ∷ OpCode.wait_for_frame2 ∷ OpCode.define_function2 ∷ OpCode.try
    ∷ OpCode.with ∷ OpCode.push ∷ OpCode.jump ∷ OpCode.get_url2 ∷ OpCode.define_function
    ∷ OpCode.action_if ∷ OpCode.call ∷ OpCode.goto_frame2 ∷ []

find_opcode : ℕ → List OpCode → Option OpCode
unfolding as_u8
find_opcode n [] = none
find_opcode n (op ∷ ops) = if as_u8 op == n then some op else find_opcode n ops

-- The derived `FromPrimitive`: the variant with this discriminant.
unfoldable pub from_u8 : ℕ → Option OpCode
unfolding find_opcode
from_u8 n = find_opcode n all_opcodes

-- No two variants share a discriminant.
pub from_u8-as_u8 : (op : OpCode) → from_u8 (as_u8 op) ≡ some op
unfolding from_u8
from_u8-as_u8 OpCode.end = refl
from_u8-as_u8 _ = refl
