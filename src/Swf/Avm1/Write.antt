-- ===== src/Swf/Avm1/Write.antt =====
-- The AVM1 writer (swf/src/avm1/write.rs). `none` is the panic of the assertion.
use ruffle.Prelude.{
  ℕ, ◌+◌, ◌%◌, ◌^◌, Bool, Option, some, none, List, [], ◌++◌, ltb, leb, ◌==◌, ◌||◌, if◌then◌else◌,
  length, sum_of, bit_or,
}
use ruffle.Swf.ByteOrder.{ByteOrder}
use ruffle.Swf.Write.{
  W, ◌>>◌, write_all, write_u8, write_c_string, write_each, write_u16, write_i16, write_i32,
  write_f32, write_f64,
}
use ruffle.Swf.Avm1.OpCode.{OpCode, as_u8}
use ruffle.Swf.Avm1.Types.{
  Value, SendVarsMethod, FunctionParam, Function, CatchVar, TryBlock, Action, Str,
}

-- `n as u16`
abbrev pub as_u16 : ℕ → ℕ
as_u16 n = n % 2 ^ 16

-- `if b { n } else { 0 }`
abbrev pub flag : Bool → ℕ → ℕ
flag b n = if b then n else 0

abbrev pub str_len : Str → ℕ
str_len s = length s + 1

-- The size of a value in ActionPush.
unfoldable pub value_len : Value → ℕ
value_len (Value.str string) = length string + 2
value_len Value.null = 1
value_len Value.undefined = 1
value_len (Value.register v) = 2
value_len (Value.bool v) = 2
value_len (Value.double v) = 9
value_len (Value.float v) = 5
value_len (Value.int v) = 5
value_len (Value.constant_pool v) = if ltb v 256 then 2 else 3

unfoldable pub method_bits : SendVarsMethod → ℕ
method_bits SendVarsMethod.none = 0
method_bits SendVarsMethod.get = 1
method_bits SendVarsMethod.post = 2

-- The flags of ActionDefineFunction2.
unfoldable pub function_flags : Function → ℕ
function_flags f = bit_or (flag f.preload_global 0b1_00000000) (
    bit_or (flag f.preload_parent 0b10000000) (
      bit_or (flag f.preload_root 0b1000000) (
        bit_or (flag f.suppress_super 0b100000) (
          bit_or (flag f.preload_super 0b10000) (
            bit_or (flag f.suppress_arguments 0b1000) (
              bit_or (flag f.preload_arguments 0b100)
                (bit_or (flag f.suppress_this 0b10) (flag f.preload_this 0b1))))))))

unfoldable pub register_or_zero : Option ℕ → ℕ
register_or_zero (some n) = n
register_or_zero none = 0

-- The parts of a try block that the writer looks at.
abbrev pub catch_code : Option (CatchVar × List ℕ) → List ℕ
catch_code (some (catch_var, code)) = code
catch_code none = []

abbrev pub finally_code : Option (List ℕ) → List ℕ
finally_code (some code) = code
finally_code none = []

abbrev pub catch_name_len : Option (CatchVar × List ℕ) → ℕ
catch_name_len (some (CatchVar.var name, code)) = length name + 1
catch_name_len _ = 1

in_register : Option (CatchVar × List ℕ) → ℕ
in_register (some (CatchVar.register i, code)) = 0b100
in_register _ = 0

has_finally : Option (List ℕ) → ℕ
has_finally (some code) = 0b10
has_finally none = 0

has_catch : Option (CatchVar × List ℕ) → ℕ
has_catch (some c) = 0b1
has_catch none = 0

unfoldable pub try_flags : Option (CatchVar × List ℕ) → Option (List ℕ) → ℕ
unfolding in_register has_finally has_catch
try_flags catch finally =
    bit_or (in_register catch) (bit_or (has_finally finally) (has_catch catch))

unfoldable pub write_catch_var : Option (CatchVar × List ℕ) → W
write_catch_var (some (CatchVar.var name, code)) = write_c_string name
write_catch_var (some (CatchVar.register i, code)) = write_u8 i
write_catch_var none = write_all []

unfoldable pub write_function_param : FunctionParam → W
write_function_param param = do
  write_u8 (register_or_zero param.register_index)
  write_c_string param.name

module _ ⦃bo : ByteOrder⦄ where
  unfoldable pub write_opcode_and_length : ℕ → ℕ → W
  write_opcode_and_length opcode len = do
    write_u8 opcode
    if leb 0x80 opcode || (len == 0) then write_all [] else none
    if leb 0x80 opcode then write_u16 (as_u16 len) else write_all []

  unfoldable pub write_action_header : OpCode → ℕ → W
  write_action_header opcode len = write_opcode_and_length (as_u8 opcode) len

  unfoldable pub write_push_value : Value → W
  write_push_value (Value.str string) = do write_u8 0; write_c_string string
  write_push_value (Value.float v) = do write_u8 1; write_f32 v
  write_push_value Value.null = write_u8 2
  write_push_value Value.undefined = write_u8 3
  write_push_value (Value.register v) = do write_u8 4; write_u8 v
  write_push_value (Value.bool v) = do write_u8 5; write_u8 (flag v 1)
  write_push_value (Value.double v) = do write_u8 6; write_f64 v
  write_push_value (Value.int v) = do write_u8 7; write_i32 v
  write_push_value (Value.constant_pool v) =
      if ltb v 256 then (write_u8 8 >> write_u8 (v % 2 ^ 8)) else (write_u8 9 >> write_u16 v)

  unfoldable pub write_constant_pool : List Str → W
  write_constant_pool constants = do
    write_action_header OpCode.constant_pool (2 + sum_of str_len constants)
    write_u16 (as_u16 (length constants))
    write_each write_c_string constants

  unfoldable pub write_define_function : Str → List Str → List ℕ → W
  write_define_function name params actions = do
    write_action_header OpCode.define_function (length name + 1 + 2 + sum_of str_len params + 2)
    write_c_string name
    write_u16 (as_u16 (length params))
    write_each write_c_string params
    write_u16 (as_u16 (length actions))
    write_all actions

  unfoldable pub write_define_function2 : Function → W
  write_define_function2 function = do
    write_action_header OpCode.define_function2
        (length function.name + 1 + 3 + sum_of (λ p. length p.name + 2) function.params + 4)
    write_c_string function.name
    write_u16 (as_u16 (length function.params))
    write_u8 function.register_count
    write_u16 (function_flags function)
    write_each write_function_param function.params
    write_u16 (as_u16 (length function.actions))
    write_all function.actions

  unfoldable pub write_get_url2 : SendVarsMethod → Bool → Bool → W
  write_get_url2 send_vars_method is_target_sprite is_load_vars = do
    write_action_header OpCode.get_url2 1
    write_u8 (
        bit_or (method_bits send_vars_method)
          (bit_or (flag is_target_sprite 0b01_0000_00) (flag is_load_vars 0b10_0000_00)))

  unfoldable pub write_goto_frame2 : Bool → ℕ → W
  write_goto_frame2 set_playing scene_offset =
      if scene_offset == 0
      then (do
        write_action_header OpCode.goto_frame2 1
        write_u8 (if set_playing then 0b10 else 0b00))
      else (do
        write_action_header OpCode.goto_frame2 3
        write_u8 (if set_playing then 0b11 else 0b01)
        write_u16 scene_offset)

  unfoldable pub write_push : List Value → W
  write_push values = do
    write_action_header OpCode.push (sum_of value_len values)
    write_each write_push_value values

  unfoldable pub write_try : TryBlock → W
  write_try block =
      let catch = catch_code block.catch in
      let finally = finally_code block.finally in
      let action_buf = block.try_actions ++ catch ++ finally in
      do
        write_action_header OpCode.try (7 + length action_buf + catch_name_len block.catch)
        write_u8 (try_flags block.catch block.finally)
        write_u16 (as_u16 (length block.try_actions))
        write_u16 (as_u16 (length catch))
        write_u16 (as_u16 (length finally))
        write_catch_var block.catch
        write_all action_buf

  unfoldable pub write_action : Action → W
  write_action Action.add = write_action_header OpCode.add 0
  write_action Action.add2 = write_action_header OpCode.add2 0
  write_action Action.and = write_action_header OpCode.and 0
  write_action Action.ascii_to_char = write_action_header OpCode.ascii_to_char 0
  write_action Action.bit_and = write_action_header OpCode.bit_and 0
  write_action Action.bit_lshift = write_action_header OpCode.bit_lshift 0
  write_action Action.bit_or = write_action_header OpCode.bit_or 0
  write_action Action.bit_rshift = write_action_header OpCode.bit_rshift 0
  write_action Action.bit_urshift = write_action_header OpCode.bit_urshift 0
  write_action Action.bit_xor = write_action_header OpCode.bit_xor 0
  write_action Action.call = write_action_header OpCode.call 0
  write_action Action.call_function = write_action_header OpCode.call_function 0
  write_action Action.call_method = write_action_header OpCode.call_method 0
  write_action Action.cast_op = write_action_header OpCode.cast_op 0
  write_action Action.char_to_ascii = write_action_header OpCode.char_to_ascii 0
  write_action Action.clone_sprite = write_action_header OpCode.clone_sprite 0
  write_action (Action.constant_pool constants) = write_constant_pool constants
  write_action Action.decrement = write_action_header OpCode.decrement 0
  write_action (Action.define_function name params actions) =
      write_define_function name params actions
  write_action (Action.define_function2 function) = write_define_function2 function
  write_action Action.define_local = write_action_header OpCode.define_local 0
  write_action Action.define_local2 = write_action_header OpCode.define_local2 0
  write_action Action.delete = write_action_header OpCode.delete 0
  write_action Action.delete2 = write_action_header OpCode.delete2 0
  write_action Action.divide = write_action_header OpCode.divide 0
  write_action Action.end_drag = write_action_header OpCode.end_drag 0
  write_action Action.enumerate = write_action_header OpCode.enumerate 0
  write_action Action.enumerate2 = write_action_header OpCode.enumerate2 0
  write_action Action.equals = write_action_header OpCode.equals 0
  write_action Action.equals2 = write_action_header OpCode.equals2 0
  write_action Action.extends = write_action_header OpCode.extends 0
  write_action Action.get_member = write_action_header OpCode.get_member 0
  write_action Action.get_property = write_action_header OpCode.get_property 0
  write_action Action.get_time = write_action_header OpCode.get_time 0
  write_action (Action.get_url url target) = do
    write_action_header OpCode.get_url (length url + length target + 2)
    write_c_string url
    write_c_string target
  write_action (Action.get_url2 method is_target_sprite is_load_vars) =
      write_get_url2 method is_target_sprite is_load_vars
  write_action Action.get_variable = write_action_header OpCode.get_variable 0
  write_action (Action.goto_frame frame) = do
    write_action_header OpCode.goto_frame 2
    write_u16 frame
  write_action (Action.goto_frame2 set_playing scene_offset) =
      write_goto_frame2 set_playing scene_offset
  write_action (Action.goto_label label) = do
    write_action_header OpCode.goto_label (length label + 1)
    write_c_string label
  write_action Action.greater = write_action_header OpCode.greater 0
  write_action (Action.action_if offset) = do
    write_action_header OpCode.action_if 2
    write_i16 offset
  write_action Action.implements_op = write_action_header OpCode.implements_op 0
  write_action Action.increment = write_action_header OpCode.increment 0
  write_action Action.init_array = write_action_header OpCode.init_array 0
  write_action Action.init_object = write_action_header OpCode.init_object 0
  write_action Action.instance_of = write_action_header OpCode.instance_of 0
  write_action (Action.jump offset) = do write_action_header OpCode.jump 2; write_i16 offset
  write_action Action.less = write_action_header OpCode.less 0
  write_action Action.less2 = write_action_header OpCode.less2 0
  write_action Action.mb_ascii_to_char = write_action_header OpCode.mb_ascii_to_char 0
  write_action Action.mb_char_to_ascii = write_action_header OpCode.mb_char_to_ascii 0
  write_action Action.mb_string_extract = write_action_header OpCode.mb_string_extract 0
  write_action Action.mb_string_length = write_action_header OpCode.mb_string_length 0
  write_action Action.modulo = write_action_header OpCode.modulo 0
  write_action Action.multiply = write_action_header OpCode.multiply 0
  write_action Action.new_method = write_action_header OpCode.new_method 0
  write_action Action.new_object = write_action_header OpCode.new_object 0
  write_action Action.next_frame = write_action_header OpCode.next_frame 0
  write_action Action.not = write_action_header OpCode.not 0
  write_action Action.or = write_action_header OpCode.or 0
  write_action Action.play = write_action_header OpCode.play 0
  write_action Action.pop = write_action_header OpCode.pop 0
  write_action Action.previous_frame = write_action_header OpCode.previous_frame 0
  write_action (Action.push values) = write_push values
  write_action Action.push_duplicate = write_action_header OpCode.push_duplicate 0
  write_action Action.random_number = write_action_header OpCode.random_number 0
  write_action Action.remove_sprite = write_action_header OpCode.remove_sprite 0
  write_action Action.return = write_action_header OpCode.return 0
  write_action Action.set_member = write_action_header OpCode.set_member 0
  write_action Action.set_property = write_action_header OpCode.set_property 0
  write_action (Action.set_target target) = do
    write_action_header OpCode.set_target (length target + 1)
    write_c_string target
  write_action Action.set_target2 = write_action_header OpCode.set_target2 0
  write_action Action.set_variable = write_action_header OpCode.set_variable 0
  write_action Action.stack_swap = write_action_header OpCode.stack_swap 0
  write_action Action.start_drag = write_action_header OpCode.start_drag 0
  write_action Action.stop = write_action_header OpCode.stop 0
  write_action Action.stop_sounds = write_action_header OpCode.stop_sounds 0
  write_action (Action.store_register register) = do
    write_action_header OpCode.store_register 1
    write_u8 register
  write_action Action.strict_equals = write_action_header OpCode.strict_equals 0
  write_action Action.string_add = write_action_header OpCode.string_add 0
  write_action Action.string_equals = write_action_header OpCode.string_equals 0
  write_action Action.string_extract = write_action_header OpCode.string_extract 0
  write_action Action.string_greater = write_action_header OpCode.string_greater 0
  write_action Action.string_length = write_action_header OpCode.string_length 0
  write_action Action.string_less = write_action_header OpCode.string_less 0
  write_action Action.subtract = write_action_header OpCode.subtract 0
  write_action Action.target_path = write_action_header OpCode.target_path 0
  write_action Action.throw = write_action_header OpCode.throw 0
  write_action Action.to_integer = write_action_header OpCode.to_integer 0
  write_action Action.to_number = write_action_header OpCode.to_number 0
  write_action Action.to_string = write_action_header OpCode.to_string 0
  write_action Action.toggle_quality = write_action_header OpCode.toggle_quality 0
  write_action Action.trace = write_action_header OpCode.trace 0
  write_action (Action.try block) = write_try block
  write_action Action.type_of = write_action_header OpCode.type_of 0
  write_action (Action.wait_for_frame frame skip) = do
    write_action_header OpCode.wait_for_frame 3
    write_u16 frame
    write_u8 skip
  write_action (Action.wait_for_frame2 skip) = do
    write_action_header OpCode.wait_for_frame2 1
    write_u8 skip
  write_action (Action.with actions) = do
    write_action_header OpCode.with (length actions)
    write_all actions
  write_action (Action.unknown opcode data') = do
    write_opcode_and_length opcode (length data')
    write_all data'
