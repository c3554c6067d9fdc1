-- ===== src/Swf/Avm1/Read.antt =====
-- The AVM1 reader (swf/src/avm1/read.rs), on top of the cursor of Swf/Read.antt.
use ruffle.Prelude.{
  ℕ, zero, suc, ◌+◌, not, Option, some, none, List, [], ◌∷◌, ltb, leb, ◌==◌, if◌then◌else◌,
  has_flag, bit_and,
}
use ruffle.Swf.Error.{
  Result, ok, err, panics, out_of_fuel, avm1_parse_error, avm1_parse_error_with_source,
  invalid_data,
}
use ruffle.Swf.ByteOrder.{ByteOrder}
use ruffle.Swf.Read.{
  Reader, M, pure, fail, ◌>>=◌, position, read_u8, read_slice, read_c_string, read_many, read_u16,
  read_i16, read_i32, read_f32, read_f64,
}
use ruffle.Swf.Avm1.OpCode.{OpCode, from_u8}
use ruffle.Swf.Avm1.Types.{Value, SendVarsMethod, FunctionParam, Function, CatchVar, Action}

-- `length` is an in-out parameter of the source: what reads a sub-block returns its new value.
abbrev Op : Type 0
Op = M (Option Action × ℕ)

-- An action that leaves `length` as it was.
abbrev done : Action → ℕ → Op
done action length = pure (some action, length)

unfoldable pub read_unknown_action : ℕ → ℕ → M Action
read_unknown_action opcode length = do data' ← read_slice length; pure (Action.unknown opcode data')

-- The low two bits of the flags of ActionGetUrl2.
unfoldable pub send_vars_method : ℕ → M SendVarsMethod
send_vars_method bits =
    if bits == 0
    then pure SendVarsMethod.none
    else if bits == 1
    then pure SendVarsMethod.get
    else if bits == 2
    then pure SendVarsMethod.post
    else fail (invalid_data "Invalid HTTP method in ActionGetUrl2")

unfoldable pub read_get_url2 : M Action
read_get_url2 = do
  flags ← read_u8
  method ← send_vars_method (bit_and flags 0b11)
  pure (Action.get_url2 method (has_flag flags 0b01_0000_00) (has_flag flags 0b10_0000_00))

unfoldable pub read_function_param : M FunctionParam
read_function_param = do
  register ← read_u8
  name ← read_c_string
  pure (record { name = name; register_index = if register == 0 then none else some register })

unfoldable pub function_of : List ℕ → List FunctionParam → ℕ → ℕ → List ℕ → Function
function_of name params register_count flags actions = record {
  name = name;
  register_count = register_count;
  params = params;
  preload_parent = has_flag flags 0b10000000;
  preload_root = has_flag flags 0b1000000;
  suppress_super = has_flag flags 0b100000;
  preload_super = has_flag flags 0b10000;
  suppress_arguments = has_flag flags 0b1000;
  preload_arguments = has_flag flags 0b100;
  suppress_this = has_flag flags 0b10;
  preload_this = has_flag flags 0b1;
  preload_global = has_flag flags 0b1_00000000;
  actions = actions;
}

unfoldable pub read_catch_var : ℕ → M CatchVar
read_catch_var flags =
    if has_flag flags 0b100
    then read_u8 >>= (λ i. pure (CatchVar.register i))
    else read_c_string >>= (λ name. pure (CatchVar.var name))

module _ ⦃bo : ByteOrder⦄ where
  unfoldable pub read_scene_offset : ℕ → M ℕ
  read_scene_offset flags = if has_flag flags 0b10 then read_u16 else pure 0

  unfoldable pub read_goto_frame2 : M Action
  read_goto_frame2 = do
    flags ← read_u8
    offset ← read_scene_offset flags
    pure (Action.goto_frame2 (has_flag flags 0b1) offset)

  unfoldable pub read_constant_pool : M Action
  read_constant_pool = do
    count ← read_u16
    constants ← read_many count read_c_string
    pure (Action.constant_pool constants)

  -- The `match` on the type byte.
  unfoldable pub value_of : ℕ → M Value
  value_of tag =
      if tag == 0
      then read_c_string >>= (λ s. pure (Value.str s))
      else if tag == 1
      then read_f32 >>= (λ v. pure (Value.float v))
      else if tag == 2
      then pure Value.null
      else if tag == 3
      then pure Value.undefined
      else if tag == 4
      then read_u8 >>= (λ v. pure (Value.register v))
      else if tag == 5
      then read_u8 >>= (λ v. pure (Value.bool (not (v == 0))))
      else if tag == 6
      then read_f64 >>= (λ v. pure (Value.double v))
      else if tag == 7
      then read_i32 >>= (λ v. pure (Value.int v))
      else if tag == 8
      then read_u8 >>= (λ v. pure (Value.constant_pool v))
      else if tag == 9
      then read_u16 >>= (λ v. pure (Value.constant_pool v))
      else fail (invalid_data "Invalid value type in ActionPush")

  unfoldable pub read_push_value : M Value
  read_push_value = do tag ← read_u8; value_of tag

  -- `while self.pos() < end_pos`, with fuel.
  unfoldable pub read_push_loop : ℕ → ℕ → M (List Value)
  read_push_loop zero end_pos r = if ltb r.pos end_pos then (out_of_fuel, r) else (ok [], r)
  read_push_loop (suc fuel) end_pos r =
      let more : Result (List Value) × Reader =
        (do value ← read_push_value; rest ← read_push_loop fuel end_pos; pure (value ∷ rest)) r in
      if ltb r.pos end_pos then more else (ok [], r)

  -- A value takes a byte at least, so `length` rounds are enough.
  unfoldable pub read_push : ℕ → M Action
  read_push length = do
    start ← position
    values ← read_push_loop length (start + length)
    pure (Action.push values)

  unfoldable pub read_define_function : ℕ → Op
  read_define_function length = do
    name ← read_c_string
    num_params ← read_u16
    params ← read_many num_params read_c_string
    code_length ← read_u16
    actions ← read_slice code_length
    pure (some (Action.define_function name params actions), length + code_length)

  unfoldable pub read_define_function_2 : ℕ → Op
  unfolding function_of
  read_define_function_2 length = do
    name ← read_c_string
    num_params ← read_u16
    register_count ← read_u8
    flags ← read_u16
    params ← read_many num_params read_function_param
    code_length ← read_u16
    actions ← read_slice code_length
    pure (
      some (Action.define_function2 (function_of name params register_count flags actions)),
      length + code_length,
    )

  unfoldable pub read_try : ℕ → Op
  read_try length = do
    flags ← read_u8
    try_length ← read_u16
    catch_length ← read_u16
    finally_length ← read_u16
    catch_var ← read_catch_var flags
    try_actions ← read_slice try_length
    catch_actions ← read_slice catch_length
    finally_actions ← read_slice finally_length
    pure (
      some (
          Action.try (record {
            try_actions = try_actions;
            catch = if has_flag flags 0b1 then some (catch_var, catch_actions) else none;
            finally = if has_flag flags 0b10 then some finally_actions else none;
          })),
      length + (try_length + catch_length + finally_length),
    )

  unfoldable pub read_with : ℕ → Op
  read_with length = do
    code_length ← read_u16
    actions ← read_slice code_length
    pure (some (Action.with actions), length + code_length)

  -- The arms of the `match` on a known opcode.
  unfoldable pub read_known : OpCode → ℕ → Op
  read_known OpCode.end length = pure (none, length)
  read_known OpCode.next_frame length = pure (some Action.next_frame, length)
  read_known OpCode.previous_frame length = pure (some Action.previous_frame, length)
  read_known OpCode.play length = pure (some Action.play, length)
  read_known OpCode.stop length = pure (some Action.stop, length)
  read_known OpCode.toggle_quality length = pure (some Action.toggle_quality, length)
  read_known OpCode.stop_sounds length = pure (some Action.stop_sounds, length)
  read_known OpCode.add length = pure (some Action.add, length)
  read_known OpCode.subtract length = pure (some Action.subtract, length)
  read_known OpCode.multiply length = pure (some Action.multiply, length)
  read_known OpCode.divide length = pure (some Action.divide, length)
  read_known OpCode.equals length = pure (some Action.equals, length)
  read_known OpCode.less length = pure (some Action.less, length)
  read_known OpCode.and length = pure (some Action.and, length)
  read_known OpCode.or length = pure (some Action.or, length)
  read_known OpCode.not length = pure (some Action.not, length)
  read_known OpCode.string_equals length = pure (some Action.string_equals, length)
  read_known OpCode.string_length length = pure (some Action.string_length, length)
  read_known OpCode.string_extract length = pure (some Action.string_extract, length)
  read_known OpCode.pop length = pure (some Action.pop, length)
  read_known OpCode.to_integer length = pure (some Action.to_integer, length)
  read_known OpCode.get_variable length = pure (some Action.get_variable, length)
  read_known OpCode.set_variable length = pure (some Action.set_variable, length)
  read_known OpCode.set_target2 length = pure (some Action.set_target2, length)
  read_known OpCode.string_add length = pure (some Action.string_add, length)
  read_known OpCode.get_property length = pure (some Action.get_property, length)
  read_known OpCode.set_property length = pure (some Action.set_property, length)
  read_known OpCode.clone_sprite length = pure (some Action.clone_sprite, length)
  read_known OpCode.remove_sprite length = pure (some Action.remove_sprite, length)
  read_known OpCode.trace length = pure (some Action.trace, length)
  read_known OpCode.start_drag length = pure (some Action.start_drag, length)
  read_known OpCode.end_drag length = pure (some Action.end_drag, length)
  read_known OpCode.string_less length = pure (some Action.string_less, length)
  read_known OpCode.throw length = pure (some Action.throw, length)
  read_known OpCode.cast_op length = pure (some Action.cast_op, length)
  read_known OpCode.implements_op length = pure (some Action.implements_op, length)
  read_known OpCode.random_number length = pure (some Action.random_number, length)
  read_known OpCode.mb_string_length length = pure (some Action.mb_string_length, length)
  read_known OpCode.char_to_ascii length = pure (some Action.char_to_ascii, length)
  read_known OpCode.ascii_to_char length = pure (some Action.ascii_to_char, length)
  read_known OpCode.get_time length = pure (some Action.get_time, length)
  read_known OpCode.mb_string_extract length = pure (some Action.mb_string_extract, length)
  read_known OpCode.mb_char_to_ascii length = pure (some Action.mb_char_to_ascii, length)
  read_known OpCode.mb_ascii_to_char length = pure (some Action.mb_ascii_to_char, length)
  read_known OpCode.delete length = pure (some Action.delete, length)
  read_known OpCode.delete2 length = pure (some Action.delete2, length)
  read_known OpCode.define_local length = pure (some Action.define_local, length)
  read_known OpCode.call_function length = pure (some Action.call_function, length)
  read_known OpCode.return length = pure (some Action.return, length)
  read_known OpCode.modulo length = pure (some Action.modulo, length)
  read_known OpCode.new_object length = pure (some Action.new_object, length)
  read_known OpCode.define_local2 length = pure (some Action.define_local2, length)
  read_known OpCode.init_array length = pure (some Action.init_array, length)
  read_known OpCode.init_object length = pure (some Action.init_object, length)
  read_known OpCode.type_of length = pure (some Action.type_of, length)
  read_known OpCode.target_path length = pure (some Action.target_path, length)
  read_known OpCode.enumerate length = pure (some Action.enumerate, length)
  read_known OpCode.add2 length = pure (some Action.add2, length)
  read_known OpCode.less2 length = pure (some Action.less2, length)
  read_known OpCode.equals2 length = pure (some Action.equals2, length)
  read_known OpCode.to_number length = pure (some Action.to_number, length)
  read_known OpCode.to_string length = pure (some Action.to_string, length)
  read_known OpCode.push_duplicate length = pure (some Action.push_duplicate, length)
  read_known OpCode.stack_swap length = pure (some Action.stack_swap, length)
  read_known OpCode.get_member length = pure (some Action.get_member, length)
  read_known OpCode.set_member length = pure (some Action.set_member, length)
  read_known OpCode.increment length = pure (some Action.increment, length)
  read_known OpCode.decrement length = pure (some Action.decrement, length)
  read_known OpCode.call_method length = pure (some Action.call_method, length)
  read_known OpCode.new_method length = pure (some Action.new_method, length)
  read_known OpCode.instance_of length = pure (some Action.instance_of, length)
  read_known OpCode.enumerate2 length = pure (some Action.enumerate2, length)
  read_known OpCode.bit_and length = pure (some Action.bit_and, length)
  read_known OpCode.bit_or length = pure (some Action.bit_or, length)
  read_known OpCode.bit_xor length = pure (some Action.bit_xor, length)
  read_known OpCode.bit_lshift length = pure (some Action.bit_lshift, length)
  read_known OpCode.bit_rshift length = pure (some Action.bit_rshift, length)
  read_known OpCode.bit_urshift length = pure (some Action.bit_urshift, length)
  read_known OpCode.strict_equals length = pure (some Action.strict_equals, length)
  read_known OpCode.greater length = pure (some Action.greater, length)
  read_known OpCode.string_greater length = pure (some Action.string_greater, length)
  read_known OpCode.extends length = pure (some Action.extends, length)
  read_known OpCode.goto_frame length = read_u16 >>= λ frame. done (Action.goto_frame frame) length
  read_known OpCode.get_url length = do
    url ← read_c_string
    target ← read_c_string
    done (Action.get_url url target) length
  read_known OpCode.store_register length =
      read_u8 >>= λ register. done (Action.store_register register) length
  read_known OpCode.constant_pool length = read_constant_pool >>= λ action. done action length
  read_known OpCode.wait_for_frame length = do
    frame ← read_u16
    skip ← read_u8
    done (Action.wait_for_frame frame skip) length
  read_known OpCode.set_target length =
      read_c_string >>= λ target. done (Action.set_target target) length
  read_known OpCode.goto_label length =
      read_c_string >>= λ label. done (Action.goto_label label) length
  read_known OpCode.wait_for_frame2 length =
      read_u8 >>= λ skip. done (Action.wait_for_frame2 skip) length
  read_known OpCode.define_function2 length = read_define_function_2 length
  read_known OpCode.try length = read_try length
  read_known OpCode.with length = read_with length
  read_known OpCode.push length = read_push length >>= λ action. done action length
  read_known OpCode.jump length = read_i16 >>= λ offset. done (Action.jump offset) length
  read_known OpCode.get_url2 length = read_get_url2 >>= λ action. done action length
  read_known OpCode.define_function length = read_define_function length
  read_known OpCode.action_if length = read_i16 >>= λ offset. done (Action.action_if offset) length
  read_known OpCode.call length = pure (some Action.call, length)
  read_known OpCode.goto_frame2 length = read_goto_frame2 >>= λ action. done action length

  unfoldable pub read_op_as : Option OpCode → ℕ → ℕ → Op
  read_op_as (some op) opcode length = read_known op length
  read_op_as none opcode length = do action ← read_unknown_action opcode length; done action length

  -- The opcode's arm, or an unknown action.
  unfoldable pub read_op : ℕ → ℕ → Op
  read_op opcode length = read_op_as (from_u8 opcode) opcode length

  unfoldable pub read_length : ℕ → M ℕ
  read_length opcode = if leb 0x80 opcode then read_u16 else pure 0

  unfoldable pub read_opcode_and_length : M (ℕ × ℕ)
  read_opcode_and_length = do opcode ← read_u8; length ← read_length opcode; pure (opcode, length)

  -- What `read_action` does with the outcome of `read_op`: an error gets the opcode, and a cursor
  -- that is not at the end of the action is put there.
  unfoldable pub finish_action :
      ℕ → ℕ → Result (Option Action × ℕ) × Reader → Result (Option Action) × Reader
  finish_action opcode start_pos (err e, r) = (err (avm1_parse_error_with_source opcode e), r)
  finish_action opcode start_pos (panics, r) = (panics, r)
  finish_action opcode start_pos (out_of_fuel, r) = (out_of_fuel, r)
  finish_action opcode start_pos (ok (action, length), r) =
      if r.pos == start_pos + length
      then (ok action, r)
      else (err (avm1_parse_error opcode), record r { pos = start_pos + length })

  -- What follows the header.
  unfoldable pub read_body : ℕ → ℕ → M (Option Action)
  read_body opcode length = do
    start_pos ← position
    λ r. finish_action opcode start_pos (read_op opcode length r)

  unfoldable pub read_action : M (Option Action)
  read_action = do header ← read_opcode_and_length; read_body header.0 header.1
