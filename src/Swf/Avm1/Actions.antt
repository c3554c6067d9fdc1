-- ===== src/Swf/Avm1/Actions.antt =====
-- Each action within `IsEncodable` reads back: one clause for each variant of `Action`.
use ruffle.Prelude.{
  ℕ, ◌+◌, ◌<◌, ◌≡◌, refl, List, [], ◌∷◌, some, none, arith, Bool, true, false, length, sum_of, leb,
  leb→le, Bool-cases, inl, inr, ne→==,
}
use ruffle.Swf.ByteOrder.{ByteOrder}
use ruffle.Swf.Write.{write_all}
use ruffle.Swf.Decodes.{
  Decodes, Decodes-pure, Decodes-bind, Decodes-count, Decodes-map, Decodes-nil, Decodes-last,
  >>-nil,
}
use ruffle.Swf.Decodes.Fields.{
  Decodes-read_u8, Decodes-read_u16, Decodes-read_i16, Decodes-read_c_string, Decodes-read_slice,
}
use ruffle.Swf.Avm1.OpCode.{OpCode, as_u8, from_u8}
use ruffle.Swf.Avm1.Types.{Action}
use ruffle.Swf.Avm1.Read.{
  read_known, read_action, read_op, read_op_as, read_unknown_action, read_goto_frame2,
  read_scene_offset,
}
use ruffle.Swf.Avm1.Write.{
  str_len, value_len, write_action, write_constant_pool, write_define_function,
  write_define_function2, write_get_url2, write_goto_frame2, write_push,
}
use ruffle.Swf.Avm1.Frame.{Decodes-operands, Decodes-plain, Decodes-long, Decodes-short}
use ruffle.Swf.Avm1.Encodable.{IsEncodable}
use ruffle.Swf.Avm1.Operands.{Decodes-get_url2, Decodes-constant_pool, Decodes-push}
use ruffle.Swf.Avm1.Functions.{param_len, Decodes-define_function, Decodes-define_function2}

lt_of_leb : (n : ℕ) → leb 0x80 n ≡ false → n < 0x80
lt_of_leb n h = ground arith

module _ ⦃bo : ByteOrder⦄ where
  -- The action is written, and read where it was written.
  abbrev pub ReadsBack : Action → Type 0
  ReadsBack action = (n : ℕ) × Decodes read_action (write_action action) n (some action)

  ReadsBack-goto_frame2 :
      (playing : Bool) (offset : ℕ)
      → IsEncodable (Action.goto_frame2 playing offset)
      → ReadsBack (Action.goto_frame2 playing offset)
  unfolding read_known write_action read_goto_frame2 read_scene_offset write_goto_frame2 as_u8
  ReadsBack-goto_frame2 true offset (ne, h) = (
    6,
    rw (ne→== offset 0 ne) (
        Decodes-operands OpCode.goto_frame2 3 3 (omega arith) (omega arith) (
          Decodes-map _ (
            Decodes-bind _ (Decodes-read_u8 0b11)
              (Decodes-map (λ o. Action.goto_frame2 true o) (Decodes-read_u16 offset h))))),
  )
  ReadsBack-goto_frame2 false offset e = (
    4,
    rw e (
        Decodes-operands OpCode.goto_frame2 1 1 (omega arith) (omega arith) (
          Decodes-map _ (
            Decodes-last _ (Decodes-read_u8 0)
              (Decodes-map (λ o. Action.goto_frame2 false o) (Decodes-pure 0))))),
  )

  Decodes-unknown :
      (opcode : ℕ) (data' : List ℕ)
      → from_u8 opcode ≡ none
      → Decodes
          (read_op opcode (length data'))
          (write_all data')
          (length data')
          (some (Action.unknown opcode data'), length data')
  unfolding read_op read_op_as read_unknown_action
  Decodes-unknown opcode data' fresh =
      rw fresh (Decodes-map _ (Decodes-map (Action.unknown opcode) (Decodes-read_slice data')))

  ReadsBack-unknown :
      (opcode : ℕ) (data' : List ℕ)
      → IsEncodable (Action.unknown opcode data')
      → ReadsBack (Action.unknown opcode data')
  unfolding write_action
  ReadsBack-unknown opcode [] (fresh, shape, h) = elim (Bool-cases (leb 0x80 opcode)) [
    | inl long ↦ (3, Decodes-long opcode 0 0 (leb→le _ _ long) h (Decodes-unknown opcode [] fresh))
    | inr short ↦ (
      1,
      rw >>-nil (
          Decodes-short opcode (omega (arith, lt_of_leb opcode short))
            (Decodes-unknown opcode [] fresh)),
    )
  ]
  ReadsBack-unknown opcode (b ∷ bs) (fresh, inl long, h) =
      (_, Decodes-long opcode _ _ long h (Decodes-unknown opcode (b ∷ bs) fresh))
  ReadsBack-unknown opcode (b ∷ bs) (fresh, inr bare, h) = absurd (omega arith)

  pub ReadsBack-all : (action : Action) → IsEncodable action → ReadsBack action
  unfolding read_known write_action as_u8 write_constant_pool write_define_function
      write_define_function2 write_get_url2 write_push
  ReadsBack-all Action.add h = (1, Decodes-plain OpCode.add Action.add (omega arith) (λ len. refl))
  ReadsBack-all Action.add2 h =
      (1, Decodes-plain OpCode.add2 Action.add2 (omega arith) (λ len. refl))
  ReadsBack-all Action.and h = (1, Decodes-plain OpCode.and Action.and (omega arith) (λ len. refl))
  ReadsBack-all Action.ascii_to_char h =
      (1, Decodes-plain OpCode.ascii_to_char Action.ascii_to_char (omega arith) (λ len. refl))
  ReadsBack-all Action.bit_and h =
      (1, Decodes-plain OpCode.bit_and Action.bit_and (omega arith) (λ len. refl))
  ReadsBack-all Action.bit_lshift h =
      (1, Decodes-plain OpCode.bit_lshift Action.bit_lshift (omega arith) (λ len. refl))
  ReadsBack-all Action.bit_or h =
      (1, Decodes-plain OpCode.bit_or Action.bit_or (omega arith) (λ len. refl))
  ReadsBack-all Action.bit_rshift h =
      (1, Decodes-plain OpCode.bit_rshift Action.bit_rshift (omega arith) (λ len. refl))
  ReadsBack-all Action.bit_urshift h =
      (1, Decodes-plain OpCode.bit_urshift Action.bit_urshift (omega arith) (λ len. refl))
  ReadsBack-all Action.bit_xor h =
      (1, Decodes-plain OpCode.bit_xor Action.bit_xor (omega arith) (λ len. refl))
  ReadsBack-all Action.call h = (
    _,
    Decodes-nil (Decodes-operands OpCode.call 0 0 (omega arith) (omega arith) (Decodes-pure _)),
  )
  ReadsBack-all Action.call_function h =
      (1, Decodes-plain OpCode.call_function Action.call_function (omega arith) (λ len. refl))
  ReadsBack-all Action.call_method h =
      (1, Decodes-plain OpCode.call_method Action.call_method (omega arith) (λ len. refl))
  ReadsBack-all Action.cast_op h =
      (1, Decodes-plain OpCode.cast_op Action.cast_op (omega arith) (λ len. refl))
  ReadsBack-all Action.char_to_ascii h =
      (1, Decodes-plain OpCode.char_to_ascii Action.char_to_ascii (omega arith) (λ len. refl))
  ReadsBack-all Action.clone_sprite h =
      (1, Decodes-plain OpCode.clone_sprite Action.clone_sprite (omega arith) (λ len. refl))
  ReadsBack-all (Action.constant_pool cs) (hs, hn, hl) = (
    _,
    Decodes-operands OpCode.constant_pool (2 + sum_of str_len cs) _ (omega arith) hl
        (Decodes-map _ (Decodes-constant_pool cs hs hn)),
  )
  ReadsBack-all Action.decrement h =
      (1, Decodes-plain OpCode.decrement Action.decrement (omega arith) (λ len. refl))
  ReadsBack-all (Action.define_function name params actions) (hn, hps, hp, ha, hl) = (
    _,
    Decodes-operands OpCode.define_function (length name + 1 + 2 + sum_of str_len params + 2)
        (length name + 1 + 2 + sum_of str_len params + 2 + length actions) (omega arith) hl
        (Decodes-count _ (Decodes-define_function name params actions _ hn hps hp ha)
          (omega arith)),
  )
  ReadsBack-all (Action.define_function2 f) (hn, hps, hp, ha, hl) = (
    _,
    Decodes-operands OpCode.define_function2 (length f.name + 1 + 3 + sum_of param_len f.params + 4)
        (length f.name + 1 + 3 + sum_of param_len f.params + 4 + length f.actions) (omega arith) hl
        (Decodes-count _ (Decodes-define_function2 f _ hn hps hp ha) (omega arith)),
  )
  ReadsBack-all Action.define_local h =
      (1, Decodes-plain OpCode.define_local Action.define_local (omega arith) (λ len. refl))
  ReadsBack-all Action.define_local2 h =
      (1, Decodes-plain OpCode.define_local2 Action.define_local2 (omega arith) (λ len. refl))
  ReadsBack-all Action.delete h =
      (1, Decodes-plain OpCode.delete Action.delete (omega arith) (λ len. refl))
  ReadsBack-all Action.delete2 h =
      (1, Decodes-plain OpCode.delete2 Action.delete2 (omega arith) (λ len. refl))
  ReadsBack-all Action.divide h =
      (1, Decodes-plain OpCode.divide Action.divide (omega arith) (λ len. refl))
  ReadsBack-all Action.end_drag h =
      (1, Decodes-plain OpCode.end_drag Action.end_drag (omega arith) (λ len. refl))
  ReadsBack-all Action.enumerate h =
      (1, Decodes-plain OpCode.enumerate Action.enumerate (omega arith) (λ len. refl))
  ReadsBack-all Action.enumerate2 h =
      (1, Decodes-plain OpCode.enumerate2 Action.enumerate2 (omega arith) (λ len. refl))
  ReadsBack-all Action.equals h =
      (1, Decodes-plain OpCode.equals Action.equals (omega arith) (λ len. refl))
  ReadsBack-all Action.equals2 h =
      (1, Decodes-plain OpCode.equals2 Action.equals2 (omega arith) (λ len. refl))
  ReadsBack-all Action.extends h =
      (1, Decodes-plain OpCode.extends Action.extends (omega arith) (λ len. refl))
  ReadsBack-all Action.get_member h =
      (1, Decodes-plain OpCode.get_member Action.get_member (omega arith) (λ len. refl))
  ReadsBack-all Action.get_property h =
      (1, Decodes-plain OpCode.get_property Action.get_property (omega arith) (λ len. refl))
  ReadsBack-all Action.get_time h =
      (1, Decodes-plain OpCode.get_time Action.get_time (omega arith) (λ len. refl))
  ReadsBack-all (Action.get_url url target) (hu, ht, hl) = (
    _,
    Decodes-operands OpCode.get_url (length url + length target + 2)
        (length url + length target + 2) (omega arith) hl
        (Decodes-count _
          (Decodes-bind _ (Decodes-read_c_string url hu)
            (Decodes-map _ (Decodes-read_c_string target ht)))
          (omega arith)),
  )
  ReadsBack-all (Action.get_url2 m t l) h = (
    _,
    Decodes-operands OpCode.get_url2 1 1 (omega arith) (omega arith)
        (Decodes-map _ (Decodes-get_url2 m t l)),
  )
  ReadsBack-all Action.get_variable h =
      (1, Decodes-plain OpCode.get_variable Action.get_variable (omega arith) (λ len. refl))
  ReadsBack-all (Action.goto_frame frame) h = (
    _,
    Decodes-operands OpCode.goto_frame 2 2 (omega arith) (omega arith)
        (Decodes-map _ (Decodes-read_u16 frame h)),
  )
  ReadsBack-all (Action.goto_frame2 playing offset) h = ReadsBack-goto_frame2 playing offset h
  ReadsBack-all (Action.goto_label label) (hs, hl) = (
    _,
    Decodes-operands OpCode.goto_label (length label + 1) _ (omega arith) hl
        (Decodes-map _ (Decodes-read_c_string label hs)),
  )
  ReadsBack-all Action.greater h =
      (1, Decodes-plain OpCode.greater Action.greater (omega arith) (λ len. refl))
  ReadsBack-all (Action.action_if offset) h = (
    _,
    Decodes-operands OpCode.action_if 2 2 (omega arith) (omega arith)
        (Decodes-map _ (Decodes-read_i16 offset h)),
  )
  ReadsBack-all Action.implements_op h =
      (1, Decodes-plain OpCode.implements_op Action.implements_op (omega arith) (λ len. refl))
  ReadsBack-all Action.increment h =
      (1, Decodes-plain OpCode.increment Action.increment (omega arith) (λ len. refl))
  ReadsBack-all Action.init_array h =
      (1, Decodes-plain OpCode.init_array Action.init_array (omega arith) (λ len. refl))
  ReadsBack-all Action.init_object h =
      (1, Decodes-plain OpCode.init_object Action.init_object (omega arith) (λ len. refl))
  ReadsBack-all Action.instance_of h =
      (1, Decodes-plain OpCode.instance_of Action.instance_of (omega arith) (λ len. refl))
  ReadsBack-all (Action.jump offset) h = (
    _,
    Decodes-operands OpCode.jump 2 2 (omega arith) (omega arith)
        (Decodes-map _ (Decodes-read_i16 offset h)),
  )
  ReadsBack-all Action.less h =
      (1, Decodes-plain OpCode.less Action.less (omega arith) (λ len. refl))
  ReadsBack-all Action.less2 h =
      (1, Decodes-plain OpCode.less2 Action.less2 (omega arith) (λ len. refl))
  ReadsBack-all Action.mb_ascii_to_char h =
      (1, Decodes-plain OpCode.mb_ascii_to_char Action.mb_ascii_to_char (omega arith) (λ len. refl))
  ReadsBack-all Action.mb_char_to_ascii h =
      (1, Decodes-plain OpCode.mb_char_to_ascii Action.mb_char_to_ascii (omega arith) (λ len. refl))
  ReadsBack-all Action.mb_string_extract h = (
    1,
    Decodes-plain OpCode.mb_string_extract Action.mb_string_extract (omega arith) (λ len. refl),
  )
  ReadsBack-all Action.mb_string_length h =
      (1, Decodes-plain OpCode.mb_string_length Action.mb_string_length (omega arith) (λ len. refl))
  ReadsBack-all Action.modulo h =
      (1, Decodes-plain OpCode.modulo Action.modulo (omega arith) (λ len. refl))
  ReadsBack-all Action.multiply h =
      (1, Decodes-plain OpCode.multiply Action.multiply (omega arith) (λ len. refl))
  ReadsBack-all Action.new_method h =
      (1, Decodes-plain OpCode.new_method Action.new_method (omega arith) (λ len. refl))
  ReadsBack-all Action.new_object h =
      (1, Decodes-plain OpCode.new_object Action.new_object (omega arith) (λ len. refl))
  ReadsBack-all Action.next_frame h =
      (1, Decodes-plain OpCode.next_frame Action.next_frame (omega arith) (λ len. refl))
  ReadsBack-all Action.not h = (1, Decodes-plain OpCode.not Action.not (omega arith) (λ len. refl))
  ReadsBack-all Action.or h = (1, Decodes-plain OpCode.or Action.or (omega arith) (λ len. refl))
  ReadsBack-all Action.play h =
      (1, Decodes-plain OpCode.play Action.play (omega arith) (λ len. refl))
  ReadsBack-all Action.pop h = (1, Decodes-plain OpCode.pop Action.pop (omega arith) (λ len. refl))
  ReadsBack-all Action.previous_frame h =
      (1, Decodes-plain OpCode.previous_frame Action.previous_frame (omega arith) (λ len. refl))
  ReadsBack-all (Action.push values) (hs, hl) = (
    _,
    Decodes-operands OpCode.push (sum_of value_len values) _ (omega arith) hl
        (Decodes-map _ (Decodes-push values hs)),
  )
  ReadsBack-all Action.push_duplicate h =
      (1, Decodes-plain OpCode.push_duplicate Action.push_duplicate (omega arith) (λ len. refl))
  ReadsBack-all Action.random_number h =
      (1, Decodes-plain OpCode.random_number Action.random_number (omega arith) (λ len. refl))
  ReadsBack-all Action.remove_sprite h =
      (1, Decodes-plain OpCode.remove_sprite Action.remove_sprite (omega arith) (λ len. refl))
  ReadsBack-all Action.return h =
      (1, Decodes-plain OpCode.return Action.return (omega arith) (λ len. refl))
  ReadsBack-all Action.set_member h =
      (1, Decodes-plain OpCode.set_member Action.set_member (omega arith) (λ len. refl))
  ReadsBack-all Action.set_property h =
      (1, Decodes-plain OpCode.set_property Action.set_property (omega arith) (λ len. refl))
  ReadsBack-all (Action.set_target target) (hs, hl) = (
    _,
    Decodes-operands OpCode.set_target (length target + 1) _ (omega arith) hl
        (Decodes-map _ (Decodes-read_c_string target hs)),
  )
  ReadsBack-all Action.set_target2 h =
      (1, Decodes-plain OpCode.set_target2 Action.set_target2 (omega arith) (λ len. refl))
  ReadsBack-all Action.set_variable h =
      (1, Decodes-plain OpCode.set_variable Action.set_variable (omega arith) (λ len. refl))
  ReadsBack-all Action.stack_swap h =
      (1, Decodes-plain OpCode.stack_swap Action.stack_swap (omega arith) (λ len. refl))
  ReadsBack-all Action.start_drag h =
      (1, Decodes-plain OpCode.start_drag Action.start_drag (omega arith) (λ len. refl))
  ReadsBack-all Action.stop h =
      (1, Decodes-plain OpCode.stop Action.stop (omega arith) (λ len. refl))
  ReadsBack-all Action.stop_sounds h =
      (1, Decodes-plain OpCode.stop_sounds Action.stop_sounds (omega arith) (λ len. refl))
  ReadsBack-all (Action.store_register register) h = (
    _,
    Decodes-operands OpCode.store_register 1 1 (omega arith) (omega arith)
        (Decodes-map _ (Decodes-read_u8 register)),
  )
  ReadsBack-all Action.strict_equals h =
      (1, Decodes-plain OpCode.strict_equals Action.strict_equals (omega arith) (λ len. refl))
  ReadsBack-all Action.string_add h =
      (1, Decodes-plain OpCode.string_add Action.string_add (omega arith) (λ len. refl))
  ReadsBack-all Action.string_equals h =
      (1, Decodes-plain OpCode.string_equals Action.string_equals (omega arith) (λ len. refl))
  ReadsBack-all Action.string_extract h =
      (1, Decodes-plain OpCode.string_extract Action.string_extract (omega arith) (λ len. refl))
  ReadsBack-all Action.string_greater h =
      (1, Decodes-plain OpCode.string_greater Action.string_greater (omega arith) (λ len. refl))
  ReadsBack-all Action.string_length h =
      (1, Decodes-plain OpCode.string_length Action.string_length (omega arith) (λ len. refl))
  ReadsBack-all Action.string_less h =
      (1, Decodes-plain OpCode.string_less Action.string_less (omega arith) (λ len. refl))
  ReadsBack-all Action.subtract h =
      (1, Decodes-plain OpCode.subtract Action.subtract (omega arith) (λ len. refl))
  ReadsBack-all Action.target_path h =
      (1, Decodes-plain OpCode.target_path Action.target_path (omega arith) (λ len. refl))
  ReadsBack-all Action.throw h =
      (1, Decodes-plain OpCode.throw Action.throw (omega arith) (λ len. refl))
  ReadsBack-all Action.to_integer h =
      (1, Decodes-plain OpCode.to_integer Action.to_integer (omega arith) (λ len. refl))
  ReadsBack-all Action.to_number h =
      (1, Decodes-plain OpCode.to_number Action.to_number (omega arith) (λ len. refl))
  ReadsBack-all Action.to_string h =
      (1, Decodes-plain OpCode.to_string Action.to_string (omega arith) (λ len. refl))
  ReadsBack-all Action.toggle_quality h =
      (1, Decodes-plain OpCode.toggle_quality Action.toggle_quality (omega arith) (λ len. refl))
  ReadsBack-all Action.trace h =
      (1, Decodes-plain OpCode.trace Action.trace (omega arith) (λ len. refl))
  ReadsBack-all (Action.try block) h = absurd h
  ReadsBack-all Action.type_of h =
      (1, Decodes-plain OpCode.type_of Action.type_of (omega arith) (λ len. refl))
  ReadsBack-all (Action.wait_for_frame frame skip) h = (
    _,
    Decodes-operands OpCode.wait_for_frame 3 3 (omega arith) (omega arith)
        (Decodes-bind _ (Decodes-read_u16 frame h) (Decodes-map _ (Decodes-read_u8 skip))),
  )
  ReadsBack-all (Action.wait_for_frame2 skip) h = (
    _,
    Decodes-operands OpCode.wait_for_frame2 1 1 (omega arith) (omega arith)
        (Decodes-map _ (Decodes-read_u8 skip)),
  )
  ReadsBack-all (Action.with actions) h = absurd h
  ReadsBack-all (Action.unknown opcode data') h = ReadsBack-unknown opcode data' h
