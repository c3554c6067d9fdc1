-- ===== src/Swf/Avm1/Total.antt =====
-- `read_action` (swf/src/avm1/read.rs) ends on every input: its loops never run out of rounds.
use ruffle.Prelude.{
  ℕ, zero, suc, ◌+◌, ◌≤◌, refl, List, ◌∷◌, arith, Bool-cases, inl, inr, leb, ltb, le→ltb, Option,
  some, none, has_flag, bit_and, ◌==◌,
}
use ruffle.Swf.Error.{Result}
use ruffle.Swf.ByteOrder.{ByteOrder}
use ruffle.Swf.Read.{Reader, pure, continue, read_slice, ◌>>=◌, read_u8, read_u16, read_c_string}
use ruffle.Swf.Forward.{
  Steps, returns, fails, Forward, Forward-bind, Forward-pure, Forward-fail, Forward-weaken,
  Forward-if, Forward-read_u8, Forward-read_slice, Forward-read_c_string, Forward-read_many,
  Forward-read_u16, Forward-read_i16, Forward-read_i32, Forward-read_f32, Forward-read_f64,
  Steps-trans, Steps-continue,
}
use ruffle.Swf.Avm1.OpCode.{OpCode, from_u8}
use ruffle.Swf.Avm1.Types.{Action, Value}
use ruffle.Swf.Avm1.Read.{
  read_unknown_action, send_vars_method, read_get_url2, read_scene_offset, read_goto_frame2,
  read_constant_pool, value_of, read_push_value, read_push_loop, read_push, read_define_function,
  read_function_param, read_define_function_2, read_catch_var, read_try, read_with, read_known,
  read_op_as, read_op, read_length, read_opcode_and_length, finish_action, read_body, read_action,
}

Forward-u8 : Forward 0 read_u8
Forward-u8 = Forward-weaken Forward-read_u8

Forward-method : (bits : ℕ) → Forward 0 (send_vars_method bits)
unfolding send_vars_method
Forward-method bits = Forward-if (bits == 0) (Forward-pure _) (
    Forward-if (bits == 1) (Forward-pure _)
      (Forward-if (bits == 2) (Forward-pure _) (Forward-fail _)))

Forward-get_url2 : Forward 0 read_get_url2
unfolding read_get_url2
Forward-get_url2 =
    Forward-bind _ Forward-u8
      (λ flags. Forward-bind _ (Forward-method (bit_and flags 0b11)) (λ method. Forward-pure _))

Forward-function_param : Forward 0 read_function_param
unfolding read_function_param
Forward-function_param =
    Forward-bind _ Forward-u8
      (λ register. Forward-bind _ Forward-read_c_string (λ name. Forward-pure _))

Forward-catch_var : (flags : ℕ) → Forward 0 (read_catch_var flags)
unfolding read_catch_var
Forward-catch_var flags =
    Forward-if (has_flag flags 0b100) (Forward-bind _ Forward-u8 (λ i. Forward-pure _))
      (Forward-bind _ Forward-read_c_string (λ name. Forward-pure _))

module _ ⦃bo : ByteOrder⦄ where
  Forward-goto_frame2 : Forward 0 read_goto_frame2
  unfolding read_goto_frame2 read_scene_offset
  Forward-goto_frame2 = Forward-bind _ Forward-u8 (λ flags.
      Forward-bind _ (Forward-if (has_flag flags 0b10) Forward-read_u16 (Forward-pure 0))
        (λ offset. Forward-pure _))

  Forward-constant_pool : Forward 0 read_constant_pool
  unfolding read_constant_pool
  Forward-constant_pool = Forward-bind _ Forward-read_u16 (λ count.
      Forward-bind _ (Forward-read_many count read_c_string Forward-read_c_string)
        (λ cs. Forward-pure _))

  Forward-value_of : (tag : ℕ) → Forward 0 (value_of tag)
  unfolding value_of
  Forward-value_of tag =
      Forward-if (tag == 0) (Forward-bind _ Forward-read_c_string (λ v. Forward-pure _)) (
        Forward-if (tag == 1) (Forward-bind _ Forward-read_f32 (λ v. Forward-pure _)) (
          Forward-if (tag == 2) (Forward-pure _) (
            Forward-if (tag == 3) (Forward-pure _) (
              Forward-if (tag == 4) (Forward-bind _ Forward-u8 (λ v. Forward-pure _)) (
                Forward-if (tag == 5) (Forward-bind _ Forward-u8 (λ v. Forward-pure _)) (
                  Forward-if (tag == 6) (Forward-bind _ Forward-read_f64 (λ v. Forward-pure _)) (
                    Forward-if (tag == 7) (Forward-bind _ Forward-read_i32 (λ v. Forward-pure _)) (
                      Forward-if (tag == 8) (Forward-bind _ Forward-u8 (λ v. Forward-pure _)) (
                        Forward-if (tag == 9)
                          (Forward-bind _ Forward-read_u16 (λ v. Forward-pure _))
                          (Forward-fail _))))))))))

  Forward-push_value : Forward 1 read_push_value
  unfolding read_push_value
  Forward-push_value = Forward-bind _ Forward-read_u8 Forward-value_of

  Steps-push_rest :
      (fuel end_pos : ℕ) (r : Reader) {x : Result Value × Reader}
      → Steps 1 r x
      → ((s : Reader) → r.pos + 1 ≤ s.pos → Steps 0 s (read_push_loop fuel end_pos s))
      → Steps 0 r
          (continue (λ value. read_push_loop fuel end_pos >>= λ rest. pure (value ∷ rest)) x)
  unfolding ◌>>=◌
  Steps-push_rest fuel end_pos r (returns {a} {s} moved kept) ih =
      Steps-trans 0 (omega arith) kept (Steps-continue 0 s _ (λ rest. Forward-pure _) (ih s moved))
  Steps-push_rest fuel end_pos r (fails e) ih = fails e

  -- Each round moves the cursor, so the rounds suffice where they cover the bytes to go.
  Steps-push_loop :
      (fuel end_pos : ℕ) (r : Reader)
      → end_pos ≤ r.pos + fuel
      → Steps 0 r (read_push_loop fuel end_pos r)
  unfolding read_push_loop ◌>>=◌
  Steps-push_loop zero end_pos r h =
      rw (le→ltb r.pos end_pos (omega arith)) (returns (omega arith) refl)
  Steps-push_loop (suc fuel) end_pos r h = elim (Bool-cases (ltb r.pos end_pos)) [
    | inl more ↦ rw more (
        Steps-push_rest fuel end_pos r (Forward-push_value r)
          (λ s moved. Steps-push_loop fuel end_pos s (omega arith)))
    | inr done ↦ rw done (returns (omega arith) refl)
  ]

  Forward-push : (length : ℕ) → Forward 0 (read_push length)
  unfolding read_push ◌>>=◌
  Forward-push length r =
      Steps-continue 0 r _ (λ values. Forward-pure _)
        (Steps-push_loop length (r.pos + length) r (omega arith))

  Forward-code :
      {A : Type 0} (f : ℕ → List ℕ → A)
      → Forward 0 (read_u16 >>= λ n. read_slice n >>= λ code. pure (f n code))
  Forward-code f =
      Forward-bind _ Forward-read_u16
        (λ n. Forward-bind _ (Forward-read_slice n) (λ code. Forward-pure _))

  Forward-define_function : (length : ℕ) → Forward 0 (read_define_function length)
  unfolding read_define_function
  Forward-define_function length = Forward-bind _ Forward-read_c_string (λ name.
      Forward-bind _ Forward-read_u16 (λ n.
        Forward-bind _ (Forward-read_many n read_c_string Forward-read_c_string)
          (λ params. Forward-code _)))

  Forward-define_function2 : (length : ℕ) → Forward 0 (read_define_function_2 length)
  unfolding read_define_function_2
  Forward-define_function2 length = Forward-bind _ Forward-read_c_string (λ name.
      Forward-bind _ Forward-read_u16 (λ n. Forward-bind _ Forward-u8 (λ registers.
        Forward-bind _ Forward-read_u16 (λ flags.
          Forward-bind _ (Forward-read_many n read_function_param Forward-function_param)
            (λ params. Forward-code _)))))

  Forward-try : (length : ℕ) → Forward 0 (read_try length)
  unfolding read_try
  Forward-try length = Forward-bind _ Forward-u8 (λ flags. Forward-bind _ Forward-read_u16 (λ a.
      Forward-bind _ Forward-read_u16 (λ b. Forward-bind _ Forward-read_u16 (λ c.
        Forward-bind _ (Forward-catch_var flags) (λ var. Forward-bind _ (Forward-read_slice a) (λ x.
          Forward-bind _ (Forward-read_slice b)
            (λ y. Forward-bind _ (Forward-read_slice c) (λ z. Forward-pure _))))))))

  Forward-known : (op : OpCode) (length : ℕ) → Forward 0 (read_known op length)
  unfolding read_known read_with
  Forward-known OpCode.end length = Forward-pure _
  Forward-known OpCode.goto_frame length = Forward-bind _ Forward-read_u16 (λ a. Forward-pure _)
  Forward-known OpCode.get_url length =
      Forward-bind _ Forward-read_c_string
        (λ url. Forward-bind _ Forward-read_c_string (λ target. Forward-pure _))
  Forward-known OpCode.store_register length = Forward-bind _ Forward-u8 (λ a. Forward-pure _)
  Forward-known OpCode.constant_pool length =
      Forward-bind _ Forward-constant_pool (λ a. Forward-pure _)
  Forward-known OpCode.wait_for_frame length =
      Forward-bind _ Forward-read_u16 (λ a. Forward-bind _ Forward-u8 (λ b. Forward-pure _))
  Forward-known OpCode.set_target length =
      Forward-bind _ Forward-read_c_string (λ a. Forward-pure _)
  Forward-known OpCode.goto_label length =
      Forward-bind _ Forward-read_c_string (λ a. Forward-pure _)
  Forward-known OpCode.wait_for_frame2 length = Forward-bind _ Forward-u8 (λ a. Forward-pure _)
  Forward-known OpCode.define_function2 length = Forward-define_function2 length
  Forward-known OpCode.try length = Forward-try length
  Forward-known OpCode.with length = Forward-code _
  Forward-known OpCode.push length = Forward-bind _ (Forward-push length) (λ a. Forward-pure _)
  Forward-known OpCode.jump length = Forward-bind _ Forward-read_i16 (λ a. Forward-pure _)
  Forward-known OpCode.get_url2 length = Forward-bind _ Forward-get_url2 (λ a. Forward-pure _)
  Forward-known OpCode.define_function length = Forward-define_function length
  Forward-known OpCode.action_if length = Forward-bind _ Forward-read_i16 (λ a. Forward-pure _)
  Forward-known OpCode.goto_frame2 length = Forward-bind _ Forward-goto_frame2 (λ a. Forward-pure _)
  Forward-known _ length = Forward-pure _

  Forward-op_as : (op : Option OpCode) (opcode length : ℕ) → Forward 0 (read_op_as op opcode length)
  unfolding read_op_as read_unknown_action
  Forward-op_as (some op) opcode length = Forward-known op length
  Forward-op_as none opcode length =
      Forward-bind _ (Forward-bind _ (Forward-read_slice length) (λ data'. Forward-pure _))
        (λ a. Forward-pure _)

  Forward-header : Forward 1 read_opcode_and_length
  unfolding read_opcode_and_length read_length
  Forward-header = Forward-bind _ Forward-read_u8 (λ opcode.
      Forward-bind _ (Forward-if (leb 0x80 opcode) Forward-read_u16 (Forward-pure 0))
        (λ n. Forward-pure _))

  Steps-finish :
      (opcode : ℕ) (r : Reader) {x : Result (Option Action × ℕ) × Reader}
      → Steps 0 r x
      → Steps 0 r (finish_action opcode r.pos x)
  unfolding finish_action
  Steps-finish opcode r (returns {a = result} {s = s} moved kept) =
      elim (Bool-cases (s.pos == r.pos + result.1)) [
        | inl there ↦ rw there (returns moved kept)
        | inr elsewhere ↦ rw elsewhere (fails kept)
      ]
  Steps-finish opcode r (fails e) = fails e

  Forward-body : (opcode length : ℕ) → Forward 0 (read_body opcode length)
  unfolding read_body read_op ◌>>=◌
  Forward-body opcode length r =
      Steps-finish opcode r (Forward-op_as (from_u8 opcode) opcode length r)

  -- Whatever the buffer and the position, `read_action` ends: it returns with the cursor at least one
  -- byte further on, or fails with an error, and does not panic; the buffer stays as it is.
  pub read_action-Forward : (r : Reader) → Steps 1 r (read_action r)
  unfolding read_action
  read_action-Forward = Forward-bind _ Forward-header (λ header. Forward-body header.0 header.1)
