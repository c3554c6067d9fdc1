-- ===== src/Swf/Avm1/Tests.antt =====
-- The codec at the inputs of swf/src/test_data.rs, and the theorems at concrete inputs.
use ruffle.Prelude.{
  ℕ, ◌-◌, ◌^◌, ◌≡◌, refl, List, [], ◌∷◌, some, none, arith, false, negsuc, length, sum_of,
}
use ruffle.Swf.Error.{ok, err, avm1_parse_error}
use ruffle.Swf.Read.{
  advance, read_many, read_u8, read_u16, read_with, read_exact, ◌>>=◌, seek, set_position, as_i64,
  as_u64, is_i64,
}
use ruffle.Swf.Write.{write_each, write_u8, write_u16, write_c_string}
use ruffle.Swf.Decodes.{reader_at}
use ruffle.Swf.Decodes.Fields.{IsCStr}
use ruffle.Swf.Utf8.{is_utf8}
use ruffle.Swf.Forward.{Steps}
use ruffle.Swf.LittleEndian.{little_endian}
use ruffle.Swf.Avm1.Types.{Action, Value, CatchVar, TryBlock}
use ruffle.Swf.Avm1.OpCode.{as_u8, from_u8}
use ruffle.Swf.Avm1.Read.{
  read_action, read_opcode_and_length, read_length, read_body, read_op, read_op_as, read_known,
  read_push, read_push_loop, read_push_value, value_of, finish_action,
}
use ruffle.Swf.Avm1.Write.{
  write_action, write_push, write_action_header, write_opcode_and_length, write_push_value,
  value_len,
}
use ruffle.Swf.Avm1.RoundTrip.{read_action-write_action, read_actions-write_actions}
use ruffle.Swf.Avm1.Faults.{goto_frame2_stopped, try_counted_twice}
use ruffle.Swf.Avm1.Total.{read_action-Forward}

-- A jump back by three bytes, and one that leaves the buffer in front of it.
seek_back :
    seek (negsuc 2) (reader_at (1 ∷ 2 ∷ 3 ∷ 4 ∷ []) [] [])
    ≡ (ok tt, reader_at (1 ∷ []) (2 ∷ 3 ∷ 4 ∷ []) [])
unfolding seek set_position as_i64 as_u64 is_i64
seek_back = refl

seek_before_start :
    seek (negsuc 1) (reader_at [] (1 ∷ []) [])
    ≡ (ok tt, record { input = 1 ∷ []; pos = 2 ^ 64 - 2 })
unfolding seek set_position as_i64 as_u64 is_i64
seek_before_start = refl

-- "test"
abbrev test_str : List ℕ
test_str = b't' ∷ b'e' ∷ b's' ∷ b't' ∷ []

test_str-IsCStr : IsCStr test_str
unfolding is_utf8
test_str-IsCStr = (refl, omega arith)

write_push_str :
    write_action (Action.push (Value.str test_str ∷ []))
    ≡ some (0x96 ∷ 6 ∷ 0 ∷ 0 ∷ 116 ∷ 101 ∷ 115 ∷ 116 ∷ 0 ∷ [])
unfolding write_action write_push write_action_header write_opcode_and_length write_u8 write_u16
    write_each write_push_value write_c_string value_len sum_of as_u8
write_push_str = refl

-- The extra byte behind the action is not read.
read_push_to_end_of_action : read_action (reader_at [] (0x96 ∷ 2 ∷ 0 ∷ 2 ∷ 3 ∷ []) (3 ∷ [])) ≡ (
  ok (some (Action.push (Value.null ∷ Value.undefined ∷ []))),
  record { input = 0x96 ∷ 2 ∷ 0 ∷ 2 ∷ 3 ∷ 3 ∷ []; pos = 5 },
)
unfolding read_action read_opcode_and_length read_length read_body read_op read_op_as read_known
    read_push read_push_loop read_push_value value_of read_u8 read_u16 read_with read_exact from_u8
    finish_action ◌>>=◌
read_push_to_end_of_action = refl

read_action-write_action_example :
    (bytes : List ℕ) × (write_action (Action.push (Value.str test_str ∷ Value.int (negsuc 49) ∷ []))
      ≡ some bytes)
    × (read_action (reader_at (0x07 ∷ []) bytes (0x06 ∷ [])) ≡ (
      ok (some (Action.push (Value.str test_str ∷ Value.int (negsuc 49) ∷ []))),
      advance (length bytes) (reader_at (0x07 ∷ []) bytes (0x06 ∷ [])),
    ))
read_action-write_action_example =
    read_action-write_action (Action.push (Value.str test_str ∷ Value.int (negsuc 49) ∷ []))
      (0x07 ∷ []) (0x06 ∷ [])
      ((test_str-IsCStr, (omega arith, tt)), unfold value_len sum_of in omega arith)

read_actions-write_actions_example :
    (bytes : List ℕ) × (write_each write_action (Action.add ∷ Action.goto_frame 11 ∷ [])
      ≡ some bytes)
    × (read_many 2 read_action (reader_at [] bytes []) ≡ (
      ok (some Action.add ∷ some (Action.goto_frame 11) ∷ []),
      advance (length bytes) (reader_at [] bytes []),
    ))
read_actions-write_actions_example =
    read_actions-write_actions (Action.add ∷ Action.goto_frame 11 ∷ []) [] []
      (tt, (omega arith, tt))

goto_frame2_stopped_example :
    (bytes : List ℕ) × (write_action (Action.goto_frame2 false 259) ≡ some bytes)
    × (length bytes ≡ 6)
    × (read_action (reader_at [] bytes (0x06 ∷ []))
        ≡ (err (avm1_parse_error 0x9f), advance 6 (reader_at [] bytes (0x06 ∷ []))))
goto_frame2_stopped_example = goto_frame2_stopped 259 [] (0x06 ∷ []) (omega arith)

abbrev try_block : TryBlock
try_block = record {
  try_actions = 0x07 ∷ [];
  catch = some (CatchVar.register 1, 0x06 ∷ []);
  finally = none;
}

try_counted_twice_example :
    (bytes : List ℕ) × (write_action (Action.try try_block) ≡ some bytes)
    × (length bytes ≡ 13)
    × (read_action (reader_at [] bytes [])
        ≡ (err (avm1_parse_error 0x8f), advance 15 (reader_at [] bytes [])))
try_counted_twice_example =
    try_counted_twice (0x07 ∷ []) (0x06 ∷ []) [] [] (CatchVar.register 1) none tt (omega arith)
      (omega arith)

read_action-Forward_example :
    Steps 1 (reader_at [] (0x96 ∷ 2 ∷ []) []) (read_action (reader_at [] (0x96 ∷ 2 ∷ []) []))
read_action-Forward_example = read_action-Forward (reader_at [] (0x96 ∷ 2 ∷ []) [])
