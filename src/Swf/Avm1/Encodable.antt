-- ===== src/Swf/Avm1/Encodable.antt =====
-- Which actions the writer of swf/src/avm1/write.rs can write.
use ruffle.Prelude.{
  ◌+◌, ◌<◌, ◌≤◌, ◌^◌, ◌≡◌, ◌≢◌, none, true, false, All, length, sum_of, FitsSigned, ◌⊎◌,
}
use ruffle.Swf.Decodes.Fields.{IsCStr}
use ruffle.Swf.Avm1.OpCode.{from_u8}
use ruffle.Swf.Avm1.Types.{Action}
use ruffle.Swf.Avm1.Write.{str_len, value_len}
use ruffle.Swf.Avm1.Operands.{IsEncodableValue}
use ruffle.Swf.Avm1.Functions.{param_len, IsEncodableParam}

-- Operands that the writer can write: strings without a zero byte, counts and lengths of 16 bits, and
-- no use of the variants that it writes wrongly (see Swf/Avm1/Faults.antt): a stopped ActionGotoFrame2
-- with an offset or a playing one without, ActionTry, and ActionWith.
abbrev pub IsEncodable : Action → Type 0
IsEncodable (Action.constant_pool cs) =
    All IsCStr cs × (length cs < 2 ^ 16) × (2 + sum_of str_len cs < 2 ^ 16)
IsEncodable (Action.define_function name params actions) =
    IsCStr name
    × All IsCStr params
    × (length params < 2 ^ 16)
    × (length actions < 2 ^ 16)
    × (length name + 1 + 2 + sum_of str_len params + 2 < 2 ^ 16)
IsEncodable (Action.define_function2 f) =
    IsCStr f.name
    × All IsEncodableParam f.params
    × (length f.params < 2 ^ 16)
    × (length f.actions < 2 ^ 16)
    × (length f.name + 1 + 3 + sum_of param_len f.params + 4 < 2 ^ 16)
IsEncodable (Action.get_url url target) =
    IsCStr url × IsCStr target × (length url + length target + 2 < 2 ^ 16)
IsEncodable (Action.goto_frame frame) = frame < 2 ^ 16
IsEncodable (Action.goto_frame2 true offset) = (offset ≢ 0) × (offset < 2 ^ 16)
IsEncodable (Action.goto_frame2 false offset) = offset ≡ 0
IsEncodable (Action.goto_label label) = IsCStr label × (length label + 1 < 2 ^ 16)
IsEncodable (Action.action_if offset) = FitsSigned (2 ^ 15) offset
IsEncodable (Action.jump offset) = FitsSigned (2 ^ 15) offset
IsEncodable (Action.push values) = All IsEncodableValue values × (sum_of value_len values < 2 ^ 16)
IsEncodable (Action.set_target target) = IsCStr target × (length target + 1 < 2 ^ 16)
IsEncodable (Action.try block) = ⊥
IsEncodable (Action.wait_for_frame frame skip) = frame < 2 ^ 16
IsEncodable (Action.with actions) = ⊥
IsEncodable (Action.unknown opcode data') =
    (from_u8 opcode ≡ none) × ((0x80 ≤ opcode) ⊎ (length data' ≡ 0)) × (length data' < 2 ^ 16)
IsEncodable _ = Unit
