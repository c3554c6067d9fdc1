-- ===== src/Swf/Records.antt =====
-- The smallest fields of tags (swf/src/read.rs, swf/src/write.rs): tag headers, encoded numbers,
-- colours, languages and identifiers. They have whole bytes: `Reader` drops the bits that are left
-- of its byte before each, and `Writer` flushes its bits, so they are modelled on aligned bytes, with
-- the operations of the traits `SwfRead` and `SwfWrite`.
mod Agree
pub mod RoundTrip
mod Tests
use ruffle.Prelude.{ℕ, zero, suc, ◌+◌, ◌*◌, ◌/◌, ◌%◌, ◌^◌, ◌==◌, ltb, if◌then◌else◌, none}
use ruffle.Swf.Error.{invalid_data}
use ruffle.Swf.ByteOrder.{ByteOrder}
use ruffle.Swf.Read.{M, pure, fail, ◌>>=◌, read_u8, read_u16, read_with}
use ruffle.Swf.Write.{W, ◌>>◌, write_all, write_u8, write_u16}
use ruffle.Core.Html.TextFormat.{Color}

-- `for i in 0..5`: it ends after five bytes, whatever the fifth is.
unfoldable pub read_encoded_loop : ℕ → ℕ → ℕ → M ℕ
read_encoded_loop zero shift val = pure val
read_encoded_loop (suc rounds) shift val = do
  byte ← read_u8
  let next = val + byte % 128 * 2 ^ shift % 2 ^ 32
  let rest = read_encoded_loop rounds (shift + 7) next
  if ltb byte 128 then pure next else rest

unfoldable pub read_encoded_u32 : M ℕ
unfolding read_encoded_loop
read_encoded_u32 = read_encoded_loop 5 0 0

-- The loop of `write_encoded_u32`: a u32 has five groups of seven bits at most.
unfoldable pub write_encoded_loop : ℕ → ℕ → W
write_encoded_loop zero n = none
write_encoded_loop (suc rounds) n =
    let rest = write_u8 (128 + n % 128) >> write_encoded_loop rounds (n / 128) in
    if n / 128 == 0 then write_u8 (n % 128) else rest

unfoldable pub write_encoded_u32 : ℕ → W
unfolding write_encoded_loop
write_encoded_u32 n = write_encoded_loop 5 n

unfoldable pub read_rgb : M Color
read_rgb = do r ← read_u8; g ← read_u8; b ← read_u8; pure (record { r = r; g = g; b = b; a = 255 })

unfoldable pub read_rgba : M Color
read_rgba = do
  r ← read_u8
  g ← read_u8
  b ← read_u8
  a ← read_u8
  pure (record { r = r; g = g; b = b; a = a })

unfoldable pub write_rgb : Color → W
write_rgb color = write_u8 color.r >> (write_u8 color.g >> write_u8 color.b)

unfoldable pub write_rgba : Color → W
write_rgba color = write_u8 color.r >> (write_u8 color.g >> (write_u8 color.b >> write_u8 color.a))

pub data Language : Type 0 where
  unknown latin japanese korean simplified_chinese traditional_chinese : Language

-- The match on the code of a language.
unfoldable pub language_of : ℕ → M Language
language_of code =
    if code == 0
    then pure Language.unknown
    else if code == 1
    then pure Language.latin
    else if code == 2
    then pure Language.japanese
    else if code == 3
    then pure Language.korean
    else if code == 4
    then pure Language.simplified_chinese
    else if code == 5
    then pure Language.traditional_chinese
    else fail (invalid_data "Invalid language code")

unfoldable pub read_language : M Language
unfolding language_of
read_language = do code ← read_u8; language_of code

unfoldable pub language_code : Language → ℕ
language_code Language.unknown = 0
language_code Language.latin = 1
language_code Language.japanese = 2
language_code Language.korean = 3
language_code Language.simplified_chinese = 4
language_code Language.traditional_chinese = 5

unfoldable pub write_language : Language → W
unfolding language_code
write_language language = write_u8 (language_code language)

module _ ⦃bo : ByteOrder⦄ where
  unfoldable pub read_u32 : M ℕ
  unfolding read_with
  read_u32 = read_with bo.u32

  unfoldable pub write_u32 : ℕ → W
  write_u32 n = write_all (bo.u32.to_bytes n)

  unfoldable pub read_character_id : M ℕ
  read_character_id = read_u16

  unfoldable pub write_character_id : ℕ → W
  write_character_id id = write_u16 id

  -- The length of an extended tag follows.
  unfoldable pub read_length_after : ℕ → M ℕ
  unfolding read_u32
  read_length_after length = if length == 0b111111 then read_u32 else pure length

  unfoldable pub read_tag_code_and_length : M (ℕ × ℕ)
  unfolding read_length_after
  read_tag_code_and_length = do
    tag_code_and_length ← read_u16
    length ← read_length_after (tag_code_and_length % 64)
    pure (tag_code_and_length / 64, length)

  -- `tag_code << 6` is a u16; its lower bits are clear for the length.
  unfoldable pub write_tag_code_and_length : ℕ → ℕ → W
  unfolding write_u32
  write_tag_code_and_length tag_code length =
      if ltb length 0b111111
      then write_u16 (tag_code * 64 % 2 ^ 16 + length)
      else write_u16 (tag_code * 64 % 2 ^ 16 + 0b111111) >> write_u32 length
