-- ===== src/Swf/Avm2/Primitives.antt =====
-- Numbers, indices and strings of the ABC format, read (swf/src/avm2/read.rs) and written
-- (swf/src/avm2/write.rs). An arithmetic overflow that the language checks is a panic.
use ruffle.Prelude.{
  ℕ, zero, suc, ◌+◌, ◌-◌, ◌*◌, ◌/◌, ◌%◌, ◌^◌, ℤ, pos, negsuc, List, none, ltb, ◌==◌, if◌then◌else◌,
  length, Bool, min,
}
use ruffle.Swf.Error.{io_error}
use ruffle.Swf.Utf8.{is_utf8}
use ruffle.Swf.Read.{M, pure, fail, panic, ◌>>=◌, remaining, read_exact, read_u8}
use ruffle.Swf.Write.{W, ◌>>◌, write_all, write_u8}
use ruffle.Swf.Avm2.Types.{Str, Index}

-- The loop of `read_u30` with the shift `i`, the bits of `n` lying below it. After the fifth byte
-- the shift is not one of a u32.
unfoldable pub read_u30_loop : ℕ → ℕ → ℕ → M ℕ
read_u30_loop zero i n = do byte ← read_u8; panic
read_u30_loop (suc rounds) i n = do
  byte ← read_u8
  let next = n + byte % 128 * 2 ^ i % 2 ^ 32
  let rest = read_u30_loop rounds (i + 7) next
  if ltb byte 128 then pure next else rest

unfoldable pub read_u30 : M ℕ
unfolding read_u30_loop
read_u30 = read_u30_loop 5 0 0

unfoldable pub read_u32 : M ℕ
unfolding read_u30
read_u32 = read_u30

-- The lowest byte comes first; nothing extends the sign.
unfoldable pub read_i24 : M ℤ
read_i24 = do
  low ← read_u8
  middle ← read_u8
  high ← read_u8
  pure (pos (low + middle * 2 ^ 8 + high * 2 ^ 16))

-- `n <<= 32 - i; n >>= 32 - i` for a number of `i` bits.
unfoldable pub sign_extend : ℕ → ℕ → M ℤ
sign_extend i n =
    if ltb 32 i
    then panic
    else if ltb n (2 ^ (i - 1))
    then pure (pos n)
    else pure (negsuc (2 ^ i - 1 - n))

-- The loop of `read_i32`, likewise.
unfoldable pub read_i32_loop : ℕ → ℕ → ℕ → M ℤ
unfolding sign_extend
read_i32_loop zero i n = do byte ← read_u8; panic
read_i32_loop (suc rounds) i n = do
  byte ← read_u8
  let next = n + byte % 128 * 2 ^ i % 2 ^ 32
  let rest = read_i32_loop rounds (i + 7) next
  if ltb byte 128 then sign_extend (i + 7) next else rest

unfoldable pub read_i32 : M ℤ
unfolding read_i32_loop
read_i32 = read_i32_loop 5 0 0

unfoldable pub read_index : M Index
unfolding read_u30
read_index = read_u30

-- `take(len).read_to_end`: all of `len` bytes, or what is left of the input.
unfoldable pub read_up_to : ℕ → M (List ℕ)
read_up_to len r = read_exact (min len (length (remaining r))) r

-- `read_to_string`
unfoldable pub string_of : List ℕ → M Str
string_of bytes = if is_utf8 bytes then pure bytes else fail io_error

unfoldable pub read_string : M Str
unfolding read_u30 read_up_to string_of
read_string = do len ← read_u30; bytes ← read_up_to len; string_of bytes

-- `n as u32`
abbrev pub as_u32 : ℕ → ℕ
as_u32 n = n % 2 ^ 32

-- The loop of `write_u32`: a u32 has five groups of seven bits at most.
unfoldable pub write_u32_loop : ℕ → ℕ → W
write_u32_loop zero n = none
write_u32_loop (suc rounds) n =
    let rest = write_u8 (128 + n % 128) >> write_u32_loop rounds (n / 128) in
    if n / 128 == 0 then write_u8 (n % 128) else rest

unfoldable pub write_u32 : ℕ → W
unfolding write_u32_loop
write_u32 n = write_u32_loop 5 n

unfoldable pub write_u30 : ℕ → W
unfolding write_u32
write_u30 n = write_u32 n

-- `n as u8 & 0x7f`
unfoldable pub low_bits : ℤ → ℕ
low_bits (pos n) = n % 128
low_bits (negsuc n) = 127 - n % 128

-- `n >> 7`
unfoldable pub shift_right : ℤ → ℤ
shift_right (pos n) = pos (n / 128)
shift_right (negsuc n) = negsuc (n / 128)

-- `n == 0 || n == -1`
unfoldable pub is_sign : ℤ → Bool
is_sign (pos n) = n == 0
is_sign (negsuc n) = n == 0

-- The loop of `write_i32`.
unfoldable pub write_i32_loop : ℕ → ℤ → W
unfolding low_bits shift_right is_sign
write_i32_loop zero n = none
write_i32_loop (suc rounds) n =
    let rest = write_u8 (128 + low_bits n) >> write_i32_loop rounds (shift_right n) in
    if is_sign (shift_right n) then write_u8 (low_bits n) else rest

unfoldable pub write_i32 : ℤ → W
unfolding write_i32_loop
write_i32 n = write_i32_loop 5 n

-- `(n >> shift) & 0xff` of an i32
unfoldable pub byte_of : ℤ → ℕ → ℕ
byte_of (pos n) weight = n / weight % 256
byte_of (negsuc n) weight = 255 - n / weight % 256

-- The highest byte comes first.
unfoldable pub write_i24 : ℤ → W
unfolding byte_of
write_i24 n =
    write_u8 (byte_of n (2 ^ 16)) >> (write_u8 (byte_of n (2 ^ 8)) >> write_u8 (byte_of n 1))

unfoldable pub write_index : Index → W
unfolding write_u30
write_index i = write_u30 i

unfoldable pub write_string : Str → W
unfolding write_u30
write_string s = write_u30 (as_u32 (length s)) >> write_all s
