-- ===== src/Swf/Read.antt =====
-- `SwfRead` over a `Cursor<&[u8]>` (swf/src/read.rs) with the cursor operations that the AVM1
-- reader adds to it (swf/src/avm1/read.rs). A reader keeps its buffer and a position, which
-- survive an error, so an action returns a result and the reader that it leaves behind.
use ruffle.Prelude.{
  ℕ, zero, suc, ◌+◌, ◌-◌, List, ◌++◌, [], ◌∷◌, length, take, drop, ℤ, pos, negsuc, ◌+ℤ◌, ◌^◌, Bool,
  ltb, leb, ◌==◌, if◌then◌else◌,
}
use ruffle.Swf.Error.{Error, Result, ok, err, panics, out_of_fuel, io_error, invalid_data}
use ruffle.Swf.ByteOrder.{ByteOrder, Codec}
use ruffle.Swf.Utf8.{is_utf8}

-- `inner` is the cursor: its buffer, and its position, which may lie behind the end. The field
-- `version` of the source is never read.
pub record Reader : Type 0 where
  pub input : List ℕ
  pub pos : ℕ

abbrev pub M : Type 0 → Type 0
M A = Reader → Result A × Reader

abbrev pub pure : {A : Type 0} → A → M A
pure a r = (ok a, r)

abbrev pub fail : {A : Type 0} → Error → M A
fail e r = (err e, r)

abbrev pub panic : {A : Type 0} → M A
panic r = (panics, r)

abbrev pub continue : {A B : Type 0} → (A → M B) → Result A × Reader → Result B × Reader
continue f (ok a, r) = f a r
continue f (err e, r) = (err e, r)
continue f (panics, r) = (panics, r)
continue f (out_of_fuel, r) = (out_of_fuel, r)

infixl 5 ◌>>=◌ ◌>>◌
unfoldable pub ◌>>=◌ : {A B : Type 0} → M A → (A → M B) → M B
◌>>=◌ m f r = continue f (m r)

unfoldable pub ◌>>◌ : {A B : Type 0} → M A → M B → M B
unfolding ◌>>=◌
m >> k = m >>= λ _. k

unfoldable pub new : List ℕ → Reader
new input = record { input = input; pos = 0 }

-- What the cursor has in front of it.
abbrev pub remaining : Reader → List ℕ
remaining r = drop r.pos r.input

abbrev pub advance : ℕ → Reader → Reader
advance n r = record r { pos = r.pos + n }

abbrev pub position : M ℕ
position r = (ok r.pos, r)

unfoldable pub set_position : ℕ → M (Unit {0})
set_position p r = (ok tt, record r { pos = p })

-- `n as i64` for a u64, and `n as u64` for an i64.
unfoldable pub as_i64 : ℕ → ℤ
as_i64 n = if ltb n (2 ^ 63) then pos n else negsuc (2 ^ 64 - 1 - n)

unfoldable pub as_u64 : ℤ → ℕ
as_u64 (pos n) = n
as_u64 (negsuc n) = 2 ^ 64 - 1 - n

unfoldable pub is_i64 : ℤ → Bool
is_i64 (pos n) = ltb n (2 ^ 63)
is_i64 (negsuc n) = ltb n (2 ^ 63)

-- Moves the cursor, also out of the buffer; a sum that is no i64 is a panic.
unfoldable pub seek : ℤ → M (Unit {0})
unfolding set_position as_i64 as_u64 is_i64
seek relative_offset r =
    let new_pos = as_i64 r.pos +ℤ relative_offset in
    if is_i64 new_pos then set_position (as_u64 new_pos) r else (panics, r)

-- `Cursor::read_exact`: all of `n` bytes, or an error that leaves the cursor where it was.
unfoldable pub read_exact : ℕ → M (List ℕ)
read_exact n r =
    if leb n (length (remaining r))
    then (ok (take n (remaining r)), advance n r)
    else (err io_error, r)

head_byte : List ℕ → ℕ
head_byte [] = 0
head_byte (b ∷ bs) = b

unfoldable pub read_u8 : M ℕ
unfolding read_exact head_byte
read_u8 = do bytes ← read_exact 1; pure (head_byte bytes)

-- `self.inner.get_ref().get(start..start + len)`
unfoldable pub slice_of : ℕ → ℕ → M (List ℕ)
slice_of start len r =
    if leb (start + len) (length r.input)
    then (ok (take len (drop start r.input)), r)
    else (err io_error, r)

-- A slice of the buffer. The cursor moves first, and stays moved if the slice is out of bounds.
unfoldable pub read_slice : ℕ → M (List ℕ)
unfolding set_position slice_of
read_slice len = do start ← position; set_position (start + len); slice_of start len

-- `loop { let byte = self.read_u8()?; if byte == 0 { break; } }`. The list is what the cursor has
-- not reached; at its end `read_u8` fails.
unfoldable pub find_zero : List ℕ → M (Unit {0})
unfolding read_u8
find_zero [] = do read_u8; pure tt
find_zero (b ∷ bs) =
    let rest = find_zero bs in do byte ← read_u8; if byte == 0 then pure tt else rest

unfoldable pub from_utf8 : List ℕ → M (List ℕ)
from_utf8 bytes = if is_utf8 bytes then pure bytes else fail (invalid_data "Invalid string data")

unfoldable pub find_terminator : M (Unit {0})
unfolding find_zero
find_terminator r = find_zero (remaining r) r

-- `&self.inner.get_ref()[start_pos..self.pos() - 1]`, which panics where the range is not in order or
-- not in the buffer.
unfoldable pub str_slice : ℕ → M (List ℕ)
str_slice start r =
    if leb (start + 1) r.pos
    then (if leb (r.pos - 1) (length r.input)
        then (ok (take (r.pos - 1 - start) (drop start r.input)), r)
        else (panics, r))
    else (panics, r)

unfoldable pub string_from : ℕ → M (List ℕ)
unfolding str_slice from_utf8
string_from start = do bytes ← str_slice start; from_utf8 bytes

-- A zero-terminated string, as the UTF-8 bytes of the `&str`.
unfoldable pub read_c_string : M (List ℕ)
unfolding find_terminator string_from
read_c_string = do start ← position; find_terminator; string_from start

-- Of eight bytes the first four and the last four change places.
unfoldable pub swap_words : List ℕ → List ℕ
swap_words num = drop 4 num ++ take 4 num

module _ ⦃bo : ByteOrder⦄ where
  unfoldable pub read_with : {A : Type 0} {width : ℕ} {Fits : A → Type 0} → Codec A width Fits → M A
  unfolding read_exact
  read_with {width = width} codec = do bytes ← read_exact width; pure (codec.from_bytes bytes)

  unfoldable pub read_u16 : M ℕ
  unfolding read_with
  read_u16 = read_with bo.u16

  unfoldable pub read_i16 : M ℤ
  unfolding read_with
  read_i16 = read_with bo.i16

  unfoldable pub read_i32 : M ℤ
  unfolding read_with
  read_i32 = read_with bo.i32

  unfoldable pub read_f32 : M ℕ
  unfolding read_with
  read_f32 = read_with bo.f32

  -- The two 32-bit halves of a float stand in the order high, low.
  unfoldable pub read_f64 : M ℕ
  unfolding read_exact swap_words
  read_f64 = do num ← read_exact 8; pure (bo.f64.from_bytes (swap_words num))

-- `for _ in 0..count { values.push(read()?); }`
unfoldable pub read_many : {A : Type 0} → ℕ → M A → M (List A)
read_many zero read = pure []
read_many (suc count) read = do value ← read; rest ← read_many count read; pure (value ∷ rest)
