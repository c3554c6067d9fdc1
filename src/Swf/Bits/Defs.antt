-- ===== src/Swf/Bits/Defs.antt =====
-- `Reader` of swf/src/read.rs and `Writer` of swf/src/write.rs: bits, the highest of a byte first,
-- and rectangles, whose fields have as many bits as the greatest of them needs. The writer's output
-- is a `Vec<u8>`, so nothing fails but a shift that overflows. The version and the numbers of styles
-- that both keep for tags and shapes are left out.
use ruffle.Prelude.{
  ℕ, zero, suc, ◌+◌, ◌-◌, ◌*◌, ◌/◌, ◌%◌, ◌^◌, ℤ, pos, negsuc, List, [], ◌∷◌, ◌++◌, Option, some,
  none, Bool, ltb, leb, ◌==◌, if◌then◌else◌,
}
use ruffle.Swf.Error.{Result, ok, err, panics, out_of_fuel}
use ruffle.Swf.Read.{Reader, read_u8}
use ruffle.Core.BoundingBox.Defs.{Twips, Rectangle}

-- `Reader`, over the cursor of the other readers.
pub record BitReader : Type 0 where
  pub input : Reader
  pub byte : ℕ
  pub bit_index : ℕ

abbrev pub B : Type 0 → Type 0
B A = BitReader → Result A × BitReader

abbrev pub pure : {A : Type 0} → A → B A
pure a r = (ok a, r)

abbrev pub panic : {A : Type 0} → B A
panic r = (panics, r)

abbrev pub continue : {A C : Type 0} → (A → B C) → Result A × BitReader → Result C × BitReader
continue f (ok a, r) = f a r
continue f (err e, r) = (err e, r)
continue f (panics, r) = (panics, r)
continue f (out_of_fuel, r) = (out_of_fuel, r)

infixl 5 ◌>>=◌
unfoldable pub ◌>>=◌ : {A C : Type 0} → B A → (A → B C) → B C
◌>>=◌ m f r = continue f (m r)

unfoldable pub new_reader : Reader → BitReader
new_reader input = record { input = input; byte = 0; bit_index = 0 }

-- `n & (1 << i) != 0`
abbrev pub bit : ℕ → ℕ → Bool
bit i n = n / 2 ^ i % 2 == 1

-- `if b { 1 } else { 0 }`
abbrev pub bit_value : Bool → ℕ
bit_value b = if b then 1 else 0

unfoldable pub byte_align : B (Unit {0})
byte_align r = (ok tt, record r { bit_index = 0 })

-- `self.byte = self.input.read_u8()?; self.bit_index = 8;`
unfoldable pub loaded : BitReader → Result ℕ × Reader → Result (Unit {0}) × BitReader
loaded r (ok byte, input) = (ok tt, record { input = input; byte = byte; bit_index = 8 })
loaded r (err e, input) = (err e, record r { input = input })
loaded r (panics, input) = (panics, record r { input = input })
loaded r (out_of_fuel, input) = (out_of_fuel, record r { input = input })

unfoldable pub load_byte : B (Unit {0})
unfolding loaded
load_byte r = if r.bit_index == 0 then loaded r (read_u8 r.input) else (ok tt, r)

-- `self.bit_index -= 1; self.byte & (1 << self.bit_index) != 0`
unfoldable pub take_bit : B Bool
take_bit r = (ok (bit (r.bit_index - 1) r.byte), record r { bit_index = r.bit_index - 1 })

unfoldable pub read_bit : B Bool
unfolding load_byte take_bit
read_bit = load_byte >>= λ _. take_bit

-- `val <<= 1; val |= ..`, where the bit that is set is 0.
unfoldable pub read_ubits_loop : ℕ → ℕ → B ℕ
unfolding read_bit
read_ubits_loop zero val = pure val
read_ubits_loop (suc num_bits) val =
    read_bit >>= λ b. read_ubits_loop num_bits (val * 2 % 2 ^ 32 + bit_value b)

unfoldable pub read_ubits : ℕ → B ℕ
unfolding read_ubits_loop
read_ubits num_bits = read_ubits_loop num_bits 0

-- `(n as i32) << (32 - num_bits) >> (32 - num_bits)` for a number of as many bits.
unfoldable pub sign_extended : ℕ → ℕ → ℤ
sign_extended num_bits n =
    if ltb n (2 ^ (num_bits - 1)) then pos n else negsuc (2 ^ num_bits - 1 - n)

unfoldable pub read_sbits : ℕ → B ℤ
unfolding read_ubits sign_extended
read_sbits num_bits =
    if ltb 0 num_bits
    then (read_ubits num_bits >>= λ n.
        if ltb 32 num_bits then panic else pure (sign_extended num_bits n))
    else pure (pos 0)

unfoldable pub read_sbits_twips : ℕ → B Twips
unfolding read_sbits
read_sbits_twips num_bits = read_sbits num_bits

unfoldable pub read_rectangle : B Rectangle
unfolding byte_align read_ubits read_sbits_twips
read_rectangle = do
  aligned ← byte_align
  num_bits ← read_ubits 5
  x_min ← read_sbits_twips num_bits
  x_max ← read_sbits_twips num_bits
  y_min ← read_sbits_twips num_bits
  y_max ← read_sbits_twips num_bits
  pure (record { x_min = x_min; x_max = x_max; y_min = y_min; y_max = y_max })

-- `Writer`
pub record BitWriter : Type 0 where
  pub output : List ℕ
  pub byte : ℕ
  pub bit_index : ℕ

unfoldable pub new_writer : List ℕ → BitWriter
new_writer output = record { output = output; byte = 0; bit_index = 8 }

unfoldable pub flush_bits : BitWriter → BitWriter
flush_bits w =
    if w.bit_index == 8
    then w
    else record { output = w.output ++ w.byte ∷ []; byte = 0; bit_index = 8 }

-- `n |= 1 << i`
abbrev pub set_bit : ℕ → ℕ → ℕ
set_bit i n = if bit i n then n else n + 2 ^ i

-- `if set { self.byte |= 1 << self.bit_index; }`, after the index has been lowered.
unfoldable pub put_bit : Bool → BitWriter → BitWriter
put_bit set w =
    let i : ℕ = w.bit_index - 1 in
    record w { byte = if set then set_bit i w.byte else w.byte; bit_index = i }

unfoldable pub write_bit : Bool → BitWriter → BitWriter
unfolding put_bit flush_bits
write_bit set w = let next = put_bit set w in if next.bit_index == 0 then flush_bits next else next

-- An operation of the writer; `none` is a panic.
abbrev pub BitWrite : Type 0
BitWrite = BitWriter → Option BitWriter

abbrev pub go_on : BitWrite → Option BitWriter → Option BitWriter
go_on q none = none
go_on q (some w) = q w

infixl 5 ◌>>◌
abbrev pub ◌>>◌ : BitWrite → BitWrite → BitWrite
◌>>◌ p q w = go_on q (p w)

-- The highest of the bits comes first: `1 << (num_bits - i - 1)`, a u32, whose shift overflows from
-- 32 on.
unfoldable pub write_ubits : ℕ → ℕ → BitWrite
unfolding write_bit
write_ubits zero n w = some w
write_ubits (suc shift) n w =
    let rest = write_ubits shift n (write_bit (bit shift n) w) in
    if ltb 31 shift then none else rest

-- `n as u32`
unfoldable pub as_unsigned : ℤ → ℕ
as_unsigned (pos n) = n
as_unsigned (negsuc n) = 2 ^ 32 - 1 - n

unfoldable pub write_sbits : ℕ → ℤ → BitWrite
unfolding write_ubits as_unsigned
write_sbits num_bits n = write_ubits num_bits (as_unsigned n)

unfoldable pub write_sbits_twips : ℕ → Twips → BitWrite
unfolding write_sbits
write_sbits_twips num_bits twips = write_sbits num_bits twips

-- The loop of `count_ubits`: a u32 has 32 bits at most.
unfoldable pub count_ubits_loop : ℕ → ℕ → ℕ
count_ubits_loop zero n = 0
count_ubits_loop (suc rounds) n =
    let rest = count_ubits_loop rounds (n / 2) in if ltb 0 n then suc rest else 0

unfoldable pub count_ubits : ℕ → ℕ
unfolding count_ubits_loop
count_ubits n = count_ubits_loop 32 n

unfoldable pub count_sbits_twips : Twips → ℕ
unfolding count_ubits
count_sbits_twips (pos n) = if n == 0 then 0 else count_ubits n + 1
count_sbits_twips (negsuc n) = if n == 0 then 1 else count_ubits n + 1

unfoldable pub greater : ℕ → ℕ → ℕ
greater m n = if leb m n then n else m

-- The greatest of the four counts.
unfoldable pub rectangle_bits : Rectangle → ℕ
unfolding count_sbits_twips greater
rectangle_bits rectangle =
    greater (greater (count_sbits_twips rectangle.x_min) (count_sbits_twips rectangle.x_max))
      (greater (count_sbits_twips rectangle.y_min) (count_sbits_twips rectangle.y_max))

unfoldable pub write_rectangle : Rectangle → BitWrite
unfolding flush_bits rectangle_bits write_ubits write_sbits_twips
write_rectangle rectangle w =
    let num_bits = rectangle_bits rectangle in
    (write_ubits 5 num_bits
        >> write_sbits_twips num_bits rectangle.x_min
        >> write_sbits_twips num_bits rectangle.x_max
        >> write_sbits_twips num_bits rectangle.y_min
        >> write_sbits_twips num_bits rectangle.y_max)
      (flush_bits w)
