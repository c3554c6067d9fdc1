-- ===== src/Swf/Write.antt =====
-- `SwfWrite` (swf/src/write.rs) into a `Vec<u8>`, whose writes never fail. A write is the bytes that
-- it appends; `none` is a panic of the writer.
use mathlib.Core.Option
use ruffle.Prelude.{ℕ, ℤ, List, [], ◌∷◌, ◌++◌, Option, none, some}
use ruffle.Swf.ByteOrder.{ByteOrder}
use ruffle.Swf.Read.{swap_words}

abbrev pub W : Type 0
W = Option (List ℕ)

infixl 5 ◌>>◌
abbrev pub ◌>>◌ : W → W → W
none >> w = none
some bytes >> w = Option.map (λ more. bytes ++ more) w

-- `write_all`
abbrev pub write_all : List ℕ → W
write_all bytes = some bytes

unfoldable pub write_u8 : ℕ → W
write_u8 n = write_all (n ∷ [])

unfoldable pub write_c_string : List ℕ → W
write_c_string s = write_all (s ++ 0 ∷ [])

-- `for value in values { write(value)?; }`
unfoldable pub write_each : {A : Type 0} → (A → W) → List A → W
write_each write [] = write_all []
write_each write (a ∷ as') = write a >> write_each write as'

module _ ⦃bo : ByteOrder⦄ where
  unfoldable pub write_u16 : ℕ → W
  write_u16 n = write_all (bo.u16.to_bytes n)

  unfoldable pub write_i16 : ℤ → W
  write_i16 n = write_all (bo.i16.to_bytes n)

  unfoldable pub write_i32 : ℤ → W
  write_i32 n = write_all (bo.i32.to_bytes n)

  unfoldable pub write_f32 : ℕ → W
  write_f32 n = write_all (bo.f32.to_bytes n)

  unfoldable pub write_f64 : ℕ → W
  write_f64 n = write_all (swap_words (bo.f64.to_bytes n))
