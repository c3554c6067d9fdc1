-- ===== src/Swf/ByteOrder.antt =====
-- What the codecs take from the byteorder crate: fixed-width numbers as little-endian bytes.
use ruffle.Prelude.{ℕ, ◌<◌, ◌^◌, ◌≡◌, List, length, ℤ, FitsSigned}

-- Writing gives `width` bytes, and reading them gives the number back if it is of the type.
pub record Codec (A : Type 0) (width : ℕ) (Fits : A → Type 0) : Type 0 where
  pub to_bytes : A → List ℕ
  pub from_bytes : List ℕ → A
  pub length-to_bytes : (a : A) → length (to_bytes a) ≡ width
  pub from_bytes-to_bytes : (a : A) → Fits a → from_bytes (to_bytes a) ≡ a

-- `LittleEndian` at the types that the sources use. A float is its bit pattern.
pub record ByteOrder : Type 0 where
  pub u16 : Codec ℕ 2 (λ n. n < 2 ^ 16)
  pub i16 : Codec ℤ 2 (FitsSigned (2 ^ 15))
  pub u32 : Codec ℕ 4 (λ n. n < 2 ^ 32)
  pub i32 : Codec ℤ 4 (FitsSigned (2 ^ 31))
  pub f32 : Codec ℕ 4 (λ n. n < 2 ^ 32)
  pub f64 : Codec ℕ 8 (λ n. n < 2 ^ 64)
