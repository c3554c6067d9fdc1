-- ===== src/Swf/LittleEndian.antt =====
-- The interface of the crate byteorder filled by the layout of swf files, for the tests.
use ruffle.Prelude.{
  ℕ, ◌+◌, ◌-◌, ◌*◌, ◌/◌, ◌%◌, ◌^◌, ◌≡◌, refl, ap, ◌∙◌, List, [], ◌∷◌, ◌++◌, arith, ℤ, pos, negsuc,
  FitsSigned, ltb, if◌then◌else◌, lt→ltb, le→ltb,
}
use ruffle.Swf.ByteOrder.{ByteOrder}

-- Two bytes, the lower one first.
abbrev pub le2 : ℕ → List ℕ
le2 n = n % 256 ∷ n / 256 ∷ []

abbrev pub of2 : List ℕ → ℕ
of2 (a ∷ b ∷ []) = a + 256 * b
of2 _ = 0

abbrev pub le4 : ℕ → List ℕ
le4 n = n % 256 ∷ n / 256 % 256 ∷ n / 65536 % 256 ∷ n / 16777216 ∷ []

abbrev pub of4 : List ℕ → ℕ
of4 (a ∷ b ∷ c ∷ d ∷ []) = a + 256 * b + 65536 * c + 16777216 * d
of4 _ = 0

pub of2-le2 : (n : ℕ) → of2 (le2 n) ≡ n
of2-le2 n = omega arith

pub of4-le4 : (n : ℕ) → of4 (le4 n) ≡ n
of4-le4 n = omega arith

-- Two's complement in a word with `half` below the sign.
abbrev pub word_of : ℕ → ℤ → ℕ
word_of half (pos n) = n
word_of half (negsuc n) = 2 * half - 1 - n

abbrev pub signed : ℕ → ℕ → ℤ
signed half w = if ltb w half then pos w else negsuc (2 * half - 1 - w)

pub signed-word_of : (half : ℕ) (v : ℤ) → FitsSigned half v → signed half (word_of half v) ≡ v
signed-word_of half (pos n) h = rw (lt→ltb n half h)
signed-word_of half (negsuc n) h =
    rw (le→ltb (2 * half - 1 - n) half (omega arith)) (ap negsuc (omega arith))

abbrev pub le8 : ℕ → List ℕ
le8 n = le4 (n % 2 ^ 32) ++ le4 (n / 2 ^ 32)

abbrev pub of8 : List ℕ → ℕ
of8 (a ∷ b ∷ c ∷ d ∷ rest) = of4 (a ∷ b ∷ c ∷ d ∷ []) + 2 ^ 32 * of4 rest
of8 _ = 0

pub of8-le8 : (n : ℕ) → of8 (le8 n) ≡ n
of8-le8 n = omega arith

instance abbrev pub little_endian : ByteOrder
little_endian = record {
  u16 = record {
    to_bytes = le2;
    from_bytes = of2;
    length-to_bytes = λ n. refl;
    from_bytes-to_bytes = λ n h. of2-le2 n;
  };
  i16 = record {
    to_bytes = λ v. le2 (word_of (2 ^ 15) v);
    from_bytes = λ bytes. signed (2 ^ 15) (of2 bytes);
    length-to_bytes = λ v. refl;
    from_bytes-to_bytes =
        λ v h. ap (signed (2 ^ 15)) (of2-le2 (word_of (2 ^ 15) v)) ∙ signed-word_of (2 ^ 15) v h;
  };
  u32 = record {
    to_bytes = le4;
    from_bytes = of4;
    length-to_bytes = λ n. refl;
    from_bytes-to_bytes = λ n h. of4-le4 n;
  };
  i32 = record {
    to_bytes = λ v. le4 (word_of (2 ^ 31) v);
    from_bytes = λ bytes. signed (2 ^ 31) (of4 bytes);
    length-to_bytes = λ v. refl;
    from_bytes-to_bytes =
        λ v h. ap (signed (2 ^ 31)) (of4-le4 (word_of (2 ^ 31) v)) ∙ signed-word_of (2 ^ 31) v h;
  };
  f32 = record {
    to_bytes = le4;
    from_bytes = of4;
    length-to_bytes = λ n. refl;
    from_bytes-to_bytes = λ n h. of4-le4 n;
  };
  f64 = record {
    to_bytes = le8;
    from_bytes = of8;
    length-to_bytes = λ n. refl;
    from_bytes-to_bytes = λ n h. of8-le8 n;
  };
}
