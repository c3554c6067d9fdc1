-- ===== src/Swf/Records/Tests.antt =====
-- The fields at concrete inputs.
use ruffle.Prelude.{ℕ, ◌≡◌, List, [], ◌∷◌, some, arith, length}
use ruffle.Swf.Error.{ok}
use ruffle.Swf.LittleEndian.{little_endian}
use ruffle.Swf.Read.{advance}
use ruffle.Swf.Decodes.{reader_at}
use ruffle.Core.Html.TextFormat.{Color}
use ruffle.Swf.Records.{
  read_encoded_u32, write_encoded_u32, read_rgb, read_rgba, write_rgb, write_rgba, Language,
  read_language, write_language, read_tag_code_and_length, write_tag_code_and_length,
}
use ruffle.Swf.Records.RoundTrip.{
  read_encoded_u32-write_encoded_u32, read_rgba-write_rgba, read_language-write_language,
  read_tag_code_and_length-write_tag_code_and_length,
}

read_encoded_u32-write_encoded_u32_example :
    (bytes : List ℕ) × (write_encoded_u32 4000000000 ≡ some bytes)
    × (read_encoded_u32 (reader_at [] bytes (1 ∷ []))
        ≡ (ok 4000000000, advance (length bytes) (reader_at [] bytes (1 ∷ []))))
read_encoded_u32-write_encoded_u32_example =
    read_encoded_u32-write_encoded_u32 4000000000 [] (1 ∷ []) (omega arith)

abbrev orange : Color
orange = record { r = 255; g = 128; b = 1; a = 64 }

read_rgba-write_rgba_example :
    ((bytes : List ℕ) × (write_rgba orange ≡ some bytes)
      × (read_rgba (reader_at [] bytes [])
          ≡ (ok orange, advance (length bytes) (reader_at [] bytes []))))
    × ((bytes : List ℕ) × (write_rgb orange ≡ some bytes)
        × (read_rgb (reader_at [] bytes [])
            ≡ (ok (record orange { a = 255 }), advance (length bytes) (reader_at [] bytes []))))
read_rgba-write_rgba_example = read_rgba-write_rgba orange [] []

read_language-write_language_example :
    (bytes : List ℕ) × (write_language Language.korean ≡ some bytes)
    × (read_language (reader_at [] bytes [])
        ≡ (ok Language.korean, advance (length bytes) (reader_at [] bytes [])))
read_language-write_language_example = read_language-write_language Language.korean [] []

read_tag_code_and_length-write_tag_code_and_length_example :
    (bytes : List ℕ) × (write_tag_code_and_length 69 63 ≡ some bytes)
    × (read_tag_code_and_length (reader_at [] bytes [])
        ≡ (ok (69, 63), advance (length bytes) (reader_at [] bytes [])))
read_tag_code_and_length-write_tag_code_and_length_example =
    read_tag_code_and_length-write_tag_code_and_length 69 63 [] [] (omega arith)
