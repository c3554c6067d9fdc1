-- ===== src/Swf/Bits/Tests.antt =====
-- Bits and rectangles at concrete inputs, among them those of swf/src/write.rs.
use ruffle.Prelude.{
  ◌<◌, ◌≡◌, refl, List, [], ◌∷◌, ◌++◌, Bool, arith, pos, negsuc, length, some, none,
}
use ruffle.Swf.Error.{ok}
use ruffle.Swf.Decodes.{reader_at}
use ruffle.Core.BoundingBox.Defs.{Rectangle}
use ruffle.Swf.Bits.Defs.{
  BitReader, BitWriter, new_reader, new_writer, flush_bits, write_bit, put_bit, write_ubits,
  write_sbits, write_sbits_twips, write_rectangle, read_rectangle, read_sbits, rectangle_bits,
  count_sbits_twips, count_ubits, count_ubits_loop, greater, as_unsigned,
}
use ruffle.Swf.Bits.Lists.{bytes_bits, ubits}
use ruffle.Swf.Bits.Reading.{IsAt}
use ruffle.Swf.Bits.Writing.{HoldsBits-new_writer}
use ruffle.Swf.Bits.RoundTrip.{
  flush_bits-write_ubits, read_sbits-write_sbits, read_rectangle-write_rectangle,
}

-- One pixel around the origin.
abbrev pixel : Rectangle
pixel = record { x_min = negsuc 19; x_max = pos 20; y_min = negsuc 19; y_max = pos 20 }

write_rectangle_signed :
    write_rectangle pixel (new_writer [])
    ≡ some (record {
      output = 0b00110_101 ∷ 0b100_01010 ∷ 0b0_101100_0 ∷ [];
      byte = 0b10100_000;
      bit_index = 3;
    })
unfolding write_rectangle write_sbits_twips write_sbits write_ubits write_bit put_bit flush_bits
    new_writer rectangle_bits count_sbits_twips count_ubits count_ubits_loop greater as_unsigned
write_rectangle_signed = refl

-- A shift by 32 bits or more.
write_ubits_wide : write_ubits 40 255 (new_writer []) ≡ none
unfolding write_ubits
write_ubits_wide = refl

read_rectangle-write_rectangle_example :
    (writer : BitWriter) × (write_rectangle pixel (new_writer []) ≡ some writer)
    × (reader : BitReader) × (read_rectangle
          (new_reader (reader_at (1 ∷ []) (flush_bits writer).output (2 ∷ [])))
        ≡ (ok pixel, reader))
    × ((pad : List Bool) × (length pad < 8) × IsAt reader (pad ++ bytes_bits (2 ∷ [])))
read_rectangle-write_rectangle_example =
    read_rectangle-write_rectangle pixel (1 ∷ []) (2 ∷ [])
      (omega arith, omega arith, omega arith, omega arith)

flush_bits-write_ubits_example :
    (writer : BitWriter) × (write_ubits 5 19 (new_writer (255 ∷ [])) ≡ some writer)
    × (pad : List Bool) × (bytes_bits (flush_bits writer).output
        ≡ (bytes_bits (255 ∷ []) ++ ubits 5 19) ++ pad)
    × (length pad < 8)
flush_bits-write_ubits_example =
    flush_bits-write_ubits 5 19 (new_writer (255 ∷ [])) (bytes_bits (255 ∷ [])) (omega arith)
      (HoldsBits-new_writer (255 ∷ []))

read_sbits-write_sbits_example :
    (writer : BitWriter) × (write_sbits 12 (negsuc 1999) (new_writer []) ≡ some writer)
    × (reader : BitReader) × (read_sbits 12
          (new_reader (reader_at [] (flush_bits writer).output []))
        ≡ (ok (negsuc 1999), reader))
read_sbits-write_sbits_example =
    read_sbits-write_sbits 12 (negsuc 1999) [] [] (omega arith) (omega arith)
