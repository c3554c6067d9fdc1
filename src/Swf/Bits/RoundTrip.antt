-- ===== src/Swf/Bits/RoundTrip.antt =====
-- A rectangle that is written (swf/src/write.rs) is read back (swf/src/read.rs).
use ruffle.Prelude.{
  ℕ, ◌%◌, ◌^◌, ◌<◌, ◌≤◌, ◌≡◌, sym, ap, ◌∙◌, subst, List, [], ◌++◌, append_assoc, append-nil, Bool,
  arith, length, ℤ, some,
}
use native.Mathlib.Nat.{mod-eq_of_lt}
use ruffle.Swf.Error.{ok}
use ruffle.Swf.Decodes.{reader_at, Ahead-reader_at}
use ruffle.Core.BoundingBox.Defs.{Rectangle}
use ruffle.Swf.Bits.Defs.{
  BitReader, BitWriter, B, pure, continue, ◌>>=◌, new_reader, new_writer, flush_bits, as_unsigned,
  read_ubits, read_sbits, read_sbits_twips, read_rectangle, write_sbits, write_sbits_twips,
  write_ubits, write_rectangle, rectangle_bits,
}
use ruffle.Swf.Bits.Lists.{ubits, bytes_bits, bytes_bits-append}
use ruffle.Swf.Bits.Reading.{
  IsAt, ReadsBits, ReadsBits-bind, ReadsBits-pure, ReadsBits-result, ReadsBits-ubits,
  IsAt-byte_align,
}
use ruffle.Swf.Bits.Writing.{
  HoldsBits, HoldsBits-new_writer, Appends, Appends-then, Appends-write_ubits, flush_bits-HoldsBits,
}
use ruffle.Swf.Bits.Signed.{FitsBits, ReadsBits-sbits, IsSmall, IsSmall-rectangle_bits}

-- The layout of a rectangle: the number of bits, and the four coordinates in as many bits.
abbrev layout : Rectangle → List Bool
layout r =
    let k = rectangle_bits r in
    ubits 5 k
    ++ (ubits k (as_unsigned r.x_min)
        ++ (ubits k (as_unsigned r.x_max)
            ++ (ubits k (as_unsigned r.y_min) ++ (ubits k (as_unsigned r.y_max) ++ []))))

-- What `read_rectangle` does once it is aligned.
abbrev fields : B Rectangle
fields = read_ubits 5 >>= λ num_bits. read_sbits_twips num_bits >>= λ x_min.
    read_sbits_twips num_bits >>= λ x_max. read_sbits_twips num_bits >>= λ y_min.
    read_sbits_twips num_bits >>= λ y_max.
    pure (record { x_min = x_min; x_max = x_max; y_min = y_min; y_max = y_max })

ReadsBits-layout : (r : Rectangle) → IsSmall r → ReadsBits fields (layout r) r
unfolding read_sbits_twips
ReadsBits-layout r h =
    let k = rectangle_bits r in
    let (bound, h1, h2, h3, h4) = IsSmall-rectangle_bits r h in
    let small : k % 2 ^ 5 ≡ k = mod-eq_of_lt (omega (arith, bound)) in
    let fits : k ≤ 32 = omega (arith, bound) in
    let count = ReadsBits-result (ReadsBits-ubits 5 k (omega (arith, bound, small))) small in
    ReadsBits-bind _ count (
      ReadsBits-bind _ (ReadsBits-sbits k r.x_min fits h1) (
        ReadsBits-bind _ (ReadsBits-sbits k r.x_max fits h2) (
          ReadsBits-bind _ (ReadsBits-sbits k r.y_min fits h3)
            (ReadsBits-bind _ (ReadsBits-sbits k r.y_max fits h4) (ReadsBits-pure r)))))

to_right :
    (a b c d e : List Bool) → (((a ++ b) ++ c) ++ d) ++ e ≡ a ++ (b ++ (c ++ (d ++ (e ++ []))))
to_right a b c d e =
    append_assoc ((a ++ b) ++ c) d e
    ∙ append_assoc (a ++ b) c (d ++ e)
    ∙ append_assoc a b (c ++ (d ++ e))
    ∙ ap (λ bs. a ++ (b ++ (c ++ (d ++ bs)))) (sym (append-nil e))

-- A new writer holds the layout of a rectangle that it has written.
HoldsBits-layout :
    (r : Rectangle)
    → IsSmall r
    → (writer : BitWriter) × (write_rectangle r (new_writer []) ≡ some writer)
      × HoldsBits writer (layout r)
unfolding write_rectangle write_sbits_twips write_sbits flush_bits new_writer
HoldsBits-layout r h =
    let k = rectangle_bits r in
    let (bound, h1, h2, h3, h4) = IsSmall-rectangle_bits r h in
    let fits : k ≤ 32 = omega (arith, bound) in
    let appends : (z : ℤ) → Appends (write_ubits k (as_unsigned z)) (ubits k (as_unsigned z)) =
      λ z. Appends-write_ubits k (as_unsigned z) fits in
    let (writer, ran, held) =
      Appends-then
        (Appends-then
          (Appends-then (Appends-then (Appends-write_ubits 5 k (omega arith)) (appends r.x_min))
            (appends r.x_max))
          (appends r.y_min))
        (appends r.y_max) (new_writer []) [] (HoldsBits-new_writer []) in
    (
      writer,
      ran,
      subst (HoldsBits writer)
          (to_right (ubits 5 k) (ubits k (as_unsigned r.x_min)) (ubits k (as_unsigned r.x_max))
            (ubits k (as_unsigned r.y_min)) (ubits k (as_unsigned r.y_max)))
          held,
    )

-- For every rectangle whose coordinates have 31 bits: on a new writer `write_rectangle` does not
-- panic, and after `flush_bits` the writer holds bytes from which `read_rectangle`, wherever they
-- stand in a buffer, returns that rectangle; what the reader then has in front are fewer than eight
-- bits that fill up the last byte, and the bytes behind.
pub read_rectangle-write_rectangle :
    (r : Rectangle) (before after : List ℕ)
    → IsSmall r
    → (writer : BitWriter) × (write_rectangle r (new_writer []) ≡ some writer)
      × (reader : BitReader) × (read_rectangle
            (new_reader (reader_at before (flush_bits writer).output after))
          ≡ (ok r, reader))
      × ((pad : List Bool) × (length pad < 8) × IsAt reader (pad ++ bytes_bits after))
unfolding read_rectangle ◌>>=◌ new_reader
read_rectangle-write_rectangle r before after h =
    let (writer, wrote, holds) = HoldsBits-layout r h in
    let bytes = (flush_bits writer).output in
    let (pad, held, short) = flush_bits-HoldsBits writer holds in
    let start = new_reader (reader_at before bytes after) in
    let (aligned, moved, at) =
      IsAt-byte_align start (bytes ++ after) (Ahead-reader_at before bytes after) in
    let bits : bytes_bits (bytes ++ after) ≡ layout r ++ (pad ++ bytes_bits after) =
      bytes_bits-append bytes after
      ∙ ap (λ bs. bs ++ bytes_bits after) held
      ∙ append_assoc (layout r) pad (bytes_bits after) in
    let (reader, ran, done) =
      (ReadsBits-layout r h).reads aligned (pad ++ bytes_bits after)
        (subst (IsAt aligned) bits at) in
    (writer, wrote, reader, ap (continue (λ _. fields)) moved ∙ ran, (pad, short, done))

-- For every number of bits up to 32 and every writer that holds some bits: `write_ubits` does not
-- panic, and after it and `flush_bits` the bits of the writer's output are those held, the lower bits
-- of the number with the highest of them first, and fewer than eight more.
pub flush_bits-write_ubits :
    (m n : ℕ) (w : BitWriter) (bits : List Bool)
    → m ≤ 32
    → HoldsBits w bits
    → (writer : BitWriter) × (write_ubits m n w ≡ some writer)
      × (pad : List Bool) × (bytes_bits (flush_bits writer).output ≡ (bits ++ ubits m n) ++ pad)
      × (length pad < 8)
flush_bits-write_ubits m n w bits small h =
    let (writer, ran, held) = Appends-write_ubits m n small w bits h in
    let (pad, filled, short) = flush_bits-HoldsBits writer held in (writer, ran, pad, filled, short)

-- For every number of bits up to 32 and every signed number of so many bits: on a new writer
-- `write_sbits` does not panic, and after `flush_bits` the writer holds bytes from which
-- `read_sbits`, wherever they stand in a buffer, returns that number.
pub read_sbits-write_sbits :
    (num_bits : ℕ) (n : ℤ) (before after : List ℕ)
    → num_bits ≤ 32
    → FitsBits num_bits n
    → (writer : BitWriter) × (write_sbits num_bits n (new_writer []) ≡ some writer)
      × (reader : BitReader) × (read_sbits num_bits
            (new_reader (reader_at before (flush_bits writer).output after))
          ≡ (ok n, reader))
unfolding new_reader write_sbits
read_sbits-write_sbits num_bits n before after bound h =
    let value = as_unsigned n in
    let (writer, wrote, holds) =
      Appends-write_ubits num_bits value bound (new_writer []) [] (HoldsBits-new_writer []) in
    let bytes = (flush_bits writer).output in
    let (pad, held, short) = flush_bits-HoldsBits writer holds in
    let start = new_reader (reader_at before bytes after) in
    let bits : bytes_bits (bytes ++ after) ≡ ubits num_bits value ++ (pad ++ bytes_bits after) =
      bytes_bits-append bytes after
      ∙ ap (λ bs. bs ++ bytes_bits after) held
      ∙ append_assoc (ubits num_bits value) pad (bytes_bits after) in
    let (reader, ran, done) =
      (ReadsBits-sbits num_bits n bound h).reads start (pad ++ bytes_bits after) (record {
        bytes = bytes ++ after;
        ahead = Ahead-reader_at before bytes after;
        here = bits;
      }) in
    (writer, wrote, reader, ran)
