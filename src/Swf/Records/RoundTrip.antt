-- ===== src/Swf/Records/RoundTrip.antt =====
-- What is written of these fields (swf/src/write.rs) is read back (swf/src/read.rs).
use ruffle.Prelude.{
  ℕ, ◌+◌, ◌*◌, ◌/◌, ◌%◌, ◌^◌, ◌<◌, ◌≡◌, refl, ◌∙◌, List, some, arith, length, ltb, Bool-cases, inl,
  inr, ne→==, ltb→lt,
}
use ruffle.Swf.Error.{ok}
use ruffle.Swf.ByteOrder.{ByteOrder}
use ruffle.Swf.Read.{pure, ◌>>=◌, advance, read_u16}
use ruffle.Swf.Write.{write_u16}
use ruffle.Swf.Decodes.{Decodes-at, reader_at}
use ruffle.Swf.Decodes.Fields.{Decodes-read_u16, Decodes-codec}
use ruffle.Swf.Avm2.Reads.{Reads, Reads-Decodes, Reads-bind, Reads-map, Reads-last, Reads-u8}
use ruffle.Swf.Avm2.Varint.{read_u30-write_u30}
use ruffle.Swf.Avm2.Primitives.{read_u30, write_u30, write_u32}
use ruffle.Core.Html.TextFormat.{Color}
use ruffle.Swf.Records
use ruffle.Swf.Records.{
  read_encoded_u32, write_encoded_u32, read_rgb, read_rgba, write_rgb, write_rgba, Language,
  language_of, language_code, read_language, write_language, read_u32, read_length_after,
  read_tag_code_and_length, write_tag_code_and_length,
}
use ruffle.Swf.Records.Agree.{read_u30_loop-Follows, write_encoded_loop-write_u32_loop}

-- The same bytes as in the ABC format, which are read in the same way.
Reads-encoded_u32 : (n : ℕ) → n < 2 ^ 32 → Reads read_encoded_u32 (write_encoded_u32 n) n
unfolding read_encoded_u32 write_encoded_u32 read_u30 write_u30 write_u32
Reads-encoded_u32 n h =
    let d = (read_u30-write_u30 n h).decodes in
    Reads-Decodes (record {
      bytes = d.bytes;
      written = write_encoded_loop-write_u32_loop 5 n ∙ d.written;
      counted = d.counted;
      reads = λ r rest at. read_u30_loop-Follows 5 0 0 r n _ (d.reads r rest at);
    })

-- Every u32, at every place of every buffer: `write_encoded_u32` writes bytes from which
-- `read_encoded_u32` returns that number, moving just past them.
pub read_encoded_u32-write_encoded_u32 :
    (n : ℕ) (before after : List ℕ)
    → n < 2 ^ 32
    → (bytes : List ℕ) × (write_encoded_u32 n ≡ some bytes)
      × (read_encoded_u32 (reader_at before bytes after)
          ≡ (ok n, advance (length bytes) (reader_at before bytes after)))
read_encoded_u32-write_encoded_u32 n before after h =
    Decodes-at (Reads-encoded_u32 n h).decodes before after

Reads-rgba : (c : Color) → Reads read_rgba (write_rgba c) c
unfolding read_rgba write_rgba
Reads-rgba c =
    Reads-bind _ (Reads-u8 c.r)
      (Reads-bind _ (Reads-u8 c.g) (Reads-bind _ (Reads-u8 c.b) (Reads-map _ (Reads-u8 c.a))))

Reads-rgb : (c : Color) → Reads read_rgb (write_rgb c) (record c { a = 255 })
unfolding read_rgb write_rgb
Reads-rgb c = Reads-bind _ (Reads-u8 c.r) (Reads-bind _ (Reads-u8 c.g) (Reads-map _ (Reads-u8 c.b)))

-- Every colour, at every place of every buffer: `read_rgba` returns what `write_rgba` wrote, and
-- `read_rgb` what `write_rgb` wrote, with 255 for the alpha that is not written.
pub read_rgba-write_rgba :
    (c : Color) (before after : List ℕ)
    → ((bytes : List ℕ) × (write_rgba c ≡ some bytes)
        × (read_rgba (reader_at before bytes after)
            ≡ (ok c, advance (length bytes) (reader_at before bytes after))))
      × ((bytes : List ℕ) × (write_rgb c ≡ some bytes)
          × (read_rgb (reader_at before bytes after)
              ≡ (ok (record c { a = 255 }), advance (length bytes) (reader_at before bytes after))))
read_rgba-write_rgba c before after =
    (Decodes-at (Reads-rgba c).decodes before after, Decodes-at (Reads-rgb c).decodes before after)

language_of-language_code : (l : Language) → language_of (language_code l) ≡ pure l
unfolding language_of language_code
language_of-language_code Language.unknown = refl
language_of-language_code Language.latin = refl
language_of-language_code Language.japanese = refl
language_of-language_code Language.korean = refl
language_of-language_code Language.simplified_chinese = refl
language_of-language_code Language.traditional_chinese = refl

Reads-language : (l : Language) → Reads read_language (write_language l) l
unfolding read_language write_language
Reads-language l = Reads-last _ (Reads-u8 (language_code l)) (language_of-language_code l)

-- Every language, at every place of every buffer: `read_language` returns what `write_language`
-- wrote.
pub read_language-write_language :
    (l : Language) (before after : List ℕ)
    → (bytes : List ℕ) × (write_language l ≡ some bytes)
      × (read_language (reader_at before bytes after)
          ≡ (ok l, advance (length bytes) (reader_at before bytes after)))
read_language-write_language l before after = Decodes-at (Reads-language l).decodes before after

module _ ⦃bo : ByteOrder⦄ where
  Reads-header_word : (n : ℕ) → n < 2 ^ 16 → Reads read_u16 (write_u16 n) n
  Reads-header_word n h = Reads-Decodes (Decodes-read_u16 n h)

  Reads-length : (n : ℕ) → n < 2 ^ 32 → Reads read_u32 (Records.write_u32 n) n
  unfolding read_u32 Records.write_u32
  Reads-length n h = Reads-Decodes (Decodes-codec bo.u32 n h)

  Reads-tag_header :
      (tag_code len : ℕ)
      → len < 2 ^ 32
      → Reads read_tag_code_and_length
          (write_tag_code_and_length tag_code len)
          (tag_code % 1024, len)
  unfolding read_tag_code_and_length write_tag_code_and_length read_length_after ◌>>=◌
  Reads-tag_header tag_code len h = elim (Bool-cases (ltb len 0b111111)) [
    | inl short ↦
        let small : len < 63 = ltb→lt len 63 short in
        let code : (tag_code * 64 % 2 ^ 16 + len) / 64 ≡ tag_code % 1024 = omega (arith, small) in
        let low : (tag_code * 64 % 2 ^ 16 + len) % 64 ≡ len = omega (arith, small) in
        rw short (
          Reads-last _ (Reads-header_word _ (omega (arith, small)))
            (rw (code, low, ne→== len 63 (λ e. omega (arith, e, small))) refl))
    | inr long ↦
        let code : (tag_code * 64 % 2 ^ 16 + 63) / 64 ≡ tag_code % 1024 = omega arith in
        let low : (tag_code * 64 % 2 ^ 16 + 63) % 64 ≡ 63 = omega arith in
        rw long (
          Reads-bind _ (Reads-header_word _ (omega arith))
            (rw (code, low) (Reads-map _ (Reads-length len h))))
  ]

  -- For every tag code and every length below 2 ^ 32, at every place of every buffer, in the short
  -- form or the long one: `read_tag_code_and_length` returns the length that
  -- `write_tag_code_and_length` wrote, and the lower ten bits of the code, which are all that is
  -- written of it.
  pub read_tag_code_and_length-write_tag_code_and_length :
      (tag_code len : ℕ) (before after : List ℕ)
      → len < 2 ^ 32
      → (bytes : List ℕ) × (write_tag_code_and_length tag_code len ≡ some bytes)
        × (read_tag_code_and_length (reader_at before bytes after)
            ≡ (ok (tag_code % 1024, len), advance (length bytes) (reader_at before bytes after)))
  read_tag_code_and_length-write_tag_code_and_length tag_code len before after h =
      Decodes-at (Reads-tag_header tag_code len h).decodes before after
