-- ===== src/Swf/Bits/Reading.antt =====
-- Reading bits (swf/src/read.rs): a reader takes the next bits of its bytes, in order.
use ruffle.Prelude.{
  ℕ, zero, suc, ◌+◌, ◌-◌, ◌*◌, ◌%◌, ◌^◌, ◌<◌, ◌≤◌, ◌≡◌, refl, sym, ap, ◌∙◌, subst, List, [], ◌∷◌,
  ◌++◌, append_assoc, Bool, arith, length, ne→==,
}
use native.Mathlib.Nat.{mod-eq_of_lt}
use ruffle.Swf.Error.{ok}
use ruffle.Swf.Read.{Reader, advance}
use ruffle.Swf.Write.{write_u8}
use ruffle.Swf.Decodes.{Ahead, Ahead-advance, Decodes-run}
use ruffle.Swf.Decodes.Fields.{Decodes-read_u8}
use ruffle.Swf.Bits.Defs.{
  BitReader, B, pure, continue, ◌>>=◌, bit_value, byte_align, loaded, load_byte, take_bit, read_bit,
  read_ubits_loop, read_ubits,
}
use ruffle.Swf.Bits.Lists.{ubits, bytes_bits, value, value-le, value-ubits}

-- The bits that the reader has in front of it: those left of its byte, and those of the bytes ahead.
pub record IsAt (r : BitReader) (bits : List Bool) : Type 0 where
  pub bytes : List ℕ
  pub ahead : Ahead r.input bytes
  pub here : ubits r.bit_index r.byte ++ bytes_bits bytes ≡ bits

-- With these bits in front, the reader returns `a` and moves past them.
pub record ReadsBits {A : Type 0} (p : B A) (bits : List Bool) (a : A) : Type 0 where
  pub reads :
      (r : BitReader) (rest : List Bool)
      → IsAt r (bits ++ rest)
      → (r' : BitReader) × (p r ≡ (ok a, r')) × IsAt r' rest

pub ReadsBits-pure : {A : Type 0} (a : A) → ReadsBits (pure a) [] a
ReadsBits-pure a = record { reads = λ r rest h. (r, refl, h) }

pub ReadsBits-bind :
    {A C : Type 0} {p : B A} (f : A → B C) {bits more : List Bool} {a : A} {c : C}
    → ReadsBits p bits a
    → ReadsBits (f a) more c
    → ReadsBits (p >>= f) (bits ++ more) c
unfolding ◌>>=◌
ReadsBits-bind f {bits = bits} {more = more} d e = record {
  reads = λ r rest h.
      let (r', ran, at) =
        d.reads r (more ++ rest) (subst (IsAt r) (append_assoc bits more rest) h) in
      let (s, went, done) = e.reads r' rest at in (s, ap (continue f) ran ∙ went, done);
}

pub ReadsBits-result :
    {A : Type 0} {p : B A} {bits : List Bool} {a b : A}
    → ReadsBits p bits a
    → a ≡ b
    → ReadsBits p bits b
ReadsBits-result {p = p} {bits = bits} d e = subst (ReadsBits p bits) e d

same_head : {A : Type 0} {x y : A} {xs ys : List A} → x ∷ xs ≡ y ∷ ys → x ≡ y
same_head h = cc

same_tail : {A : Type 0} {x y : A} {xs ys : List A} → x ∷ xs ≡ y ∷ ys → xs ≡ ys
same_tail h = cc

-- A bit that is left of the byte.
taken :
    (input : Reader) (byte i : ℕ) (b : Bool) (rest : List Bool)
    → IsAt (record { input = input; byte = byte; bit_index = suc i }) (b ∷ rest)
    → (r' : BitReader) × (take_bit (record { input = input; byte = byte; bit_index = suc i })
        ≡ (ok b, r'))
      × IsAt r' rest
unfolding take_bit
taken input byte i b rest h =
    let index : suc i - 1 ≡ i = omega arith in
    (
      record { input = input; byte = byte; bit_index = i },
      rw index (
          ap (λ c. (ok c, record { input = input; byte = byte; bit_index = i }))
            (same_head h.here)),
      record { bytes = h.bytes; ahead = h.ahead; here = same_tail h.here },
    )

-- The next byte is loaded where none of the byte is left.
read_bit-next :
    (input : Reader) (byte index : ℕ) (bytes : List ℕ) (b : Bool) (rest : List Bool)
    → Ahead input bytes
    → ubits index byte ++ bytes_bits bytes ≡ b ∷ rest
    → (r' : BitReader) × (read_bit (record { input = input; byte = byte; bit_index = index })
        ≡ (ok b, r'))
      × IsAt r' rest
unfolding read_bit load_byte loaded ◌>>=◌ write_u8
read_bit-next input byte (suc i) bytes b rest h e =
    let (r', ran, at) = taken input byte i b rest (record { bytes = bytes; ahead = h; here = e }) in
    (r', rw (ne→== (suc i) 0 (λ k. omega (arith, k))) ran, at)
read_bit-next input byte zero [] b rest h e = absurd (nonempty e)
  where
    nonempty : {x : Bool} {xs : List Bool} → [] ≡ x ∷ xs → ⊥
    nonempty h = cc
read_bit-next input byte zero (x ∷ bytes) b rest h e =
    let d = Decodes-read_u8 x in
    let (r', ran, at) =
      taken (advance 1 input) x 7 b rest
        (record { bytes = bytes; ahead = Ahead-advance input (x ∷ []) bytes h; here = e }) in
    (
      r',
      ap
            (λ k.
              continue (λ _. take_bit)
                (loaded (record { input = input; byte = byte; bit_index = 0 }) k))
            (Decodes-run (x ∷ []) d input bytes h)
          ∙ ran,
      at,
    )

pub ReadsBits-bit : (b : Bool) → ReadsBits read_bit (b ∷ []) b
ReadsBits-bit b = record {
  reads = λ r rest h. read_bit-next r.input r.byte r.bit_index h.bytes b rest h.ahead h.here;
}

-- The value of the bits, as long as it has 32 of them at most.
ReadsBits-loop :
    (bits : List Bool) (acc : ℕ)
    → value acc bits < 2 ^ 32
    → ReadsBits (read_ubits_loop (length bits) acc) bits (value acc bits)
unfolding read_ubits_loop
ReadsBits-loop [] acc h = ReadsBits-pure acc
ReadsBits-loop (b ∷ bits) acc h =
    let bound : acc * 2 + bit_value b ≤ value (acc * 2 + bit_value b) bits =
      value-le (acc * 2 + bit_value b) bits in
    let small : acc * 2 % 2 ^ 32 ≡ acc * 2 = mod-eq_of_lt (omega (arith, bound, h)) in
    rw small (ReadsBits-bind _ (ReadsBits-bit b) (ReadsBits-loop bits (acc * 2 + bit_value b) h))

length-ubits : (m n : ℕ) → length (ubits m n) ≡ m
length-ubits zero n = refl
length-ubits (suc m) n = ap suc (length-ubits m n)

-- The lower bits of a number are read as their number.
pub ReadsBits-ubits :
    (m n : ℕ) → n % 2 ^ m < 2 ^ 32 → ReadsBits (read_ubits m) (ubits m n) (n % 2 ^ m)
unfolding read_ubits
ReadsBits-ubits m n h =
    let same = value-ubits m n in
    ReadsBits-result
      (subst (λ k. ReadsBits (read_ubits_loop k 0) (ubits m n) (value 0 (ubits m n)))
        (length-ubits m n) (ReadsBits-loop (ubits m n) 0 (subst (λ k. k < 2 ^ 32) (sym same) h)))
      same

-- After an alignment the reader stands before the next byte.
pub IsAt-byte_align :
    (r : BitReader) (bytes : List ℕ)
    → Ahead r.input bytes
    → (r' : BitReader) × (byte_align r ≡ (ok tt, r')) × IsAt r' (bytes_bits bytes)
unfolding byte_align
IsAt-byte_align r bytes h =
    (record r { bit_index = 0 }, refl, record { bytes = bytes; ahead = h; here = refl })
