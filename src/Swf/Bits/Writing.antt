-- ===== src/Swf/Bits/Writing.antt =====
-- Writing bits (swf/src/write.rs): a writer appends bits to those that it holds.
use ruffle.Prelude.{
  ℕ, zero, suc, ◌+◌, ◌-◌, ◌*◌, ◌/◌, ◌%◌, ◌^◌, ◌<◌, ◌≤◌, ◌≡◌, ◌≢◌, refl, sym, ap, ap₂, ◌∙◌, subst,
  List, [], ◌∷◌, ◌++◌, append_assoc, append-nil, Bool, true, false, ◌==◌, if◌then◌else◌, arith,
  length, Bool-cases, inl, inr, ne→==, ==_iff, some, le→ltb,
}
use native.Mathlib.Nat.{pow-succ', mul_assoc, one-le-pow, mul-div_cancel, add-mul}
use ruffle.Swf.Bits.Defs.{
  BitWriter, bit, bit_value, set_bit, new_writer, flush_bits, put_bit, write_bit, write_ubits,
  BitWrite, go_on, ◌>>◌,
}
use ruffle.Swf.Bits.Lists.{ubits, bytes_bits, bytes_bits-append, ubits-half, ubits-upper}

-- The bits that have been written: those of the output, and the upper bits of the byte.
pub record HoldsBits (w : BitWriter) (bits : List Bool) : Type 0 where
  pub upper : ℕ
  pub shifted : w.byte ≡ upper * 2 ^ w.bit_index
  pub some_left : 0 < w.bit_index
  pub bounded : w.bit_index ≤ 8
  pub written : bytes_bits w.output ++ ubits (8 - w.bit_index) upper ≡ bits

pub HoldsBits-new_writer : (output : List ℕ) → HoldsBits (new_writer output) (bytes_bits output)
unfolding new_writer
HoldsBits-new_writer output = record {
  upper = 0;
  shifted = refl;
  some_left = omega arith;
  bounded = omega arith;
  written = append-nil (bytes_bits output);
}

-- One more bit at the lower end.
ubits-more : (m n : ℕ) (b : Bool) → ubits (suc m) (n * 2 + bit_value b) ≡ ubits m n ++ b ∷ []
ubits-more m n b =
    ubits-half m (n * 2 + bit_value b) ∙ ap₂ (λ k c. ubits m k ++ c ∷ []) (half b) (odd b)
  where
    half : (b : Bool) → (n * 2 + bit_value b) / 2 ≡ n
    half true = omega arith
    half false = omega arith

    odd : (b : Bool) → ((n * 2 + bit_value b) % 2 == 1) ≡ b
    odd true = ground arith
    odd false = ground arith

-- The bit `i` of a byte whose bits up to it are clear is set.
put_clear :
    (i n : ℕ) (b : Bool)
    → (if b then set_bit i (n * 2 ^ suc i) else n * 2 ^ suc i) ≡ (n * 2 + bit_value b) * 2 ^ i
put_clear i n false =
    ap (λ p. n * p) (pow-succ' 2 i)
    ∙ sym (mul_assoc n 2 (2 ^ i))
    ∙ ap (λ k. k * 2 ^ i) (omega arith)
put_clear i n true =
    let p = 2 ^ i in
    let positive : 0 < p = one-le-pow i 2 (omega arith) in
    let same : n * 2 ^ suc i ≡ n * 2 * p =
      ap (λ q. n * q) (pow-succ' 2 i) ∙ sym (mul_assoc n 2 p) in
    let clear : (n * 2 * p / p % 2 == 1) ≡ false =
      ap (λ k. k % 2 == 1) (mul-div_cancel (n * 2) positive) ∙ even n in
    ap (set_bit i) same
    ∙ rw clear (sym (add-mul (n * 2) 1 p ∙ ap (λ k. n * 2 * p + k) (omega arith)))
  where
    even : (m : ℕ) → (m * 2 % 2 == 1) ≡ false
    even m = ground arith

-- The byte with one more bit is full.
last_bit :
    (output : List ℕ) (n : ℕ) (b : Bool) {bits : List Bool}
    → bytes_bits output ++ ubits 7 n ≡ bits
    → bytes_bits (output ++ ((n * 2 + bit_value b) * 2 ^ 0) ∷ []) ++ [] ≡ bits ++ b ∷ []
last_bit output n b h =
    let byte : (n * 2 + bit_value b) * 2 ^ 0 ≡ n * 2 + bit_value b = omega arith in
    append-nil (bytes_bits (output ++ ((n * 2 + bit_value b) * 2 ^ 0) ∷ []))
    ∙ ap (λ k. bytes_bits (output ++ k ∷ [])) byte
    ∙ bytes_bits-append output ((n * 2 + bit_value b) ∷ [])
    ∙ ap (λ bs. bytes_bits output ++ bs)
        (append-nil (ubits 8 (n * 2 + bit_value b)) ∙ ubits-more 7 n b)
    ∙ sym (append_assoc (bytes_bits output) (ubits 7 n) (b ∷ []))
    ∙ ap (λ bs. bs ++ b ∷ []) h

-- The byte with one more bit is not full.
inner_bit :
    (output : List ℕ) (i n : ℕ) (b : Bool) {bits : List Bool}
    → suc i < 8
    → bytes_bits output ++ ubits (8 - suc (suc i)) n ≡ bits
    → bytes_bits output ++ ubits (8 - suc i) (n * 2 + bit_value b) ≡ bits ++ b ∷ []
inner_bit output i n b small h =
    let count : 8 - suc i ≡ suc (8 - suc (suc i)) = omega (arith, small) in
    ap (λ k. bytes_bits output ++ ubits k (n * 2 + bit_value b)) count
    ∙ ap (λ bs. bytes_bits output ++ bs) (ubits-more (8 - suc (suc i)) n b)
    ∙ sym (append_assoc (bytes_bits output) (ubits (8 - suc (suc i)) n) (b ∷ []))
    ∙ ap (λ bs. bs ++ b ∷ []) h

write_bit_at :
    (output : List ℕ) (i n : ℕ) (b : Bool) {bits : List Bool}
    → suc i ≤ 8
    → bytes_bits output ++ ubits (8 - suc i) n ≡ bits
    → HoldsBits
        (write_bit b (record { output = output; byte = n * 2 ^ suc i; bit_index = suc i }))
        (bits ++ b ∷ [])
unfolding write_bit put_bit flush_bits
write_bit_at output zero n b bound h = rw (put_clear 0 n b) (record {
  upper = 0;
  shifted = refl;
  some_left = omega arith;
  bounded = omega arith;
  written = last_bit output n b h;
})
write_bit_at output (suc i) n b bound h =
    let index : suc (suc i) - 1 ≡ suc i = omega arith in
    rw (index, put_clear (suc i) n b, ne→== (suc i) 0 (λ e. omega (arith, e)))
      (record {
        upper = n * 2 + bit_value b;
        shifted = refl;
        some_left = omega arith;
        bounded = omega (arith, bound);
        written = inner_bit output i n b bound h;
      })

pub HoldsBits-write_bit :
    (b : Bool) (w : BitWriter) {bits : List Bool}
    → HoldsBits w bits
    → HoldsBits (write_bit b w) (bits ++ b ∷ [])
HoldsBits-write_bit b w {bits = bits} h = at w.bit_index h.some_left h.bounded h.shifted h.written
  where
    at :
        (i : ℕ)
        → 0 < i
        → i ≤ 8
        → w.byte ≡ h.upper * 2 ^ i
        → bytes_bits w.output ++ ubits (8 - i) h.upper ≡ bits
        → HoldsBits
            (write_bit b (record { output = w.output; byte = w.byte; bit_index = i }))
            (bits ++ b ∷ [])
    at zero left bound e k = absurd (omega (arith, left))
    at (suc i) left bound e k =
        subst
          (λ byte.
            HoldsBits (write_bit b (record { output = w.output; byte = byte; bit_index = suc i }))
              (bits ++ b ∷ []))
          (sym e) (write_bit_at w.output i h.upper b bound k)

-- An operation that does not panic and appends the bits to those that a writer holds.
abbrev pub Appends : BitWrite → List Bool → Type 0
Appends p bits =
    (w : BitWriter) (held : List Bool)
    → HoldsBits w held
    → (writer : BitWriter) × (p w ≡ some writer) × HoldsBits writer (held ++ bits)

pub Appends-then :
    {p q : BitWrite} {a b : List Bool} → Appends p a → Appends q b → Appends (p >> q) (a ++ b)
Appends-then {p} {q} {a} {b} hp hq w held h =
    let (mid, ran, kept) = hp w held h in
    let (end, more, done) = hq mid (held ++ a) kept in
    (end, ap (go_on q) ran ∙ more, subst (HoldsBits end) (append_assoc held a b) done)

pub Appends-write_ubits : (m n : ℕ) → m ≤ 32 → Appends (write_ubits m n) (ubits m n)
unfolding write_ubits
Appends-write_ubits zero n small w held h = (w, refl, subst (HoldsBits w) (sym (append-nil held)) h)
Appends-write_ubits (suc m) n small w held h =
    let b = bit m n in
    let (end, ran, done) =
      Appends-write_ubits m n (omega (arith, small)) (write_bit b w) (held ++ b ∷ [])
        (HoldsBits-write_bit b w h) in
    (
      end,
      rw (le→ltb 31 m (omega (arith, small))) ran,
      subst (HoldsBits end) (append_assoc held (b ∷ []) (ubits m n)) done,
    )

-- The bits of a byte whose upper bits are known.
ubits-byte :
    (i upper byte : ℕ)
    → i ≤ 8
    → byte ≡ upper * 2 ^ i
    → (pad : List Bool) × (ubits 8 byte ≡ ubits (8 - i) upper ++ pad) × (length pad ≡ i)
ubits-byte i upper byte bound e =
    let (pad, same, counted) = ubits-upper i (8 - i) byte in
    let count : 8 ≡ i + (8 - i) = omega (arith, bound) in
    let quotient : byte / 2 ^ i ≡ upper =
      ap (λ k. k / 2 ^ i) e ∙ mul-div_cancel upper (one-le-pow i 2 (omega arith)) in
    (pad, ap (λ k. ubits k byte) count ∙ same ∙ ap (λ q. ubits (8 - i) q ++ pad) quotient, counted)

-- Flushed, the writer has all bits in its output, filled up to the byte.
pub flush_bits-HoldsBits :
    (w : BitWriter) {bits : List Bool}
    → HoldsBits w bits
    → (pad : List Bool) × (bytes_bits (flush_bits w).output ≡ bits ++ pad) × (length pad < 8)
unfolding flush_bits
flush_bits-HoldsBits w {bits = bits} h = elim (Bool-cases (w.bit_index == 8)) [
  | inl full ↦ rw full ([], none_left ((==_iff _ 8).0 full), omega arith)
  | inr part ↦ rw part (filled part (ubits-byte w.bit_index h.upper w.byte h.bounded h.shifted))
]
  where
    none_left : w.bit_index ≡ 8 → bytes_bits w.output ≡ bits ++ []
    none_left e =
        sym (append-nil (bytes_bits w.output))
        ∙ subst (λ k. bytes_bits w.output ++ ubits (8 - k) h.upper ≡ bits) e h.written
        ∙ sym (append-nil bits)

    not_full : (k : ℕ) → (k == 8) ≡ false → k ≢ 8
    not_full k e f = ground arith

    filled :
        (w.bit_index == 8) ≡ false
        → (pad : List Bool) × (ubits 8 w.byte ≡ ubits (8 - w.bit_index) h.upper ++ pad)
          × (length pad ≡ w.bit_index)
        → (pad : List Bool) × (bytes_bits (w.output ++ w.byte ∷ []) ≡ bits ++ pad)
          × (length pad < 8)
    filled part (pad, same, counted) = (
      pad,
      bytes_bits-append w.output (w.byte ∷ [])
          ∙ ap (λ bs. bytes_bits w.output ++ bs) (append-nil (ubits 8 w.byte) ∙ same)
          ∙ sym (append_assoc (bytes_bits w.output) (ubits (8 - w.bit_index) h.upper) pad)
          ∙ ap (λ bs. bs ++ pad) h.written,
      omega (arith, counted, h.bounded, not_full w.bit_index part),
    )
