-- ===== src/Swf/Decodes/Fields.antt =====
-- Each field of the formats reads back: numbers, strings and slices (swf/src/read.rs,
-- swf/src/write.rs).
use ruffle.Prelude.{
  ℕ, ◌+◌, ◌-◌, ◌<◌, ◌≤◌, ◌^◌, ◌≡◌, refl, ap, ap₂, subst, ◌∙◌, List, [], ◌∷◌, ◌++◌, arith, length,
  length-append, drop, take-append_length, drop-append_length, take, le→leb, ne→==, All,
  length-take, take-append-drop, length-drop, ℤ, FitsSigned, ◌≢◌, sum_of, true,
}
use ruffle.Swf.Error.{ok}
use ruffle.Swf.ByteOrder.{ByteOrder, Codec}
use ruffle.Swf.Read
use ruffle.Swf.Read.{
  Reader, M, pure, ◌>>=◌, remaining, advance, read_exact, read_u8, read_slice, read_c_string,
  read_u16, read_i16, read_i32, read_f32, read_f64, swap_words, continue, read_many, find_zero,
  read_with, position, slice_of, set_position, find_terminator, string_from, str_slice, from_utf8,
}
use ruffle.Swf.Write.{
  W, write_all, write_u8, write_c_string, write_each, write_u16, write_i16, write_i32, write_f32,
  write_f64,
}
use ruffle.Swf.Utf8.{is_utf8}
use ruffle.Swf.Decodes.{
  Decodes-read_exact, Ahead, Decodes, Ahead-advance, Ahead-assoc, continue-ok, Decodes-run,
  Decodes-pure, Decodes-bind, Decodes-map,
}

pub Decodes-read_u8 : (n : ℕ) → Decodes read_u8 (write_u8 n) 1 n
unfolding read_u8 write_u8
Decodes-read_u8 n = Decodes-map _ (Decodes-read_exact (n ∷ []))

swap_words-append :
    (front back : List ℕ)
    → length back ≡ 4
    → length front ≡ 4
    → swap_words (front ++ back) ≡ back ++ front
unfolding swap_words
swap_words-append front back hb hf =
    subst (λ k. drop k (front ++ back) ++ take k (front ++ back) ≡ back ++ front) hf
      (ap₂ ◌++◌ (drop-append_length front back) (take-append_length front back))

length-swap_words : (num : List ℕ) → length num ≡ 8 → length (swap_words num) ≡ 8
unfolding swap_words
length-swap_words num h =
    length-append (drop 4 num) (take 4 num) ∙ omega (arith, length-drop 4 num, length-take 4 num)

swap_words_twice : (num : List ℕ) → length num ≡ 8 → swap_words (swap_words num) ≡ num
unfolding swap_words
swap_words_twice num h =
    swap_words-append (drop 4 num) (take 4 num) (omega (arith, length-take 4 num))
      (omega (arith, length-drop 4 num))
    ∙ take-append-drop 4 num

module _ ⦃bo : ByteOrder⦄ where
  pub Decodes-codec :
      {A : Type 0} {width : ℕ} {Fits : A → Type 0} (codec : Codec A width Fits) (a : A)
      → Fits a
      → Decodes (read_with codec) (write_all (codec.to_bytes a)) width a
  unfolding read_with
  Decodes-codec {width = width} codec a h =
      let exact = Decodes-read_exact (codec.to_bytes a) in
      subst
        (λ k.
          Decodes (read_exact k >>= λ bytes. pure (codec.from_bytes bytes))
            (write_all (codec.to_bytes a)) k a)
        (codec.length-to_bytes a)
        (subst (Decodes _ (write_all (codec.to_bytes a)) (length (codec.to_bytes a)))
          (codec.from_bytes-to_bytes a h) (Decodes-map codec.from_bytes exact))

  pub Decodes-read_u16 : (n : ℕ) → n < 2 ^ 16 → Decodes read_u16 (write_u16 n) 2 n
  unfolding read_u16 write_u16
  Decodes-read_u16 n h = Decodes-codec bo.u16 n h

  pub Decodes-read_i16 : (n : ℤ) → FitsSigned (2 ^ 15) n → Decodes read_i16 (write_i16 n) 2 n
  unfolding read_i16 write_i16
  Decodes-read_i16 n h = Decodes-codec bo.i16 n h

  pub Decodes-read_i32 : (n : ℤ) → FitsSigned (2 ^ 31) n → Decodes read_i32 (write_i32 n) 4 n
  unfolding read_i32 write_i32
  Decodes-read_i32 n h = Decodes-codec bo.i32 n h

  pub Decodes-read_f32 : (n : ℕ) → n < 2 ^ 32 → Decodes read_f32 (write_f32 n) 4 n
  unfolding read_f32 write_f32
  Decodes-read_f32 n h = Decodes-codec bo.f32 n h

  -- Both sides change the halves of a float, and eight bytes are as before after two changes.
  pub Decodes-read_f64 : (n : ℕ) → n < 2 ^ 64 → Decodes read_f64 (write_f64 n) 8 n
  unfolding read_f64 write_f64
  Decodes-read_f64 n h =
      let num = bo.f64.to_bytes n in
      let counted = length-swap_words num (bo.f64.length-to_bytes n) in
      subst (λ k. Decodes read_f64 (write_f64 n) k n) refl
        (subst (Decodes read_f64 (write_all (swap_words num)) 8)
          (ap bo.f64.from_bytes (swap_words_twice num (bo.f64.length-to_bytes n))
            ∙ bo.f64.from_bytes-to_bytes n h)
          (subst
            (λ k.
              Decodes (read_exact k >>= λ num. pure (bo.f64.from_bytes (swap_words num)))
                (write_all (swap_words num)) k (bo.f64.from_bytes (swap_words (swap_words num))))
            counted
            (Decodes-map (λ num. bo.f64.from_bytes (swap_words num))
              (Decodes-read_exact (swap_words num)))))

read_u8-cons :
    (r : Reader) (b : ℕ) (rest : List ℕ) → Ahead r (b ∷ rest) → read_u8 r ≡ (ok b, advance 1 r)
unfolding write_u8
read_u8-cons r b rest h = Decodes-run (b ∷ []) (Decodes-read_u8 b) r rest h

find_zero_lem :
    (s rest : List ℕ) (r : Reader)
    → All (λ b. b ≢ 0) s
    → Ahead r (s ++ 0 ∷ rest)
    → find_zero (s ++ 0 ∷ rest) r ≡ (ok tt, advance (length s + 1) r)
unfolding find_zero
find_zero_lem [] rest r h e = continue-ok read_u8 _ r (read_u8-cons r 0 rest e)
find_zero_lem (b ∷ bs) rest r (hb, hbs) e =
    continue-ok read_u8 _ r (read_u8-cons r b (bs ++ 0 ∷ rest) e)
    ∙ rw (ne→== b 0 hb) (
        find_zero_lem bs rest (advance 1 r) hbs (Ahead-advance r (b ∷ []) (bs ++ 0 ∷ rest) e)
        ∙ ap (λ k. (ok tt, k)) (ground arith))

-- The text of a `&str` that holds no zero byte.
abbrev pub IsCStr : List ℕ → Type 0
IsCStr s = (is_utf8 s ≡ true) × All (λ b. b ≢ 0) s

string_from_lem :
    (s rest : List ℕ) (r : Reader)
    → is_utf8 s ≡ true
    → Ahead r (s ++ rest)
    → string_from r.pos (advance (length s + 1) r) ≡ (ok s, advance (length s + 1) r)
unfolding string_from str_slice ◌>>=◌
string_from_lem s rest r hu (bound, h) =
    let count : r.pos + (length s + 1) - 1 - r.pos ≡ length s = omega arith in
    let inside : r.pos + (length s + 1) - 1 ≤ length r.input =
      omega (arith, ap length h, length-drop r.pos r.input, length-append s rest) in
    rw (
      le→leb (r.pos + 1) (r.pos + (length s + 1)) (omega arith),
      le→leb (r.pos + (length s + 1) - 1) (length r.input) inside,
      count,
      h,
      take-append_length,
      hu,
    )

abbrev after_position : ℕ → M (List ℕ)
after_position start = Read.◌>>◌ find_terminator (string_from start)

pub Decodes-read_c_string :
    (s : List ℕ) → IsCStr s → Decodes read_c_string (write_c_string s) (length s + 1) s
unfolding read_c_string write_c_string Read.◌>>◌
Decodes-read_c_string s (hu, hz) = record {
  bytes = s ++ 0 ∷ [];
  written = refl;
  counted = length-append s (0 ∷ []);
  reads = λ r rest h.
      let ahead = Ahead-assoc r s (0 ∷ []) rest h in
      continue-ok position after_position r refl
      ∙ continue-ok find_terminator (λ _. string_from r.pos) r
          (ap (λ k. find_zero k r) ahead.1 ∙ find_zero_lem s rest r hz ahead)
      ∙ string_from_lem s (0 ∷ rest) r hu ahead;
}

pub Decodes-read_slice :
    (bytes : List ℕ) → Decodes (read_slice (length bytes)) (write_all bytes) (length bytes) bytes
unfolding read_slice slice_of set_position ◌>>=◌ Read.◌>>◌
Decodes-read_slice bytes = record {
  bytes = bytes;
  written = refl;
  counted = refl;
  reads = λ r rest h. rw (
    le→leb (r.pos + length bytes) (length r.input) (Ahead-advance r bytes rest h).0,
    h.1,
    take-append_length,
  );
}

-- A value by value loop is read back if each value is.
pub Decodes-read_many :
    {A : Type 0} (p : M A) (w : A → W) (n : A → ℕ) (xs : List A)
    → All (λ a. Decodes p (w a) (n a) a) xs
    → Decodes (read_many (length xs) p) (write_each w xs) (sum_of n xs) xs
unfolding read_many write_each sum_of
Decodes-read_many p w n [] h = Decodes-pure []
Decodes-read_many p w n (x ∷ xs) (hx, hxs) =
    Decodes-bind _ hx (Decodes-map (λ rest. x ∷ rest) (Decodes-read_many p w n xs hxs))
