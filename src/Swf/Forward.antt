-- ===== src/Swf/Forward.antt =====
-- Readers that end on every input: they return or fail, keep the buffer, and do not move back when
-- they return. The `while` loops of the model never run out of rounds where this holds.
use ruffle.Prelude.{
  ℕ, zero, suc, ◌+◌, ◌≤◌, ◌≡◌, refl, ◌∙◌, List, [], ◌∷◌, arith, Bool, Bool-cases, inl, inr, leb,
  ◌-◌, leb→le, length-drop, le→leb, true, false, length, if◌then◌else◌, ◌==◌,
}
use ruffle.Swf.Error.{Error, Result, ok, err, panics, out_of_fuel}
use ruffle.Swf.ByteOrder.{ByteOrder, Codec}
use ruffle.Swf.Read
use ruffle.Swf.Read.{
  Reader, M, pure, fail, ◌>>=◌, continue, remaining, advance, position, read_exact, read_u8,
  read_slice, slice_of, set_position, find_zero, find_terminator, string_from, str_slice, from_utf8,
  read_c_string, read_with, read_u16, read_i16, read_i32, read_f32, read_f64, read_many,
}

-- From `r` a reader returned at least `k` bytes further on, or failed.
pub data Steps {A : Type 0} (k : ℕ) (r : Reader) : Result A × Reader → Type 0 where
  returns : {a : A} {s : Reader} → r.pos + k ≤ s.pos → s.input ≡ r.input → Steps k r (ok a, s)
  fails : {e : Error} {s : Reader} → s.input ≡ r.input → Steps k r (err e, s)

abbrev pub Forward : {A : Type 0} → ℕ → M A → Type 0
Forward k p = (r : Reader) → Steps k r (p r)

pub Steps-trans :
    {A : Type 0} (k : ℕ) {r s : Reader} {y : Result A × Reader}
    → r.pos + k ≤ s.pos
    → s.input ≡ r.input
    → Steps 0 s y
    → Steps k r y
Steps-trans k moved kept (returns m e) = returns (omega arith) (e ∙ kept)
Steps-trans k moved kept (fails e) = fails (e ∙ kept)

pub Steps-continue :
    {A B : Type 0} (k : ℕ) (r : Reader) (f : A → M B) {x : Result A × Reader}
    → ((a : A) → Forward 0 (f a))
    → Steps k r x
    → Steps k r (continue f x)
Steps-continue k r f h (returns {a} {s} moved kept) = Steps-trans k moved kept (h a s)
Steps-continue k r f h (fails e) = fails e

pub Forward-bind :
    {A B : Type 0} {k : ℕ} {p : M A} (f : A → M B)
    → Forward k p
    → ((a : A) → Forward 0 (f a))
    → Forward k (p >>= f)
unfolding ◌>>=◌
Forward-bind {k = k} f hp hf r = Steps-continue k r f hf (hp r)

pub Forward-pure : {A : Type 0} (a : A) → Forward 0 (pure a)
Forward-pure a r = returns (omega arith) refl

pub Forward-fail : {A : Type 0} {k : ℕ} (e : Error) → Forward {A = A} k (fail e)
Forward-fail e r = fails refl

Steps-weaken : {A : Type 0} {k : ℕ} {r : Reader} {y : Result A × Reader} → Steps k r y → Steps 0 r y
Steps-weaken (returns m e) = returns (omega arith) e
Steps-weaken (fails e) = fails e

pub Forward-weaken : {A : Type 0} {k : ℕ} {p : M A} → Forward k p → Forward 0 p
Forward-weaken h r = Steps-weaken (h r)

pub Forward-if :
    {A : Type 0} {k : ℕ} (b : Bool) {p q : M A}
    → Forward k p
    → Forward k q
    → Forward k (if b then p else q)
Forward-if true hp hq = hp
Forward-if false hp hq = hq

pub Forward-read_exact : (n : ℕ) → Forward n (read_exact n)
unfolding read_exact
Forward-read_exact n r = elim (Bool-cases (leb n (length (remaining r)))) [
  | inl enough ↦ rw enough (returns (omega arith) refl)
  | inr short ↦ rw short (fails refl)
]

pub Forward-read_u8 : Forward 1 read_u8
unfolding read_u8
Forward-read_u8 = Forward-bind _ (Forward-read_exact 1) (λ bytes. Forward-pure _)

pub Forward-read_slice : (n : ℕ) → Forward 0 (read_slice n)
unfolding read_slice slice_of set_position ◌>>=◌ Read.◌>>◌
Forward-read_slice n r = elim (Bool-cases (leb (r.pos + n) (length r.input))) [
  | inl enough ↦ rw enough (returns (omega arith) refl)
  | inr short ↦ rw short (fails refl)
]

Forward-find_zero : (bytes : List ℕ) → Forward 1 (find_zero bytes)
unfolding find_zero Read.◌>>◌
Forward-find_zero [] = Forward-bind _ Forward-read_u8 (λ b. Forward-pure _)
Forward-find_zero (b ∷ bs) =
    Forward-bind _ Forward-read_u8
      (λ byte. Forward-if (byte == 0) (Forward-pure _) (Forward-weaken (Forward-find_zero bs)))

-- A reader that has returned stands in its buffer or at the end of it.
abbrev Inside : {A : Type 0} → Result A × Reader → Type 0
Inside (ok a, s) = s.pos ≤ length s.input
Inside (err e, s) = Unit
Inside (panics, s) = Unit
Inside (out_of_fuel, s) = Unit

Inside-continue :
    {A B : Type 0} (f : A → M B) (x : Result A × Reader)
    → Inside x
    → ((a : A) (s : Reader) → s.pos ≤ length s.input → Inside (f a s))
    → Inside (continue f x)
Inside-continue f (ok a, s) inside h = h a s inside
Inside-continue f (err e, s) inside h = tt
Inside-continue f (panics, s) inside h = tt
Inside-continue f (out_of_fuel, s) inside h = tt

Inside-read_u8 : (r : Reader) → Inside (read_u8 r)
unfolding read_u8 read_exact ◌>>=◌
Inside-read_u8 r = elim (Bool-cases (leb 1 (length (remaining r)))) [
  | inl enough ↦
      rw enough (omega (arith, leb→le 1 (length (remaining r)) enough, length-drop r.pos r.input))
  | inr short ↦ rw short tt
]

Inside-find_zero : (bytes : List ℕ) (r : Reader) → Inside (find_zero bytes r)
unfolding find_zero ◌>>=◌ Read.◌>>◌
Inside-find_zero [] r = Inside-continue _ (read_u8 r) (Inside-read_u8 r) (λ b s h. h)
Inside-find_zero (b ∷ bs) r = Inside-continue _ (read_u8 r) (Inside-read_u8 r) (λ byte s h.
    elim (Bool-cases (byte == 0)) [
      | inl zero_byte ↦ rw zero_byte h
      | inr other ↦ rw other (Inside-find_zero bs s)
    ])

-- Behind a terminator the slice is in order and in the buffer, so it does not panic.
Steps-string_from :
    (r : Reader) {x : Result (Unit {0}) × Reader}
    → Steps 1 r x
    → Inside x
    → Steps 0 r (continue (λ done. string_from r.pos) x)
unfolding string_from str_slice from_utf8 ◌>>=◌
Steps-string_from r (returns {a} {s} moved kept) inside =
    rw (le→leb (r.pos + 1) s.pos moved, le→leb (s.pos - 1) (length s.input) (omega (arith, inside)))
      (Steps-trans 0 (omega (arith, moved)) kept (Forward-if _ (Forward-pure _) (Forward-fail _) s))
Steps-string_from r (fails kept) inside = fails kept

pub Forward-read_c_string : Forward 0 read_c_string
unfolding read_c_string Read.◌>>◌ find_terminator ◌>>=◌
Forward-read_c_string r =
    Steps-string_from r (Forward-find_zero (remaining r) r) (Inside-find_zero (remaining r) r)

pub Forward-read_many :
    {A : Type 0} (count : ℕ) (p : M A) → Forward 0 p → Forward 0 (read_many count p)
unfolding read_many
Forward-read_many zero p h = Forward-pure []
Forward-read_many (suc count) p h =
    Forward-bind _ h (λ a. Forward-bind _ (Forward-read_many count p h) (λ rest. Forward-pure _))

module _ ⦃bo : ByteOrder⦄ where
  Forward-read_with :
      {A : Type 0} {width : ℕ} {Fits : A → Type 0} (codec : Codec A width Fits)
      → Forward 0 (read_with codec)
  unfolding read_with
  Forward-read_with {width = width} codec =
      Forward-bind _ (Forward-weaken (Forward-read_exact width)) (λ bytes. Forward-pure _)

  pub Forward-read_u16 : Forward 0 read_u16
  unfolding read_u16
  Forward-read_u16 = Forward-read_with bo.u16

  pub Forward-read_i16 : Forward 0 read_i16
  unfolding read_i16
  Forward-read_i16 = Forward-read_with bo.i16

  pub Forward-read_i32 : Forward 0 read_i32
  unfolding read_i32
  Forward-read_i32 = Forward-read_with bo.i32

  pub Forward-read_f32 : Forward 0 read_f32
  unfolding read_f32
  Forward-read_f32 = Forward-read_with bo.f32

  pub Forward-read_f64 : Forward 0 read_f64
  unfolding read_f64
  Forward-read_f64 = Forward-bind _ (Forward-weaken (Forward-read_exact 8)) (λ num. Forward-pure _)
