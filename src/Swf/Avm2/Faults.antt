-- ===== src/Swf/Avm2/Faults.antt =====
-- Where swf/src/avm2/read.rs does not give back what swf/src/avm2/write.rs writes.
use ruffle.Prelude.{
  ℕ, suc, ◌+◌, ◌-◌, ◌/◌, ◌^◌, ◌<◌, ◌≤◌, ◌≡◌, refl, sym, subst, ℤ, pos, negsuc, List, [], ◌∷◌, some,
  none, arith, length, true, false, lt→ltb, le→ltb, ne→==, ==_iff,
}
use ruffle.Swf.Error.{ok, panics, Result}
use ruffle.Swf.Read.{advance, panic}
use ruffle.Swf.Write.{write_u8, write_all}
use ruffle.Swf.Decodes.{Decodes-at, reader_at, >>-nil, some_eq}
use ruffle.Swf.Decodes.Fields.{Decodes-read_u8}
use ruffle.Swf.Decodes.Runs.{Runs, Runs-bind, Runs-at}
use ruffle.Swf.Avm2.Types.{DefaultValue, Method}
use ruffle.Swf.Avm2.Primitives.{
  read_i24, write_i24, read_i32, read_i32_loop, write_i32, write_i32_loop, low_bits, shift_right,
  is_sign, sign_extend, write_u30, write_u32, write_u32_loop,
}
use ruffle.Swf.Avm2.Read.{read_optional_value, read_method}
use ruffle.Swf.Avm2.Write.{
  index_of, kind_of, write_constant_value, write_optional_value, write_method,
}
use ruffle.Swf.Avm2.Ints.{Reads-misread}
use ruffle.Swf.Avm2.Operands.{reversed, Reads-reversed}
use ruffle.Swf.Avm2.Values.{Reads-optional_value}
use ruffle.Swf.Avm2.Methods.{IsReadable, as_read, Reads-method}

-- For every i32, at every place of every buffer: `write_i24` writes bytes which `read_i24` reads in
-- the opposite order, and without a sign: the result is `reversed`.
pub read_i24-write_i24 :
    (n : ℤ) (before after : List ℕ)
    → (bytes : List ℕ) × (write_i24 n ≡ some bytes)
      × (read_i24 (reader_at before bytes after)
          ≡ (ok (pos (reversed n)), advance (length bytes) (reader_at before bytes after)))
read_i24-write_i24 n before after = Decodes-at (Reads-reversed n).decodes before after

-- An integer `n` from 64 to 127, at every place of every buffer, is read back as `n - 128`: the bit
-- that `write_i32` uses for its value is the sign for `read_i32`.
pub read_i32-write_i32_small :
    (n : ℕ) (before after : List ℕ)
    → 64 ≤ n
    → n < 128
    → (bytes : List ℕ) × (write_i32 (pos n) ≡ some bytes)
      × (read_i32 (reader_at before bytes after)
          ≡ (ok (negsuc (127 - n)), advance (length bytes) (reader_at before bytes after)))
read_i32-write_i32_small n before after h k = Decodes-at (Reads-misread n h k).decodes before after

-- Another group of seven bits is written, and read.
Runs-step :
    (rounds i acc k : ℕ) (n : ℤ) {m : ℤ} {out : Result ℤ}
    → shift_right n ≡ m
    → is_sign m ≡ false
    → ((next : ℕ) → Runs (read_i32_loop rounds (i + 7) next) (write_i32_loop rounds m) k out k)
    → Runs (read_i32_loop (suc rounds) i acc) (write_i32_loop (suc rounds) n) (1 + k) out (1 + k)
unfolding read_i32_loop write_i32_loop
Runs-step rounds i acc k n e more d =
    rw (e, more)
      (Runs-bind _ {n = k} {k = k} (Decodes-read_u8 (128 + low_bits n))
        (rw (le→ltb (128 + low_bits n) 128 (omega arith)) (d _)))

low_bits-lt : (n : ℤ) → low_bits n < 128
unfolding low_bits
low_bits-lt (pos n) = omega arith
low_bits-lt (negsuc n) = omega arith

Runs-panic : {A : Type 0} → Runs {A = A} panic (write_all []) 0 panics 0
Runs-panic = record { bytes = []; written = refl; counted = refl; runs = λ r rest h. ground arith }

-- The fifth group is the last, and the shift that extends the sign overflows.
Runs-fifth :
    (acc : ℕ) (n : ℤ)
    → is_sign (shift_right n) ≡ true
    → Runs (read_i32_loop 1 28 acc) (write_i32_loop 1 n) 1 panics 1
unfolding read_i32_loop write_i32_loop sign_extend
Runs-fifth acc n last = rw last (
    subst (λ w. Runs (read_i32_loop 1 28 acc) w 1 panics 1) (>>-nil (write_u8 (low_bits n)))
      (Runs-bind _ {n = 0} {k = 0} (Decodes-read_u8 (low_bits n))
        (rw (lt→ltb (low_bits n) 128 (low_bits-lt n)) Runs-panic)))

-- An i32 of 2 ^ 28 or more, or below -(2 ^ 28).
abbrev pub IsLarge : ℤ → Type 0
IsLarge (pos n) = (2 ^ 28 ≤ n) × (n < 2 ^ 31)
IsLarge (negsuc n) = (2 ^ 28 ≤ n) × (n < 2 ^ 31)

-- Five groups, as the first four are not the last.
Runs-groups :
    (a b c d e : ℤ)
    → shift_right a ≡ b
    → shift_right b ≡ c
    → shift_right c ≡ d
    → shift_right d ≡ e
    → is_sign b ≡ false
    → is_sign c ≡ false
    → is_sign d ≡ false
    → is_sign e ≡ false
    → is_sign (shift_right e) ≡ true
    → Runs read_i32 (write_i32 a) 5 panics 5
unfolding read_i32 write_i32
Runs-groups a b c d e ab bc cd de hb hc hd he last = Runs-step 4 0 0 4 a ab hb (λ n1.
    Runs-step 3 7 n1 3 b bc hc (λ n2.
      Runs-step 2 14 n2 2 c cd hd (λ n3. Runs-step 1 21 n3 1 d de he (λ n4. Runs-fifth n4 e last))))

Runs-large : (n : ℤ) → IsLarge n → Runs read_i32 (write_i32 n) 5 panics 5
unfolding shift_right is_sign
Runs-large (pos n) (h, k) =
    Runs-groups (pos n) (pos (n / 128)) (pos (n / 128 / 128)) (pos (n / 128 / 128 / 128))
      (pos (n / 128 / 128 / 128 / 128)) refl refl refl refl (ne→== _ 0 (λ e. omega (arith, e, h)))
      (ne→== _ 0 (λ e. omega (arith, e, h))) (ne→== _ 0 (λ e. omega (arith, e, h)))
      (ne→== _ 0 (λ e. omega (arith, e, h))) ((==_iff _ 0).1 (omega (arith, k)))
Runs-large (negsuc n) (h, k) =
    Runs-groups (negsuc n) (negsuc (n / 128)) (negsuc (n / 128 / 128))
      (negsuc (n / 128 / 128 / 128)) (negsuc (n / 128 / 128 / 128 / 128)) refl refl refl refl
      (ne→== _ 0 (λ e. omega (arith, e, h))) (ne→== _ 0 (λ e. omega (arith, e, h)))
      (ne→== _ 0 (λ e. omega (arith, e, h))) (ne→== _ 0 (λ e. omega (arith, e, h)))
      ((==_iff _ 0).1 (omega (arith, k)))

-- An i32 of 2 ^ 28 or more, or below -(2 ^ 28), at every place of every buffer: `write_i32` writes five
-- bytes, and with them `read_i32` panics, as it shifts by `32 - 35`.
pub read_i32-write_i32_large :
    (n : ℤ) (before after : List ℕ)
    → IsLarge n
    → (bytes : List ℕ) × (write_i32 n ≡ some bytes)
      × (length bytes ≡ 5)
      × (read_i32 (reader_at before bytes after)
          ≡ (panics, advance 5 (reader_at before bytes after)))
read_i32-write_i32_large n before after h = Runs-at (Runs-large n h) before after

-- Of a value with the index 0, written where a value is optional, `read_optional_value` reads that
-- there is none, and leaves its kind unread.
pub read_optional_value-write_optional_value_zero :
    (v : DefaultValue) (before after : List ℕ)
    → index_of v ≡ 0
    → (write_optional_value (some v) ≡ some (0 ∷ kind_of v ∷ []))
      × (read_optional_value (reader_at before (0 ∷ kind_of v ∷ []) after)
          ≡ (ok none, advance 1 (reader_at before (0 ∷ kind_of v ∷ []) after)))
unfolding write_optional_value write_constant_value write_u30 write_u32 write_u32_loop write_u8
read_optional_value-write_optional_value_zero v before after h =
    let (bytes, e, run) =
      Decodes-at (Reads-optional_value none tt).decodes before (kind_of v ∷ after) in
    (
      rw h refl,
      subst
          (λ bs.
            read_optional_value (reader_at before bs (kind_of v ∷ after))
            ≡ (ok none, advance (length bs) (reader_at before bs (kind_of v ∷ after))))
          (sym (some_eq (0 ∷ []) bytes e)) run,
    )

-- For every method within `IsReadable`, whose numbers fit the format, whose parameters are fewer than
-- 256, all named or all nameless, and have default values at the last ones only, at every place of
-- every buffer: `write_method` does not panic, and `read_method` reads its bytes as the method with
-- its default values at its first parameters (`as_read`), and otherwise as it was.
pub read_method-write_method :
    (method : Method) (before after : List ℕ)
    → IsReadable method
    → (bytes : List ℕ) × (write_method method ≡ some bytes)
      × (read_method (reader_at before bytes after)
          ≡ (ok (as_read method), advance (length bytes) (reader_at before bytes after)))
read_method-write_method method before after h =
    Decodes-at (Reads-method method h).decodes before after
