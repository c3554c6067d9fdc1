-- ===== src/Swf/Bits/Signed.antt =====
-- Signed numbers of a given number of bits (swf/src/read.rs), and the number of bits that is counted
-- for them (swf/src/write.rs).
use ruffle.Prelude.{
  ℕ, zero, suc, ◌+◌, ◌-◌, ◌*◌, ◌/◌, ◌%◌, ◌^◌, ◌<◌, ◌≤◌, ◌≡◌, refl, sym, ap, ◌∙◌, subst, ℤ, pos,
  negsuc, FitsSigned, Bool, true, false, ltb, ◌==◌, if◌then◌else◌, arith, append-nil, Bool-cases,
  inl, inr, lt→ltb, le→ltb, ne→==,
}
use native.Mathlib.Nat.{
  mod-eq_of_lt, pow-succ', mul_assoc, one-le-pow, pow-le-pow_right, add-mul-mod_self_left, mul-suc,
  mod-lt,
}
use ruffle.Core.BoundingBox.Defs.{Rectangle}
use ruffle.Swf.Bits.Defs.{
  pure, ◌>>=◌, sign_extended, as_unsigned, read_ubits, read_sbits, count_ubits_loop, count_ubits,
  count_sbits_twips, greater, rectangle_bits,
}
use ruffle.Swf.Bits.Lists.{ubits}
use ruffle.Swf.Bits.Reading.{
  ReadsBits, ReadsBits-bind, ReadsBits-result, ReadsBits-ubits, ReadsBits-pure,
}

-- A signed number of so many bits; without any bits it is 0.
abbrev pub FitsBits : ℕ → ℤ → Type 0
FitsBits zero n = n ≡ pos 0
FitsBits (suc m) n = FitsSigned (2 ^ m) n

pow-add : (k j : ℕ) → 2 ^ (k + j) ≡ 2 ^ k * 2 ^ j
pow-add zero j =
    let count : zero + j ≡ j = omega arith in
    let one : 2 ^ j ≡ 1 * 2 ^ j = omega arith in ap (λ e. 2 ^ e) count ∙ one
pow-add (suc k) j =
    let count : suc k + j ≡ suc (k + j) = omega arith in
    ap (λ e. 2 ^ e) count
    ∙ pow-succ' 2 (k + j)
    ∙ ap (λ p. 2 * p) (pow-add k j)
    ∙ sym (mul_assoc 2 (2 ^ k) (2 ^ j))
    ∙ ap (λ p. p * 2 ^ j) (sym (pow-succ' 2 k))

-- The lower bits of a negative number.
low_negative : (k n : ℕ) → k ≤ 32 → n < 2 ^ k → (2 ^ 32 - 1 - n) % 2 ^ k ≡ 2 ^ k - 1 - n
low_negative k n bound h =
    let p = 2 ^ k in
    let c = 2 ^ (32 - k) in
    let count : 32 ≡ k + (32 - k) = omega (arith, bound) in
    let whole : 2 ^ 32 ≡ p * c = ap (λ e. 2 ^ e) count ∙ pow-add k (32 - k) in
    let positive : 0 < c = one-le-pow (32 - k) 2 (omega arith) in
    let last : c ≡ suc (c - 1) = omega (arith, positive) in
    let parts : p * c ≡ p * (c - 1) + p = ap (λ k. p * k) last ∙ mul-suc p (c - 1) in
    let same : 2 ^ 32 - 1 - n ≡ p - 1 - n + p * (c - 1) = omega (arith, whole, parts, h) in
    ap (λ k. k % p) same
    ∙ add-mul-mod_self_left (p - 1 - n) p (c - 1)
    ∙ mod-eq_of_lt (omega (arith, h))

-- The number is known by its lower bits and its sign.
pub sign_extended-as_unsigned :
    (m : ℕ) (n : ℤ)
    → suc m ≤ 32
    → FitsSigned (2 ^ m) n
    → sign_extended (suc m) (as_unsigned n % 2 ^ suc m) ≡ n
unfolding sign_extended as_unsigned
sign_extended-as_unsigned m (pos n) bound h =
    let double : 2 ^ suc m ≡ 2 * 2 ^ m = pow-succ' 2 m in
    let same : n % 2 ^ suc m ≡ n = mod-eq_of_lt (omega (arith, h, double)) in
    let index : suc m - 1 ≡ m = omega arith in rw (same, index, lt→ltb n (2 ^ m) h) refl
sign_extended-as_unsigned m (negsuc n) bound h =
    let double : 2 ^ suc m ≡ 2 * 2 ^ m = pow-succ' 2 m in
    let same = low_negative (suc m) n bound (omega (arith, h, double)) in
    let index : suc m - 1 ≡ m = omega arith in
    rw (same, index, le→ltb (2 ^ suc m - 1 - n) (2 ^ m) (omega (arith, h, double)))
      (ap negsuc (omega (arith, h, double)))

pub ReadsBits-sbits :
    (k : ℕ) (n : ℤ) → k ≤ 32 → FitsBits k n → ReadsBits (read_sbits k) (ubits k (as_unsigned n)) n
unfolding read_sbits
ReadsBits-sbits zero n bound h = ReadsBits-result (ReadsBits-pure (pos 0)) (sym h)
ReadsBits-sbits (suc m) n bound h =
    let small : as_unsigned n % 2 ^ suc m < 2 ^ 32 =
      below (as_unsigned n) (2 ^ suc m) (one-le-pow (suc m) 2 (omega arith))
        (pow-le-pow_right (omega arith) bound) in
    rw (lt→ltb 0 (suc m) (omega arith), le→ltb 32 (suc m) bound)
      (subst (λ bits. ReadsBits (read_ubits (suc m) >>= λ n. pure (sign_extended (suc m) n)) bits n)
        (append-nil (ubits (suc m) (as_unsigned n)))
        (ReadsBits-bind (λ n. pure (sign_extended (suc m) n))
          (ReadsBits-ubits (suc m) (as_unsigned n) small)
          (ReadsBits-result (ReadsBits-pure _) (sign_extended-as_unsigned m n bound h))))
  where
    below : (a b : ℕ) → 0 < b → b ≤ 2 ^ 32 → a % b < 2 ^ 32
    below a b h k = omega (arith, mod-lt a h, k)

below_one : (n : ℕ) → ltb 0 n ≡ false → n ≡ 0
below_one n h = ground arith

-- As many bits as are counted suffice.
count_ubits_loop-lt : (rounds n : ℕ) → n < 2 ^ rounds → n < 2 ^ count_ubits_loop rounds n
unfolding count_ubits_loop
count_ubits_loop-lt zero n h = h
count_ubits_loop-lt (suc rounds) n h =
    let double : 2 ^ suc rounds ≡ 2 * 2 ^ rounds = pow-succ' 2 rounds in
    let half = count_ubits_loop-lt rounds (n / 2) (omega (arith, h, double)) in
    elim (Bool-cases (ltb 0 n)) [
      | inl more ↦ rw more (omega (arith, half, pow-succ' 2 (count_ubits_loop rounds (n / 2))))
      | inr done ↦ rw done (omega (arith, below_one n done))
    ]

-- And no more are counted than needed.
count_ubits_loop-le : (rounds m n : ℕ) → n < 2 ^ m → count_ubits_loop rounds n ≤ m
unfolding count_ubits_loop
count_ubits_loop-le zero m n h = omega arith
count_ubits_loop-le (suc rounds) zero n h = rw (le→ltb 0 n (omega (arith, h))) (omega arith)
count_ubits_loop-le (suc rounds) (suc m) n h =
    let double : 2 ^ suc m ≡ 2 * 2 ^ m = pow-succ' 2 m in
    let rest = count_ubits_loop-le rounds m (n / 2) (omega (arith, h, double)) in
    elim (Bool-cases (ltb 0 n)) [
      | inl more ↦ rw more (omega (arith, rest))
      | inr done ↦ rw done (omega arith)
    ]

count_ubits-lt : (n : ℕ) → n < 2 ^ 32 → n < 2 ^ count_ubits n
unfolding count_ubits
count_ubits-lt n h = count_ubits_loop-lt 32 n h

count_ubits-le : (m n : ℕ) → n < 2 ^ m → count_ubits n ≤ m
unfolding count_ubits
count_ubits-le m n h = count_ubits_loop-le 32 m n h

-- A number fits in as many bits as are counted for it, and in more.
magnitude : (n k m : ℕ) → n < 2 ^ 32 → count_ubits n + 1 ≤ k → k ≡ suc m → n < 2 ^ m
magnitude n k m h bound e =
    let more : 2 ^ count_ubits n ≤ 2 ^ m =
      pow-le-pow_right (omega arith) (omega (arith, bound, e)) in
    omega (arith, count_ubits-lt n h, more)

-- The count for a magnitude that is not 0.
counted_more :
    (n k least : ℕ)
    → (if suc n == 0 then least else count_ubits (suc n) + 1) ≤ k
    → count_ubits (suc n) + 1 ≤ k
counted_more n k least bound = rw (ne→== (suc n) 0 (λ e. omega (arith, e))) at bound

FitsBits-pos : (k n : ℕ) → n < 2 ^ 32 → count_sbits_twips (pos n) ≤ k → FitsBits k (pos n)
unfolding count_sbits_twips
FitsBits-pos zero zero h bound = refl
FitsBits-pos zero (suc n) h bound = absurd (omega (arith, counted_more n 0 0 bound))
FitsBits-pos (suc m) zero h bound = one-le-pow m 2 (omega arith)
FitsBits-pos (suc m) (suc n) h bound =
    magnitude (suc n) (suc m) m h (counted_more n (suc m) 0 bound) refl

FitsBits-negsuc : (k n : ℕ) → n < 2 ^ 32 → count_sbits_twips (negsuc n) ≤ k → FitsBits k (negsuc n)
unfolding count_sbits_twips
FitsBits-negsuc zero zero h bound = absurd (omega (arith, bound))
FitsBits-negsuc zero (suc n) h bound = absurd (omega (arith, counted_more n 0 1 bound))
FitsBits-negsuc (suc m) zero h bound = one-le-pow m 2 (omega arith)
FitsBits-negsuc (suc m) (suc n) h bound =
    magnitude (suc n) (suc m) m h (counted_more n (suc m) 1 bound) refl

FitsBits-count : (k : ℕ) (n : ℤ) → FitsSigned (2 ^ 30) n → count_sbits_twips n ≤ k → FitsBits k n
FitsBits-count k (pos n) h bound = FitsBits-pos k n (omega (arith, h)) bound
FitsBits-count k (negsuc n) h bound = FitsBits-negsuc k n (omega (arith, h)) bound

branch : (b : Bool) (least : ℕ) {k : ℕ} → least ≤ 31 → k ≤ 30 → (if b then least else k + 1) ≤ 31
branch true least h j = h
branch false least h j = omega (arith, j)

count_sbits_twips-le : (n : ℤ) → FitsSigned (2 ^ 30) n → count_sbits_twips n ≤ 31
unfolding count_sbits_twips
count_sbits_twips-le (pos n) h = branch (n == 0) 0 (omega arith) (count_ubits-le 30 n h)
count_sbits_twips-le (negsuc n) h = branch (n == 0) 1 (omega arith) (count_ubits-le 30 n h)

left-greater : (m n : ℕ) → m ≤ greater m n
unfolding greater
left-greater m n = ground arith

right-greater : (m n : ℕ) → n ≤ greater m n
unfolding greater
right-greater m n = ground arith

greater-le : (m n k : ℕ) → m ≤ k → n ≤ k → greater m n ≤ k
unfolding greater
greater-le m n k h j = ground arith

-- The coordinates have 31 bits.
abbrev pub IsSmall : Rectangle → Type 0
IsSmall r =
    FitsSigned (2 ^ 30) r.x_min
    × FitsSigned (2 ^ 30) r.x_max
    × FitsSigned (2 ^ 30) r.y_min
    × FitsSigned (2 ^ 30) r.y_max

-- The bits of a rectangle suffice for each coordinate, and their number for its field.
pub IsSmall-rectangle_bits :
    (r : Rectangle)
    → IsSmall r
    → (rectangle_bits r ≤ 31)
      × FitsBits (rectangle_bits r) r.x_min
      × FitsBits (rectangle_bits r) r.x_max
      × FitsBits (rectangle_bits r) r.y_min
      × FitsBits (rectangle_bits r) r.y_max
unfolding rectangle_bits
IsSmall-rectangle_bits r (h1, h2, h3, h4) =
    let a = count_sbits_twips r.x_min in
    let b = count_sbits_twips r.x_max in
    let c = count_sbits_twips r.y_min in
    let d = count_sbits_twips r.y_max in
    let x = left-greater (greater a b) (greater c d) in
    let y = right-greater (greater a b) (greater c d) in
    (
      greater-le _ _ 31
          (greater-le a b 31 (count_sbits_twips-le r.x_min h1) (count_sbits_twips-le r.x_max h2))
          (greater-le c d 31 (count_sbits_twips-le r.y_min h3) (count_sbits_twips-le r.y_max h4)),
      FitsBits-count _ r.x_min h1 (omega (arith, x, left-greater a b)),
      FitsBits-count _ r.x_max h2 (omega (arith, x, right-greater a b)),
      FitsBits-count _ r.y_min h3 (omega (arith, y, left-greater c d)),
      FitsBits-count _ r.y_max h4 (omega (arith, y, right-greater c d)),
    )
