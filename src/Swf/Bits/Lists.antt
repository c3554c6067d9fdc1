-- ===== src/Swf/Bits/Lists.antt =====
-- The bits of numbers and of bytes.
use ruffle.Prelude.{
  ℕ, zero, suc, ◌+◌, ◌-◌, ◌*◌, ◌/◌, ◌%◌, ◌^◌, ◌≤◌, ◌≡◌, refl, sym, ap, ap₂, ◌∙◌, List, [], ◌∷◌,
  ◌++◌, append_assoc, append-nil, Bool, ◌==◌, arith, length, length-append,
}
use native.Mathlib.Nat.{
  div-div-eq-div-mul, pow-succ', mod-eq-sub-div-mul, div-mul-le_self, mul_left_comm,
}
use ruffle.Swf.Bits.Defs.{bit, bit_value}

-- The lower bits of a number, the highest of them first.
abbrev pub ubits : ℕ → ℕ → List Bool
ubits zero n = []
ubits (suc num_bits) n = bit num_bits n ∷ ubits num_bits n

abbrev pub bytes_bits : List ℕ → List Bool
bytes_bits [] = []
bytes_bits (byte ∷ bytes) = ubits 8 byte ++ bytes_bits bytes

pub bytes_bits-append : (a b : List ℕ) → bytes_bits (a ++ b) ≡ bytes_bits a ++ bytes_bits b
bytes_bits-append [] b = refl
bytes_bits-append (byte ∷ a) b =
    ap (λ bs. ubits 8 byte ++ bs) (bytes_bits-append a b)
    ∙ sym (append_assoc (ubits 8 byte) (bytes_bits a) (bytes_bits b))

half_of : (k n : ℕ) → n / 2 / 2 ^ k ≡ n / 2 ^ suc k
half_of k n = div-div-eq-div-mul n 2 (2 ^ k) ∙ ap (λ p. n / p) (sym (pow-succ' 2 k))

bit-suc : (m n : ℕ) → bit (suc m) n ≡ bit m (n / 2)
bit-suc m n = ap (λ k. k % 2 == 1) (sym (half_of m n))

-- The lowest bit comes last.
pub ubits-half : (m n : ℕ) → ubits (suc m) n ≡ ubits m (n / 2) ++ (n % 2 == 1) ∷ []
ubits-half zero n = ap (λ k. (k % 2 == 1) ∷ []) (omega arith)
ubits-half (suc m) n = ap₂ ◌∷◌ (bit-suc m n) (ubits-half m n)

-- The upper bits come first.
pub ubits-upper :
    (k m n : ℕ)
    → (pad : List Bool) × (ubits (k + m) n ≡ ubits m (n / 2 ^ k) ++ pad) × (length pad ≡ k)
ubits-upper zero m n =
    let count : zero + m ≡ m = omega arith in
    let same : n ≡ n / 2 ^ 0 = omega arith in
    ([], ap₂ ubits count same ∙ sym (append-nil (ubits m (n / 2 ^ 0))), refl)
ubits-upper (suc k) m n =
    let (pad, e, counted) = ubits-upper k m (n / 2) in
    let count : suc k + m ≡ suc (k + m) = omega arith in
    (
      pad ++ (n % 2 == 1) ∷ [],
      ap (λ c. ubits c n) count
          ∙ ubits-half (k + m) n
          ∙ ap (λ bs. bs ++ (n % 2 == 1) ∷ []) (e ∙ ap (λ q. ubits m q ++ pad) (half_of k n))
          ∙ append_assoc (ubits m (n / 2 ^ suc k)) pad ((n % 2 == 1) ∷ []),
      omega (arith, length-append pad ((n % 2 == 1) ∷ []), counted),
    )

-- What a reader of bits computes.
abbrev pub value : ℕ → List Bool → ℕ
value acc [] = acc
value acc (b ∷ bits) = value (acc * 2 + bit_value b) bits

value-append :
    (acc : ℕ) (bits : List Bool) (b : Bool)
    → value acc (bits ++ b ∷ []) ≡ value acc bits * 2 + bit_value b
value-append acc [] b = refl
value-append acc (c ∷ bits) b = value-append (acc * 2 + bit_value c) bits b

pub value-le : (acc : ℕ) (bits : List Bool) → acc ≤ value acc bits
value-le acc [] = omega arith
value-le acc (b ∷ bits) = omega (arith, value-le (acc * 2 + bit_value b) bits)

odd_value : (n : ℕ) → bit_value (n % 2 == 1) ≡ n % 2
odd_value n = ground arith

mod_suc : (m n : ℕ) → n % 2 ^ suc m ≡ (n / 2) % 2 ^ m * 2 + n % 2
mod_suc m n =
    let p = 2 ^ m in
    let q = n / 2 / p in
    let whole : n % 2 ^ suc m ≡ n - q * (2 * p) =
      mod-eq-sub-div-mul n (2 ^ suc m)
      ∙ ap₂ (λ a b. n - a * b) (sym (half_of m n)) (pow-succ' 2 m) in
    let half : (n / 2) % p ≡ n / 2 - q * p = mod-eq-sub-div-mul (n / 2) p in
    let bound : q * p ≤ n / 2 = div-mul-le_self (n / 2) p in
    let twice : q * (2 * p) ≡ 2 * (q * p) = mul_left_comm q 2 p in
    omega (arith, whole, half, bound, twice)

pub value-ubits : (m n : ℕ) → value 0 (ubits m n) ≡ n % 2 ^ m
value-ubits zero n = omega arith
value-ubits (suc m) n =
    ap (value 0) (ubits-half m n)
    ∙ value-append 0 (ubits m (n / 2)) (n % 2 == 1)
    ∙ ap₂ (λ a b. a * 2 + b) (value-ubits m (n / 2)) (odd_value n)
    ∙ sym (mod_suc m n)
