-- ===== src/Swf/Avm2/Ints.antt =====
-- Signed numbers of variable length (`read_i32` of swf/src/avm2/read.rs and `write_i32` of
-- swf/src/avm2/write.rs).
use ruffle.Prelude.{
  ℕ, zero, suc, ◌+◌, ◌-◌, ◌*◌, ◌/◌, ◌%◌, ◌^◌, ◌<◌, ◌≤◌, ◌≡◌, refl, ap, ◌∙◌, ℤ, pos, negsuc, arith,
  ◌==◌, Bool-cases, inl, inr, true, false, lt→ltb, le→ltb, ◌⊎◌,
}
use native.Mathlib.Nat.{mod-eq_of_lt}
use ruffle.Swf.Read.{pure}
use ruffle.Swf.Avm2.Reads.{Reads, Reads-bind, Reads-last, Reads-result, Reads-u8}
use ruffle.Swf.Avm2.Primitives.{
  read_i32_loop, read_i32, write_i32_loop, write_i32, low_bits, shift_right, is_sign, sign_extend,
}

-- The number whose lower bits are `acc`, with `n` for those from the bit `i` on.
abbrev joined : ℕ → ℕ → ℤ → ℤ
joined i acc (pos n) = pos (acc + n * 2 ^ i)
joined i acc (negsuc n) = negsuc (n * 2 ^ i + (2 ^ i - 1 - acc))

-- One round: the last group, whose highest bit is the sign, or another one.
Reads-round :
    (rounds i acc : ℕ) (n : ℤ)
    → low_bits n < 128
    → low_bits n * 2 ^ i < 2 ^ 32
    → (is_sign (shift_right n) ≡ true
        → sign_extend (i + 7) (acc + low_bits n * 2 ^ i) ≡ pure (joined i acc n))
    → (is_sign (shift_right n) ≡ false
        → Reads
            (read_i32_loop rounds (i + 7) (acc + low_bits n * 2 ^ i))
            (write_i32_loop rounds (shift_right n))
            (joined i acc n))
    → Reads (read_i32_loop (suc rounds) i acc) (write_i32_loop (suc rounds) n) (joined i acc n)
unfolding read_i32_loop write_i32_loop
Reads-round rounds i acc n byte small last d =
    let low : low_bits n % 128 ≡ low_bits n = mod-eq_of_lt byte in
    let high : (128 + low_bits n) % 128 ≡ low_bits n = omega (arith, byte) in
    elim (Bool-cases (is_sign (shift_right n))) [
      | inl done ↦ rw done (
          Reads-last _ (Reads-u8 (low_bits n))
            (rw (lt→ltb (low_bits n) 128 byte, low, mod-eq_of_lt small) (last done)))
      | inr more ↦ rw more (
          Reads-bind _ (Reads-u8 (128 + low_bits n))
            (rw (le→ltb (128 + low_bits n) 128 (omega arith), high, mod-eq_of_lt small) (d more)))
    ]

-- The sign is the highest bit of the last group.
abbrev FitsGroups : ℕ → ℕ → Type 0
FitsGroups zero n = ⊥
FitsGroups (suc groups) n = (n < 64) ⊎ ((128 ≤ n) × FitsGroups groups (n / 128))

-- A number that `write_i32` writes in so many groups at most, with its sign in the last one.
abbrev FitsInt : ℕ → ℤ → Type 0
FitsInt groups (pos n) = FitsGroups groups n
FitsInt groups (negsuc n) = FitsGroups groups n

abbrev pub IsEncodableInt : ℤ → Type 0
IsEncodableInt n = FitsInt 4 n

-- The groups that are left, told by the test for the last one.
last_group : (groups n : ℕ) → FitsGroups (suc groups) n → (n / 128 == 0) ≡ true → n < 64
last_group groups n (inl h) e = h
last_group groups n (inr h) e = absurd (omega (arith, h.0, ==→≡ e))
  where
    ==→≡ : {m : ℕ} → (m == 0) ≡ true → m ≡ 0
    ==→≡ h = ground arith

more_groups :
    (groups n : ℕ)
    → FitsGroups (suc groups) n
    → (n / 128 == 0) ≡ false
    → FitsGroups groups (n / 128)
more_groups groups n (inr h) e = h.1
more_groups groups n (inl h) e = absurd (omega (arith, h, above e))
  where
    above : {m : ℕ} → (m == 0) ≡ false → 0 < m
    above h = ground arith

sign_extend-pos : (i n : ℕ) → i ≤ 32 → n < 2 ^ (i - 1) → sign_extend i n ≡ pure (pos n)
unfolding sign_extend
sign_extend-pos i n h k = rw (le→ltb 32 i h, lt→ltb n (2 ^ (i - 1)) k) refl

sign_extend-negsuc :
    (i n : ℕ) → i ≤ 32 → 2 ^ (i - 1) ≤ n → sign_extend i n ≡ pure (negsuc (2 ^ i - 1 - n))
unfolding sign_extend
sign_extend-negsuc i n h k = rw (le→ltb 32 i h, le→ltb n (2 ^ (i - 1)) k) refl

Reads-int_21 :
    (acc : ℕ) (n : ℤ)
    → acc < 2 ^ 21
    → FitsInt 1 n
    → Reads (read_i32_loop 2 21 acc) (write_i32_loop 2 n) (joined 21 acc n)
unfolding low_bits shift_right is_sign
Reads-int_21 acc (pos n) small h =
    Reads-round 1 21 acc (pos n) (omega arith) (omega arith)
      (λ e.
        let short : n < 64 = last_group 0 n h e in
        sign_extend-pos 28 (acc + n % 128 * 2 ^ 21) (omega arith) (omega (arith, short, small))
        ∙ ap (λ k. pure (pos k)) (omega (arith, short)))
      (λ e. absurd (more_groups 0 n h e))
Reads-int_21 acc (negsuc n) small h =
    Reads-round 1 21 acc (negsuc n) (omega arith) (omega arith)
      (λ e.
        let short : n < 64 = last_group 0 n h e in
        sign_extend-negsuc 28 (acc + (127 - n % 128) * 2 ^ 21) (omega arith)
          (omega (arith, short, small))
        ∙ ap (λ k. pure (negsuc k)) (omega (arith, short, small)))
      (λ e. absurd (more_groups 0 n h e))

Reads-int_14 :
    (acc : ℕ) (n : ℤ)
    → acc < 2 ^ 14
    → FitsInt 2 n
    → Reads (read_i32_loop 3 14 acc) (write_i32_loop 3 n) (joined 14 acc n)
unfolding low_bits shift_right is_sign
Reads-int_14 acc (pos n) small h =
    Reads-round 2 14 acc (pos n) (omega arith) (omega arith)
      (λ e.
        let short : n < 64 = last_group 1 n h e in
        sign_extend-pos 21 (acc + n % 128 * 2 ^ 14) (omega arith) (omega (arith, short, small))
        ∙ ap (λ k. pure (pos k)) (omega (arith, short)))
      (λ e.
        Reads-result
          (Reads-int_21 (acc + n % 128 * 2 ^ 14) (pos (n / 128)) (omega (arith, small))
            (more_groups 1 n h e))
          (ap pos (omega arith)))
Reads-int_14 acc (negsuc n) small h =
    Reads-round 2 14 acc (negsuc n) (omega arith) (omega arith)
      (λ e.
        let short : n < 64 = last_group 1 n h e in
        sign_extend-negsuc 21 (acc + (127 - n % 128) * 2 ^ 14) (omega arith)
          (omega (arith, short, small))
        ∙ ap (λ k. pure (negsuc k)) (omega (arith, short, small)))
      (λ e.
        Reads-result
          (Reads-int_21 (acc + (127 - n % 128) * 2 ^ 14) (negsuc (n / 128)) (omega (arith, small))
            (more_groups 1 n h e))
          (ap negsuc (omega (arith, small))))

Reads-int_7 :
    (acc : ℕ) (n : ℤ)
    → acc < 2 ^ 7
    → FitsInt 3 n
    → Reads (read_i32_loop 4 7 acc) (write_i32_loop 4 n) (joined 7 acc n)
unfolding low_bits shift_right is_sign
Reads-int_7 acc (pos n) small h =
    Reads-round 3 7 acc (pos n) (omega arith) (omega arith)
      (λ e.
        let short : n < 64 = last_group 2 n h e in
        sign_extend-pos 14 (acc + n % 128 * 2 ^ 7) (omega arith) (omega (arith, short, small))
        ∙ ap (λ k. pure (pos k)) (omega (arith, short)))
      (λ e.
        Reads-result
          (Reads-int_14 (acc + n % 128 * 2 ^ 7) (pos (n / 128)) (omega (arith, small))
            (more_groups 2 n h e))
          (ap pos (omega arith)))
Reads-int_7 acc (negsuc n) small h =
    Reads-round 3 7 acc (negsuc n) (omega arith) (omega arith)
      (λ e.
        let short : n < 64 = last_group 2 n h e in
        sign_extend-negsuc 14 (acc + (127 - n % 128) * 2 ^ 7) (omega arith)
          (omega (arith, short, small))
        ∙ ap (λ k. pure (negsuc k)) (omega (arith, short, small)))
      (λ e.
        Reads-result
          (Reads-int_14 (acc + (127 - n % 128) * 2 ^ 7) (negsuc (n / 128)) (omega (arith, small))
            (more_groups 2 n h e))
          (ap negsuc (omega (arith, small))))

Reads-int_0 :
    (acc : ℕ) (n : ℤ)
    → acc < 2 ^ 0
    → FitsInt 4 n
    → Reads (read_i32_loop 5 0 acc) (write_i32_loop 5 n) (joined 0 acc n)
unfolding low_bits shift_right is_sign
Reads-int_0 acc (pos n) small h =
    Reads-round 4 0 acc (pos n) (omega arith) (omega arith)
      (λ e.
        let short : n < 64 = last_group 3 n h e in
        sign_extend-pos 7 (acc + n % 128 * 2 ^ 0) (omega arith) (omega (arith, short, small))
        ∙ ap (λ k. pure (pos k)) (omega (arith, short)))
      (λ e.
        Reads-result
          (Reads-int_7 (acc + n % 128 * 2 ^ 0) (pos (n / 128)) (omega (arith, small))
            (more_groups 3 n h e))
          (ap pos (omega arith)))
Reads-int_0 acc (negsuc n) small h =
    Reads-round 4 0 acc (negsuc n) (omega arith) (omega arith)
      (λ e.
        let short : n < 64 = last_group 3 n h e in
        sign_extend-negsuc 7 (acc + (127 - n % 128) * 2 ^ 0) (omega arith)
          (omega (arith, short, small))
        ∙ ap (λ k. pure (negsuc k)) (omega (arith, short, small)))
      (λ e.
        Reads-result
          (Reads-int_7 (acc + (127 - n % 128) * 2 ^ 0) (negsuc (n / 128)) (omega (arith, small))
            (more_groups 3 n h e))
          (ap negsuc (omega (arith, small))))

pub Reads-i32 : (n : ℤ) → IsEncodableInt n → Reads read_i32 (write_i32 n) n
unfolding read_i32 write_i32
Reads-i32 (pos n) h = Reads-result (Reads-int_0 0 (pos n) (omega arith) h) (ap pos (omega arith))
Reads-i32 (negsuc n) h =
    Reads-result (Reads-int_0 0 (negsuc n) (omega arith) h) (ap negsuc (omega arith))

-- A number from 64 to 127 is written in one group, whose highest bit is taken for the sign.
pub Reads-misread :
    (n : ℕ) → 64 ≤ n → n < 128 → Reads read_i32 (write_i32 (pos n)) (negsuc (127 - n))
unfolding read_i32 write_i32 read_i32_loop write_i32_loop low_bits shift_right is_sign
Reads-misread n h k =
    let quotient : n / 128 ≡ 0 = omega (arith, k) in
    let rest : n % 128 ≡ n = omega (arith, k) in
    rw (quotient, rest)
      (Reads-last _ (Reads-u8 n) (
        rw (lt→ltb n 128 k, rest)
          (ap (sign_extend 7) (omega (arith, k)) ∙ sign_extend-negsuc 7 n (omega arith) h)))
