-- ===== src/Swf/Avm2/Varint.antt =====
-- Numbers of variable length, in groups of seven bits (swf/src/avm2/read.rs, swf/src/avm2/write.rs).
use ruffle.Prelude.{
  ℕ, suc, ◌+◌, ◌*◌, ◌/◌, ◌%◌, ◌^◌, ◌<◌, ◌≡◌, sym, ap, arith, ◌==◌, Bool-cases, inl, inr, true,
  false, lt→ltb, le→ltb,
}
use native.Mathlib.Nat.{mod-eq_of_lt}
use ruffle.Swf.Read.{pure}
use ruffle.Swf.Avm2.Reads.{Reads, Reads-u8, Reads-bind, Reads-result, Reads-last}
use ruffle.Swf.Avm2.Primitives.{
  read_u30_loop, read_u30, read_index, write_u32_loop, write_u32, write_u30, write_index,
}

-- One round, where what is left of the number fits into the bits above the shift.
Reads-round :
    (rounds i acc n : ℕ)
    → n % 128 * 2 ^ i < 2 ^ 32
    → (n / 128 ≡ 0 → n * 2 ^ i ≡ n % 128 * 2 ^ i)
    → (0 < n / 128
        → Reads
            (read_u30_loop rounds (i + 7) (acc + n % 128 * 2 ^ i))
            (write_u32_loop rounds (n / 128))
            (acc + n * 2 ^ i))
    → Reads (read_u30_loop (suc rounds) i acc) (write_u32_loop (suc rounds) n) (acc + n * 2 ^ i)
unfolding read_u30_loop write_u32_loop
Reads-round rounds i acc n small last d =
    let low : n % 128 % 128 ≡ n % 128 = omega arith in
    let high : (128 + n % 128) % 128 ≡ n % 128 = omega arith in
    elim (Bool-cases (n / 128 == 0)) [
      | inl done ↦ rw done (
          Reads-last _ (Reads-u8 (n % 128)) (
            rw (lt→ltb (n % 128) 128 (omega arith), low, mod-eq_of_lt small)
              (ap (λ k. pure (acc + k)) (sym (last (==→≡ done))))))
      | inr more ↦ rw more (
          Reads-bind _ (Reads-u8 (128 + n % 128)) (
            rw (le→ltb (128 + n % 128) 128 (omega arith), high, mod-eq_of_lt small)
              (d (above more))))
    ]
  where
    ==→≡ : {m : ℕ} → (m == 0) ≡ true → m ≡ 0
    ==→≡ h = ground arith

    above : {m : ℕ} → (m == 0) ≡ false → 0 < m
    above h = ground arith

-- The last group of a u32 has four bits.
Reads-28 :
    (acc n : ℕ) → n < 16 → Reads (read_u30_loop 1 28 acc) (write_u32_loop 1 n) (acc + n * 2 ^ 28)
Reads-28 acc n h =
    Reads-round 0 28 acc n (omega arith) (λ e. omega (arith, e)) (λ e. absurd (omega (arith, e)))

Reads-21 :
    (acc n : ℕ)
    → n < 2 ^ 11
    → Reads (read_u30_loop 2 21 acc) (write_u32_loop 2 n) (acc + n * 2 ^ 21)
Reads-21 acc n h =
    Reads-round 1 21 acc n (omega arith) (λ e. omega (arith, e))
      (λ _. Reads-result (Reads-28 (acc + n % 128 * 2 ^ 21) (n / 128) (omega arith)) (omega arith))

Reads-14 :
    (acc n : ℕ)
    → n < 2 ^ 18
    → Reads (read_u30_loop 3 14 acc) (write_u32_loop 3 n) (acc + n * 2 ^ 14)
Reads-14 acc n h =
    Reads-round 2 14 acc n (omega arith) (λ e. omega (arith, e))
      (λ _. Reads-result (Reads-21 (acc + n % 128 * 2 ^ 14) (n / 128) (omega arith)) (omega arith))

Reads-7 :
    (acc n : ℕ) → n < 2 ^ 25 → Reads (read_u30_loop 4 7 acc) (write_u32_loop 4 n) (acc + n * 2 ^ 7)
Reads-7 acc n h =
    Reads-round 3 7 acc n (omega arith) (λ e. omega (arith, e))
      (λ _. Reads-result (Reads-14 (acc + n % 128 * 2 ^ 7) (n / 128) (omega arith)) (omega arith))

-- Every u32 is read back from its groups of seven bits, though the format allows 30 bits only.
pub read_u30-write_u30 : (n : ℕ) → n < 2 ^ 32 → Reads read_u30 (write_u30 n) n
unfolding read_u30 write_u30 write_u32
read_u30-write_u30 n h =
    Reads-result
      (Reads-round 4 0 0 n (omega arith) (λ e. omega (arith, e))
        (λ _. Reads-result (Reads-7 (0 + n % 128 * 2 ^ 0) (n / 128) (omega arith)) (omega arith)))
      (omega arith)

pub Reads-index : (n : ℕ) → n < 2 ^ 32 → Reads read_index (write_index n) n
unfolding read_index write_index
Reads-index n h = read_u30-write_u30 n h
