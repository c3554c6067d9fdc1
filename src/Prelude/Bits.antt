-- ===== src/Prelude/Bits.antt =====
-- Finite checks by evaluation, and the flag test of the parsers.
use Prim.Native.Nat.{ℕ, bit_and}
use mathlib.Core.Path.{◌≡◌}
use mathlib.Core.Bool.{Bool, true, false, ◌&&◌, not}
use native.Mathlib.Omega.{arith}
use mathlib.Core.Path.{refl}
use ruffle.Prelude.Tests.{◌==◌}

-- `flags & mask != 0`
abbrev pub has_flag : ℕ → ℕ → Bool
has_flag flags mask = not (bit_and flags mask == 0)

-- A property of a Boolean, checked at both.
abbrev pub both : (Bool → Bool) → Bool
both p = p true && p false

pub both_sound : (p : Bool → Bool) → both p ≡ true → (b : Bool) → p b ≡ true
both_sound p h true = ground arith
both_sound p h false = ground arith

pub both_sound_2 :
    (p : Bool → Bool → Bool) → both (λ a. both (p a)) ≡ true → (a b : Bool) → p a b ≡ true
both_sound_2 p h a b = both_sound (p a) (both_sound (λ a. both (p a)) h a) b

pub both_sound_3 :
    (p : Bool → Bool → Bool → Bool)
    → both (λ a. both (λ b. both (p a b))) ≡ true
    → (a b c : Bool) → p a b c ≡ true
both_sound_3 p h a = both_sound_2 (p a) (both_sound (λ a. both (λ b. both (p a b))) h a)

pub both_sound_4 :
    (p : Bool → Bool → Bool → Bool → Bool)
    → both (λ a. both (λ b. both (λ c. both (p a b c)))) ≡ true
    → (a b c d : Bool) → p a b c d ≡ true
both_sound_4 p h a b = both_sound_2 (p a b) (both_sound_2 (λ a b. both (λ c. both (p a b c))) h a b)

pub both_sound_6 :
    (p : Bool → Bool → Bool → Bool → Bool → Bool → Bool)
    → both (λ a. both (λ b. both (λ c. both (λ d. both (λ e. both (p a b c d e)))))) ≡ true
    → (a b c d e f : Bool) → p a b c d e f ≡ true
both_sound_6 p h a b c =
    both_sound_3 (p a b c)
      (both_sound_3 (λ a b c. both (λ d. both (λ e. both (p a b c d e)))) h a b c)

abbrev pub same : Bool → Bool → Bool
same true b = b
same false b = not b

pub same→eq : (a b : Bool) → same a b ≡ true → a ≡ b
same→eq true b h = ground arith
same→eq false b h = ground arith

pub and_left : (a b : Bool) → (a && b) ≡ true → a ≡ true
and_left true b h = refl
and_left false b h = h

pub and_right : (a b : Bool) → (a && b) ≡ true → b ≡ true
and_right true b h = h
and_right false b h = cc
