-- ===== src/Swf/Records/Agree.antt =====
-- The loop of `read_encoded_u32` (swf/src/read.rs) against that of `read_u30` (swf/src/avm2/read.rs).
use ruffle.Prelude.{
  ℕ, zero, suc, ◌+◌, ◌*◌, ◌/◌, ◌%◌, ◌^◌, ◌≡◌, refl, ap, ◌==◌, ltb, if◌then◌else◌, true, false, Bool,
}
use ruffle.Swf.Error.{Result, ok, err, panics, out_of_fuel}
use ruffle.Swf.Read.{Reader, M, pure, panic, continue, ◌>>=◌, read_u8}
use ruffle.Swf.Write.{◌>>◌, write_u8}
use ruffle.Swf.Avm2.Primitives.{read_u30_loop, write_u32_loop}
use ruffle.Swf.Records.{read_encoded_loop, write_encoded_loop}

-- A reader that succeeds where another does, with the same value.
abbrev pub Follows : {A : Type 0} → M A → M A → Type 0
Follows {A} p q = (r : Reader) (a : A) (r' : Reader) → p r ≡ (ok a, r') → q r ≡ (ok a, r')

continue-Follows :
    {A C : Type 0} (f g : A → M C)
    → ((a : A) → Follows (f a) (g a))
    → (out : Result A × Reader) (b : C) (r' : Reader) → continue f out ≡ (ok b, r')
    → continue g out ≡ (ok b, r')
continue-Follows f g same (ok a, r) b r' h = same a r b r' h
continue-Follows f g same (err e, r) b r' h = h
continue-Follows f g same (panics, r) b r' h = h
continue-Follows f g same (out_of_fuel, r) b r' h = h

continue-panic :
    {A B : Type 0} (out : Result A × Reader) {b : B} {r' : Reader}
    → continue (λ _. panic) out ≡ (ok b, r')
    → ⊥
continue-panic (ok a, r) h = cc
continue-panic (err e, r) h = cc
continue-panic (panics, r) h = cc
continue-panic (out_of_fuel, r) h = cc

-- The same first branch, and another that follows.
branch-Follows :
    (b : Bool) (p q s : M ℕ) → Follows q s → Follows (if b then p else q) (if b then p else s)
branch-Follows true p q s same r a r' h = h
branch-Follows false p q s same r a r' h = same r a r' h

pub read_u30_loop-Follows :
    (rounds i acc : ℕ) → Follows (read_u30_loop rounds i acc) (read_encoded_loop rounds i acc)
unfolding read_u30_loop read_encoded_loop ◌>>=◌
read_u30_loop-Follows zero i acc r a r' h = absurd (continue-panic (read_u8 r) h)
read_u30_loop-Follows (suc rounds) i acc r a r' h =
    continue-Follows
      (λ byte.
        if ltb byte 128
        then pure (acc + byte % 128 * 2 ^ i % 2 ^ 32)
        else read_u30_loop rounds (i + 7) (acc + byte % 128 * 2 ^ i % 2 ^ 32))
      _
      (λ byte.
        branch-Follows (ltb byte 128) _ _ _
          (read_u30_loop-Follows rounds (i + 7) (acc + byte % 128 * 2 ^ i % 2 ^ 32)))
      (read_u8 r) a r' h

pub write_encoded_loop-write_u32_loop :
    (rounds n : ℕ) → write_encoded_loop rounds n ≡ write_u32_loop rounds n
unfolding write_encoded_loop write_u32_loop
write_encoded_loop-write_u32_loop zero n = refl
write_encoded_loop-write_u32_loop (suc rounds) n =
    ap (λ w. if n / 128 == 0 then write_u8 (n % 128) else write_u8 (128 + n % 128) >> w)
      (write_encoded_loop-write_u32_loop rounds (n / 128))
