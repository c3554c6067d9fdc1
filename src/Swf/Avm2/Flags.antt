-- ===== src/Swf/Avm2/Flags.antt =====
-- The flags of traits, instances and methods: a byte that swf/src/avm2/write.rs puts together and
-- swf/src/avm2/read.rs takes apart.
use ruffle.Prelude.{
  ℕ, ◌≡◌, refl, Bool, true, ◌&&◌, ◌==◌, has_flag, ltb, not, if◌then◌else◌, both, both_sound_3,
  both_sound_4, both_sound_6, ==_iff, bit_or, bit_and, same, same→eq, and_left, and_right,
}
use ruffle.Swf.Avm2.Types.{Trait, Instance, Method}
use ruffle.Swf.Avm2.Write.{
  flag, is_some, is_empty, trait_flags, instance_flags, method_flags, has_param_names, num_optional,
}

==→eq : (a b : ℕ) → (a == b) ≡ true → a ≡ b
==→eq a b h = (==_iff a b).0 h

abbrev trait_kept : ℕ → ℕ → Bool → Bool → Bool → Bool
trait_kept w kind a b c =
    (bit_and w 0b1111 == kind)
    && (same (has_flag w 0b0100_0000) a
        && (same (has_flag w 0b0010_0000) b && same (has_flag w 0b0001_0000) c))

-- The lower four bits are the kind of the trait, and three bits above them are its flags.
unfoldable pub IsTraitFlags : ℕ → ℕ → Bool → Bool → Bool → Type 0
IsTraitFlags w kind a b c =
    (bit_and w 0b1111 ≡ kind)
    × (has_flag w 0b0100_0000 ≡ a)
    × (has_flag w 0b0010_0000 ≡ b)
    × (has_flag w 0b0001_0000 ≡ c)

-- What is checked for all flags holds for each.
trait_kept_sound :
    (w kind : ℕ) (a b c : Bool) → trait_kept w kind a b c ≡ true → IsTraitFlags w kind a b c
unfolding IsTraitFlags
trait_kept_sound w kind a b c h =
    let k1 = and_right _ _ h in
    let k2 = and_right _ _ k1 in
    (
      ==→eq _ kind (and_left _ _ h),
      same→eq _ a (and_left _ _ k1),
      same→eq _ b (and_left _ _ k2),
      same→eq _ c (and_right _ _ k2),
    )

abbrev trait_word : Bool → Bool → Bool → ℕ
trait_word no_metadata b c =
    bit_or (if no_metadata then 0 else 0b0100_0000)
      (bit_or (flag b 0b0010_0000) (flag c 0b0001_0000))

abbrev trait_table : (ℕ → ℕ) → ℕ → Bool
trait_table with_kind kind =
    both (λ a. both (λ b. both (λ c. trait_kept (with_kind (trait_word a b c)) kind (not a) b c)))

-- A kind that keeps apart from the flags in all eight cases.
pub trait_flags_lem :
    (with_kind : ℕ → ℕ) (kind : ℕ)
    → trait_table with_kind kind ≡ true
    → (t : Trait)
    → IsTraitFlags
        (with_kind (trait_flags t))
        kind
        (not (is_empty t.metadata))
        t.is_override
        t.is_final
unfolding trait_flags
trait_flags_lem with_kind kind h t =
    let a = is_empty t.metadata in
    trait_kept_sound _ kind (not a) t.is_override t.is_final (
      both_sound_3 (λ a b c. trait_kept (with_kind (trait_word a b c)) kind (not a) b c) h a
        t.is_override t.is_final)

abbrev instance_kept : Bool → Bool → Bool → Bool → Bool
instance_kept a b c d =
    let w = bit_or (flag a 0x08) (bit_or (flag b 0x04) (bit_or (flag c 0x02) (flag d 0x01))) in
    same (has_flag w 0x08) a
    && (same (has_flag w 0x04) b && (same (has_flag w 0x02) c && same (has_flag w 0x01) d))

instance_table : both (λ a. both (λ b. both (λ c. both (λ d. instance_kept a b c d)))) ≡ true
instance_table = refl

-- The four tests of the reader on the byte of the writer.
pub instance_flags_lem :
    (i : Instance)
    → (has_flag (instance_flags i) 0x08 ≡ is_some i.protected_namespace)
      × (has_flag (instance_flags i) 0x04 ≡ i.is_interface)
      × (has_flag (instance_flags i) 0x02 ≡ i.is_final)
      × (has_flag (instance_flags i) 0x01 ≡ i.is_sealed)
unfolding instance_flags
instance_flags_lem i =
    let a = is_some i.protected_namespace in
    let h = both_sound_4 instance_kept instance_table a i.is_interface i.is_final i.is_sealed in
    let k1 = and_right _ _ h in
    let k2 = and_right _ _ k1 in
    (
      same→eq _ a (and_left _ _ h),
      same→eq _ i.is_interface (and_left _ _ k1),
      same→eq _ i.is_final (and_left _ _ k2),
      same→eq _ i.is_sealed (and_right _ _ k2),
    )

abbrev method_kept : Bool → Bool → Bool → Bool → Bool → Bool → Bool
method_kept a b c d e f =
    let w = bit_or (flag a 0x80) (
      bit_or (flag b 0x40)
        (bit_or (flag c 0x08) (bit_or (flag d 0x04) (bit_or (flag e 0x02) (flag f 0x01))))) in
    same (has_flag w 0x80) a
    && (same (has_flag w 0x40) b
        && (same (has_flag w 0x08) c
            && (same (has_flag w 0x04) d
                && (same (has_flag w 0x02) e && same (has_flag w 0x01) f))))

method_table :
    both (λ a. both (λ b. both (λ c. both (λ d. both (λ e. both (λ f. method_kept a b c d e f))))))
    ≡ true
method_table = refl

-- The six tests of the reader on the byte of the writer.
pub method_flags_lem :
    (m : Method)
    → (has_flag (method_flags m) 0x80 ≡ has_param_names m.params)
      × (has_flag (method_flags m) 0x40 ≡ m.needs_dxns)
      × (has_flag (method_flags m) 0x08 ≡ ltb 0 (num_optional m.params))
      × (has_flag (method_flags m) 0x04 ≡ m.needs_rest)
      × (has_flag (method_flags m) 0x02 ≡ m.needs_activation)
      × (has_flag (method_flags m) 0x01 ≡ m.needs_arguments_object)
unfolding method_flags
method_flags_lem m =
    let a = has_param_names m.params in
    let c = ltb 0 (num_optional m.params) in
    let h =
      both_sound_6 method_kept method_table a m.needs_dxns c m.needs_rest m.needs_activation
        m.needs_arguments_object in
    let k1 = and_right _ _ h in
    let k2 = and_right _ _ k1 in
    let k3 = and_right _ _ k2 in
    let k4 = and_right _ _ k3 in
    (
      same→eq _ a (and_left _ _ h),
      same→eq _ m.needs_dxns (and_left _ _ k1),
      same→eq _ c (and_left _ _ k2),
      same→eq _ m.needs_rest (and_left _ _ k3),
      same→eq _ m.needs_activation (and_left _ _ k4),
      same→eq _ m.needs_arguments_object (and_right _ _ k4),
    )
