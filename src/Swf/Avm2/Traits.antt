-- ===== src/Swf/Avm2/Traits.antt =====
-- Traits and what holds them read back (swf/src/avm2/read.rs, swf/src/avm2/write.rs).
use ruffle.Prelude.{
  ℕ, ◌≡◌, refl, sym, subst, List, [], ◌∷◌, Option, some, none, All, length, not, has_flag, bit_or,
}
use ruffle.Swf.Read.{pure, ◌>>=◌}
use ruffle.Swf.Write.{W, ◌>>◌, write_u8}
use ruffle.Swf.Avm2.Types.{Index, DefaultValue, TraitKind, Trait, Instance, Class, Script}
use ruffle.Swf.Avm2.Primitives.{read_u30, read_index, write_u30, write_index}
use ruffle.Swf.Avm2.Reads.{
  Reads, Reads-bind, Reads-map, Reads-u8, Reads-group, Reads-result, Reads-pure,
}
use ruffle.Swf.Avm2.Varint.{read_u30-write_u30, Reads-index}
use ruffle.Swf.Avm2.Pool.{IsU32, All-imp, Reads-list, Reads-list_then}
use ruffle.Swf.Avm2.Pool.Entries.{Reads-indices}
use ruffle.Swf.Avm2.Values.{IsEncodableOptional, Reads-optional_value}
use ruffle.Swf.Avm2.Flags.{IsTraitFlags, trait_flags_lem, instance_flags_lem}
use ruffle.Swf.Avm2.Read.{
  read_optional_value, trait_kind_of, read_trait_metadata, read_trait, read_traits,
  read_protected_namespace, read_instance, read_class, read_script,
}
use ruffle.Swf.Avm2.Write.{
  is_some, is_empty, write_list, write_some, write_optional_value, trait_flags, write_trait_kind,
  write_trait_metadata, write_trait, instance_flags, write_instance, write_class, write_script,
}

abbrev pub IsEncodableKind : TraitKind → Type 0
IsEncodableKind (TraitKind.slot slot_id type_name value) =
    IsU32 slot_id × IsU32 type_name × IsEncodableOptional value
IsEncodableKind (TraitKind.const slot_id type_name value) =
    IsU32 slot_id × IsU32 type_name × IsEncodableOptional value
IsEncodableKind (TraitKind.method disp_id method) = IsU32 disp_id × IsU32 method
IsEncodableKind (TraitKind.getter disp_id method) = IsU32 disp_id × IsU32 method
IsEncodableKind (TraitKind.setter disp_id method) = IsU32 disp_id × IsU32 method
IsEncodableKind (TraitKind.class slot_id class) = IsU32 slot_id × IsU32 class
IsEncodableKind (TraitKind.function slot_id function) = IsU32 slot_id × IsU32 function

abbrev pub IsEncodableTrait : Trait → Type 0
IsEncodableTrait t =
    IsU32 t.name × IsEncodableKind t.kind × IsU32 (length t.metadata) × All IsU32 t.metadata

-- The flag says whether there is metadata.
Reads-trait_metadata :
    (flags : ℕ) (xs : List Index)
    → IsU32 (length xs)
    → All IsU32 xs
    → has_flag flags 0b0100_0000 ≡ not (is_empty xs)
    → Reads (read_trait_metadata flags) (write_trait_metadata xs) xs
unfolding read_trait_metadata write_trait_metadata
Reads-trait_metadata flags [] fits h e = rw e (Reads-pure [])
Reads-trait_metadata flags (x ∷ xs) fits h e = rw e (Reads-indices (x ∷ xs) fits h)

-- A trait whose byte of flags says its kind, and whose kind is read back.
Reads-trait_of :
    (t : Trait) (flags kind : ℕ) {v : W}
    → IsEncodableTrait t
    → IsTraitFlags flags kind (not (is_empty t.metadata)) t.is_override t.is_final
    → Reads (trait_kind_of kind) v t.kind
    → Reads read_trait
        (write_index t.name >> ((write_u8 flags >> v) >> write_trait_metadata t.metadata))
        t
unfolding read_trait IsTraitFlags
Reads-trait_of t flags kind (name, _, fits, metadata) (low, has_metadata, overrides, final) d =
    Reads-bind _ (Reads-index t.name name) (
      Reads-group _ _ _ (
        Reads-bind _ (Reads-u8 flags) (
          rw (low, overrides, final)
            (Reads-bind _ d
              (Reads-map _ (Reads-trait_metadata flags t.metadata fits metadata has_metadata))))))

-- Two numbers of a trait.
Reads-pair :
    {A : Type 0} (f : ℕ → Index → A) (i j : ℕ)
    → IsU32 i × IsU32 j
    → Reads
        (read_u30 >>= λ i. read_index >>= λ j. pure (f i j))
        (write_u30 i >> write_index j)
        (f i j)
Reads-pair f i j (hi, hj) =
    Reads-bind _ (read_u30-write_u30 i hi) (Reads-map (f i) (Reads-index j hj))

Reads-slot :
    (f : ℕ → Index → Option DefaultValue → TraitKind) (i j : ℕ) (value : Option DefaultValue)
    → IsU32 i × IsU32 j × IsEncodableOptional value
    → Reads
        (read_u30 >>= λ i. read_index >>= λ j. read_optional_value >>= λ value. pure (f i j value))
        (write_u30 i >> (write_index j >> write_optional_value value))
        (f i j value)
Reads-slot f i j value (hi, hj, h) =
    Reads-bind _ (read_u30-write_u30 i hi)
      (Reads-bind _ (Reads-index j hj) (Reads-map (f i j) (Reads-optional_value value h)))

Reads-trait_with :
    (t : Trait) (kind : TraitKind)
    → t.kind ≡ kind
    → IsEncodableTrait t
    → IsEncodableKind kind
    → Reads read_trait
        (write_index t.name
          >> (write_trait_kind (trait_flags t) kind >> write_trait_metadata t.metadata))
        t
unfolding write_trait_kind trait_kind_of
Reads-trait_with t (TraitKind.slot i j value) e h k =
    Reads-trait_of t (trait_flags t) 0 h (trait_flags_lem (λ w. w) 0 refl t)
      (subst (Reads _ _) (sym e) (Reads-slot TraitKind.slot i j value k))
Reads-trait_with t (TraitKind.method i j) e h k =
    Reads-trait_of t (bit_or (trait_flags t) 1) 1 h (trait_flags_lem (λ w. bit_or w 1) 1 refl t)
      (subst (Reads _ _) (sym e) (Reads-pair TraitKind.method i j k))
Reads-trait_with t (TraitKind.getter i j) e h k =
    Reads-trait_of t (bit_or (trait_flags t) 2) 2 h (trait_flags_lem (λ w. bit_or w 2) 2 refl t)
      (subst (Reads _ _) (sym e) (Reads-pair TraitKind.getter i j k))
Reads-trait_with t (TraitKind.setter i j) e h k =
    Reads-trait_of t (bit_or (trait_flags t) 3) 3 h (trait_flags_lem (λ w. bit_or w 3) 3 refl t)
      (subst (Reads _ _) (sym e) (Reads-pair TraitKind.setter i j k))
Reads-trait_with t (TraitKind.class i j) e h k =
    Reads-trait_of t (bit_or (trait_flags t) 4) 4 h (trait_flags_lem (λ w. bit_or w 4) 4 refl t)
      (subst (Reads _ _) (sym e) (Reads-pair TraitKind.class i j k))
Reads-trait_with t (TraitKind.function i j) e h k =
    Reads-trait_of t (bit_or (trait_flags t) 5) 5 h (trait_flags_lem (λ w. bit_or w 5) 5 refl t)
      (subst (Reads _ _) (sym e) (Reads-pair TraitKind.function i j k))
Reads-trait_with t (TraitKind.const i j value) e h k =
    Reads-trait_of t (bit_or (trait_flags t) 6) 6 h (trait_flags_lem (λ w. bit_or w 6) 6 refl t)
      (subst (Reads _ _) (sym e) (Reads-slot TraitKind.const i j value k))

pub Reads-trait : (t : Trait) → IsEncodableTrait t → Reads read_trait (write_trait t) t
unfolding write_trait
Reads-trait t h = Reads-trait_with t t.kind refl h h.1

abbrev pub IsEncodableTraits : List Trait → Type 0
IsEncodableTraits ts = IsU32 (length ts) × All IsEncodableTrait ts

pub Reads-traits :
    (ts : List Trait) → IsEncodableTraits ts → Reads read_traits (write_list write_trait ts) ts
unfolding read_traits
Reads-traits ts (fits, h) =
    Reads-list read_trait write_trait ts fits (All-imp IsEncodableTrait _ ts Reads-trait h)

abbrev IsEncodableSome : Option Index → Type 0
IsEncodableSome none = Unit
IsEncodableSome (some n) = IsU32 n

abbrev pub IsEncodableInstance : Instance → Type 0
IsEncodableInstance i =
    IsU32 i.name
    × IsU32 i.super_name
    × IsEncodableSome i.protected_namespace
    × IsU32 (length i.interfaces)
    × All IsU32 i.interfaces
    × IsU32 i.init_method
    × IsEncodableTraits i.traits

Reads-protected_namespace :
    (flags : ℕ) (namespace : Option Index)
    → IsEncodableSome namespace
    → has_flag flags 0x08 ≡ is_some namespace
    → Reads (read_protected_namespace flags) (write_some write_index namespace) namespace
unfolding read_protected_namespace write_some
Reads-protected_namespace flags none h e = rw e (Reads-pure none)
Reads-protected_namespace flags (some n) h e = rw e (Reads-map some (Reads-index n h))

pub Reads-instance :
    (i : Instance) → IsEncodableInstance i → Reads read_instance (write_instance i) i
unfolding read_instance write_instance
Reads-instance i (name, super_name, protected, fits, interfaces, init_method, traits) =
    let (has_namespace, interface, final, sealed) = instance_flags_lem i in
    Reads-result
      (Reads-bind _ (Reads-index i.name name) (
        Reads-bind _ (Reads-index i.super_name super_name) (
          Reads-bind _ (Reads-u8 (instance_flags i)) (
            Reads-bind _
              (Reads-protected_namespace (instance_flags i) i.protected_namespace protected
                has_namespace)
              (Reads-list_then read_index write_index i.interfaces _ fits
                (All-imp IsU32 _ i.interfaces Reads-index interfaces)
                (Reads-bind _ (Reads-index i.init_method init_method)
                  (Reads-map _ (Reads-traits i.traits traits))))))))
      (λ k. record i { is_interface = interface k; is_final = final k; is_sealed = sealed k })

abbrev pub IsEncodableClass : Class → Type 0
IsEncodableClass c = IsU32 c.init_method × IsEncodableTraits c.traits

pub Reads-class : (c : Class) → IsEncodableClass c → Reads read_class (write_class c) c
unfolding read_class write_class
Reads-class c (init_method, traits) =
    Reads-bind _ (Reads-index c.init_method init_method)
      (Reads-map _ (Reads-traits c.traits traits))

abbrev pub IsEncodableScript : Script → Type 0
IsEncodableScript s = IsU32 s.init_method × IsEncodableTraits s.traits

pub Reads-script : (s : Script) → IsEncodableScript s → Reads read_script (write_script s) s
unfolding read_script write_script
Reads-script s (init_method, traits) =
    Reads-bind _ (Reads-index s.init_method init_method)
      (Reads-map _ (Reads-traits s.traits traits))
