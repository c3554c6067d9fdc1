-- ===== src/Swf/Avm2/Pool/Entries.antt =====
-- The entries of the constant pool read back (swf/src/avm2/read.rs, swf/src/avm2/write.rs).
use ruffle.Prelude.{
  ℕ, suc, ◌+◌, ◌-◌, ◌%◌, ◌^◌, ◌<◌, ◌≡◌, refl, List, [], ◌∷◌, arith, length, All, true, lt→ltb,
  lt→leb,
}
use native.Mathlib.Nat.{mod-eq_of_lt}
use ruffle.Swf.ByteOrder.{ByteOrder}
use ruffle.Swf.Utf8.{is_utf8}
use ruffle.Swf.Read.{M, pure, ◌>>=◌, read_many, read_f64}
use ruffle.Swf.Write.{W, ◌>>◌, write_u8, write_f64}
use ruffle.Swf.Decodes.Fields.{Decodes-read_f64}
use ruffle.Swf.Avm2.Types.{Index, Str, Namespace, NamespaceSet, Multiname, ConstantPool}
use ruffle.Swf.Avm2.Primitives.{
  read_u30, read_u32, read_index, read_string, string_of, write_u30, write_u32, write_index,
  write_string,
}
use ruffle.Swf.Avm2.Reads.{
  Reads, Reads-Decodes, Reads-bind, Reads-map, Reads-last, Reads-many, Reads-u8,
}
use ruffle.Swf.Avm2.Varint.{read_u30-write_u30, Reads-index}
use ruffle.Swf.Avm2.Ints.{Reads-i32, IsEncodableInt}
use ruffle.Swf.Avm2.Read.{
  read_namespace, namespace_of, read_namespace_set, read_multiname, multiname_of, read_pool,
  read_constant_pool,
}
use ruffle.Swf.Avm2.Write.{
  write_list, write_pool, write_pool_len, write_namespace, write_namespace_set, write_multiname,
  write_constant_pool,
}
use ruffle.Swf.Avm2.Pool.{IsU32, All-imp, Reads-list, Reads-up_to}

-- A string that has a length of 32 bits.
abbrev pub IsEncodableStr : Str → Type 0
IsEncodableStr s = IsU32 (length s) × (is_utf8 s ≡ true)

Reads-string : (s : Str) → IsEncodableStr s → Reads read_string (write_string s) s
unfolding read_string write_string string_of
Reads-string s (fits, utf8) = rw (mod-eq_of_lt fits) (
    Reads-bind _ (read_u30-write_u30 (length s) fits) (Reads-last _ (Reads-up_to s) (rw utf8 refl)))

Reads-u32 : (n : ℕ) → IsU32 n → Reads read_u32 (write_u32 n) n
unfolding read_u32 read_u30 write_u30
Reads-u32 n h = read_u30-write_u30 n h

abbrev pub IsEncodableNamespace : Namespace → Type 0
IsEncodableNamespace (Namespace.namespace name) = IsU32 name
IsEncodableNamespace (Namespace.package_ns name) = IsU32 name
IsEncodableNamespace (Namespace.package_internal name) = IsU32 name
IsEncodableNamespace (Namespace.protected name) = IsU32 name
IsEncodableNamespace (Namespace.explicit name) = IsU32 name
IsEncodableNamespace (Namespace.static_protected name) = IsU32 name
IsEncodableNamespace (Namespace.private name) = IsU32 name

-- A kind and a name.
Reads-kind :
    (kind : ℕ) (name : Index) {namespace : Namespace}
    → IsU32 name
    → namespace_of kind name ≡ pure namespace
    → Reads read_namespace (write_u8 kind >> write_index name) namespace
unfolding read_namespace
Reads-kind kind name h e = Reads-bind _ (Reads-u8 kind) (Reads-last _ (Reads-index name h) e)

Reads-namespace :
    (n : Namespace) → IsEncodableNamespace n → Reads read_namespace (write_namespace n) n
unfolding write_namespace namespace_of
Reads-namespace (Namespace.namespace name) h = Reads-kind 0x08 name h refl
Reads-namespace (Namespace.package_ns name) h = Reads-kind 0x16 name h refl
Reads-namespace (Namespace.package_internal name) h = Reads-kind 0x17 name h refl
Reads-namespace (Namespace.protected name) h = Reads-kind 0x18 name h refl
Reads-namespace (Namespace.explicit name) h = Reads-kind 0x19 name h refl
Reads-namespace (Namespace.static_protected name) h = Reads-kind 0x1a name h refl
Reads-namespace (Namespace.private name) h = Reads-kind 0x05 name h refl

pub Reads-indices :
    (xs : List Index)
    → IsU32 (length xs)
    → All IsU32 xs
    → Reads (read_u30 >>= λ len. read_many len read_index) (write_list write_index xs) xs
Reads-indices xs fits h =
    Reads-list read_index write_index xs fits (All-imp IsU32 _ xs Reads-index h)

abbrev pub IsEncodableSet : NamespaceSet → Type 0
IsEncodableSet xs = IsU32 (length xs) × All IsU32 xs

Reads-namespace_set :
    (xs : NamespaceSet) → IsEncodableSet xs → Reads read_namespace_set (write_namespace_set xs) xs
unfolding read_namespace_set write_namespace_set
Reads-namespace_set xs (fits, h) = Reads-indices xs fits h

abbrev pub IsEncodableMultiname : Multiname → Type 0
IsEncodableMultiname (Multiname.q_name namespace name) = IsU32 namespace × IsU32 name
IsEncodableMultiname (Multiname.q_name_a namespace name) = IsU32 namespace × IsU32 name
IsEncodableMultiname (Multiname.rtq_name name) = IsU32 name
IsEncodableMultiname (Multiname.rtq_name_a name) = IsU32 name
IsEncodableMultiname Multiname.rtq_name_l = Unit
IsEncodableMultiname Multiname.rtq_name_la = Unit
IsEncodableMultiname (Multiname.multiname namespace_set name) = IsU32 namespace_set × IsU32 name
IsEncodableMultiname (Multiname.multiname_a namespace_set name) = IsU32 namespace_set × IsU32 name
IsEncodableMultiname (Multiname.multiname_l namespace_set) = IsU32 namespace_set
IsEncodableMultiname (Multiname.multiname_la namespace_set) = IsU32 namespace_set

Reads-multiname :
    (n : Multiname) → IsEncodableMultiname n → Reads read_multiname (write_multiname n) n
unfolding read_multiname write_multiname multiname_of
Reads-multiname (Multiname.q_name namespace name) (h, k) =
    Reads-bind _ (Reads-u8 0x07)
      (Reads-bind _ (Reads-index namespace h) (Reads-map _ (Reads-index name k)))
Reads-multiname (Multiname.q_name_a namespace name) (h, k) =
    Reads-bind _ (Reads-u8 0x0d)
      (Reads-bind _ (Reads-index namespace h) (Reads-map _ (Reads-index name k)))
Reads-multiname (Multiname.rtq_name name) h =
    Reads-bind _ (Reads-u8 0x0f) (Reads-map _ (Reads-index name h))
Reads-multiname (Multiname.rtq_name_a name) h =
    Reads-bind _ (Reads-u8 0x10) (Reads-map _ (Reads-index name h))
Reads-multiname Multiname.rtq_name_l h = Reads-last _ (Reads-u8 0x11) refl
Reads-multiname Multiname.rtq_name_la h = Reads-last _ (Reads-u8 0x12) refl
Reads-multiname (Multiname.multiname namespace_set name) (h, k) =
    Reads-bind _ (Reads-u8 0x09)
      (Reads-bind _ (Reads-index name k) (Reads-map _ (Reads-index namespace_set h)))
Reads-multiname (Multiname.multiname_a namespace_set name) (h, k) =
    Reads-bind _ (Reads-u8 0x0e)
      (Reads-bind _ (Reads-index name k) (Reads-map _ (Reads-index namespace_set h)))
Reads-multiname (Multiname.multiname_l namespace_set) h =
    Reads-bind _ (Reads-u8 0x1b) (Reads-map _ (Reads-index namespace_set h))
Reads-multiname (Multiname.multiname_la namespace_set) h =
    Reads-bind _ (Reads-u8 0x1c) (Reads-map _ (Reads-index namespace_set h))

-- The length of a table with the entry 0 has 32 bits, and each entry is read back.
abbrev IsEncodableTable : {A : Type 0} → (A → Type 0) → List A → Type 0
IsEncodableTable P xs = (length xs + 1 < 2 ^ 32) × All P xs

Reads-pool :
    {A : Type 0} (p : M A) (w : A → W) (xs : List A)
    → length xs + 1 < 2 ^ 32
    → All (λ x. Reads p (w x) x) xs
    → Reads (read_pool p) (write_pool w xs) xs
unfolding read_pool write_pool write_pool_len
Reads-pool p w [] fits h = Reads-last _ (read_u30-write_u30 0 (omega arith)) refl
Reads-pool p w (x ∷ xs) fits h =
    let len : ℕ = suc (length xs) in
    let small : len % 2 ^ 32 ≡ len = mod-eq_of_lt (omega (arith, fits)) in
    let count : len + 1 - 1 ≡ len = omega arith in
    rw (small, lt→leb (2 ^ 32) (len + 1) fits)
      (Reads-bind _ (read_u30-write_u30 (len + 1) fits)
        (rw (lt→ltb 0 (len + 1) (omega arith), count) (Reads-many p w (x ∷ xs) h)))

-- What a pool may hold: entries that are read back, in tables whose lengths are u32s.
abbrev pub IsEncodableConstantPool : ConstantPool → Type 0
IsEncodableConstantPool c =
    IsEncodableTable IsEncodableInt c.ints
    × IsEncodableTable IsU32 c.uints
    × IsEncodableTable (λ n. n < 2 ^ 64) c.doubles
    × IsEncodableTable IsEncodableStr c.strings
    × IsEncodableTable IsEncodableNamespace c.namespaces
    × IsEncodableTable IsEncodableSet c.namespace_sets
    × IsEncodableTable IsEncodableMultiname c.multinames

-- A table whose entries are read back.
Reads-table :
    {A : Type 0} {p : M A} {w : A → W} (P : A → Type 0) (xs : List A)
    → ((x : A) → P x → Reads p (w x) x)
    → IsEncodableTable P xs
    → Reads (read_pool p) (write_pool w xs) xs
Reads-table P xs each (fits, h) = Reads-pool _ _ xs fits (All-imp P _ xs each h)

module _ ⦃bo : ByteOrder⦄ where
  Reads-f64 : (n : ℕ) → n < 2 ^ 64 → Reads read_f64 (write_f64 n) n
  Reads-f64 n h = Reads-Decodes (Decodes-read_f64 n h)

  pub Reads-constant_pool :
      (c : ConstantPool)
      → IsEncodableConstantPool c
      → Reads read_constant_pool (write_constant_pool c) c
  unfolding read_constant_pool write_constant_pool
  Reads-constant_pool c (ints, uints, doubles, strings, namespaces, namespace_sets, multinames) =
      Reads-bind _ (Reads-table IsEncodableInt c.ints Reads-i32 ints) (
        Reads-bind _ (Reads-table IsU32 c.uints Reads-u32 uints) (
          Reads-bind _ (Reads-table (λ n. n < 2 ^ 64) c.doubles Reads-f64 doubles) (
            Reads-bind _ (Reads-table IsEncodableStr c.strings Reads-string strings) (
              Reads-bind _
                (Reads-table IsEncodableNamespace c.namespaces Reads-namespace namespaces)
                (Reads-bind _
                  (Reads-table IsEncodableSet c.namespace_sets Reads-namespace_set namespace_sets)
                  (Reads-map _
                    (Reads-table IsEncodableMultiname c.multinames Reads-multiname multinames)))))))
