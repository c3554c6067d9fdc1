-- ===== src/Swf/Avm2/Values.antt =====
-- Constant values and metadata read back (swf/src/avm2/read.rs, swf/src/avm2/write.rs).
use ruffle.Prelude.{◌≡◌, ◌≢◌, refl, ap, Option, some, none, All, length, arith, ne→==}
use ruffle.Swf.Read.{pure, ◌>>=◌}
use ruffle.Swf.Avm2.Types.{DefaultValue, MetadataItem, Metadata}
use ruffle.Swf.Avm2.Reads.{Reads, Reads-bind, Reads-map, Reads-last, Reads-u8}
use ruffle.Swf.Avm2.Varint.{read_u30-write_u30, Reads-index}
use ruffle.Swf.Avm2.Pool.{IsU32, All-imp, Reads-list_map}
use ruffle.Swf.Avm2.Read.{
  default_value_of, read_constant_value, optional_value_of, read_optional_value, read_metadata_item,
  read_metadata,
}
use ruffle.Swf.Avm2.Write.{
  index_of, kind_of, write_constant_value, write_optional_value, write_metadata_item,
  write_metadata,
}

-- The index and the kind say which value it is.
pub default_value_of-kind_of :
    (v : DefaultValue) → default_value_of (index_of v) (kind_of v) ≡ pure v
unfolding default_value_of index_of kind_of
default_value_of-kind_of (DefaultValue.int i) = refl
default_value_of-kind_of (DefaultValue.uint i) = refl
default_value_of-kind_of (DefaultValue.double i) = refl
default_value_of-kind_of (DefaultValue.string i) = refl
default_value_of-kind_of DefaultValue.true = refl
default_value_of-kind_of DefaultValue.false = refl
default_value_of-kind_of DefaultValue.null = refl
default_value_of-kind_of DefaultValue.undefined = refl
default_value_of-kind_of (DefaultValue.namespace i) = refl
default_value_of-kind_of (DefaultValue.package_ns i) = refl
default_value_of-kind_of (DefaultValue.package_internal i) = refl
default_value_of-kind_of (DefaultValue.protected i) = refl
default_value_of-kind_of (DefaultValue.explicit i) = refl
default_value_of-kind_of (DefaultValue.static_protected i) = refl
default_value_of-kind_of (DefaultValue.private i) = refl

abbrev pub IsEncodableValue : DefaultValue → Type 0
IsEncodableValue v = IsU32 (index_of v)

pub Reads-constant_value :
    (v : DefaultValue) → IsEncodableValue v → Reads read_constant_value (write_constant_value v) v
unfolding read_constant_value write_constant_value
Reads-constant_value v h =
    Reads-bind _ (read_u30-write_u30 (index_of v) h)
      (Reads-last _ (Reads-u8 (kind_of v)) (default_value_of-kind_of v))

-- An index of 0 would say that there is no value.
abbrev pub IsEncodableOptional : Option DefaultValue → Type 0
IsEncodableOptional none = Unit
IsEncodableOptional (some v) = IsEncodableValue v × (index_of v ≢ 0)

pub Reads-optional_value :
    (v : Option DefaultValue)
    → IsEncodableOptional v
    → Reads read_optional_value (write_optional_value v) v
unfolding read_optional_value write_optional_value optional_value_of write_constant_value ◌>>=◌
Reads-optional_value none h = Reads-last _ (read_u30-write_u30 0 (omega arith)) refl
Reads-optional_value (some v) (fits, nonzero) =
    Reads-bind _ (read_u30-write_u30 (index_of v) fits) (
      rw (ne→== (index_of v) 0 nonzero) (
        Reads-last _ (Reads-u8 (kind_of v))
          (ap (λ p. p >>= λ value. pure (some value)) (default_value_of-kind_of v))))

abbrev pub IsEncodableMetadata : Metadata → Type 0
IsEncodableMetadata m =
    IsU32 m.name × IsU32 (length m.items) × All (λ item. IsU32 item.key × IsU32 item.value) m.items

Reads-metadata_item :
    (item : MetadataItem)
    → IsU32 item.key × IsU32 item.value
    → Reads read_metadata_item (write_metadata_item item) item
unfolding read_metadata_item write_metadata_item
Reads-metadata_item item (key, value) =
    Reads-bind _ (Reads-index item.key key) (Reads-map _ (Reads-index item.value value))

pub Reads-metadata :
    (m : Metadata) → IsEncodableMetadata m → Reads read_metadata (write_metadata m) m
unfolding read_metadata write_metadata
Reads-metadata m (name, fits, h) = Reads-bind _ (Reads-index m.name name) (
    Reads-list_map read_metadata_item write_metadata_item m.items _ fits
      (All-imp _ _ m.items Reads-metadata_item h))
