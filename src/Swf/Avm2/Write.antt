-- ===== src/Swf/Avm2/Write.antt =====
-- The ABC writer (swf/src/avm2/write.rs), but for its instructions.
use ruffle.Prelude.{
  ℕ, suc, ◌+◌, ◌-◌, ◌%◌, ◌^◌, ltb, leb, if◌then◌else◌, List, [], ◌∷◌, Option, some, none, Bool,
  true, false, ◌||◌, bit_or, length, drop,
}
use ruffle.Swf.ByteOrder.{ByteOrder}
use ruffle.Swf.Write.{W, ◌>>◌, write_all, write_u8, write_each, write_u16, write_f64}
use ruffle.Swf.Avm2.Types.{
  Index, Namespace, NamespaceSet, Multiname, ConstantPool, DefaultValue, MethodParam, Method,
  MetadataItem, Metadata, TraitKind, Trait, Instance, Class, Script, Exception, MethodBody, AbcFile,
}
use ruffle.Swf.Avm2.Primitives.{as_u32, write_u30, write_u32, write_i32, write_index, write_string}

-- `if b { n } else { 0 }`
abbrev pub flag : Bool → ℕ → ℕ
flag b n = if b then n else 0

abbrev pub is_some : {A : Type 0} → Option A → Bool
is_some (some a) = true
is_some none = false

abbrev pub is_empty : {A : Type 0} → List A → Bool
is_empty [] = true
is_empty (x ∷ xs) = false

-- A number of elements and the elements.
unfoldable pub write_list : {A : Type 0} → (A → W) → List A → W
write_list write xs = write_u30 (as_u32 (length xs)) >> write_each write xs

-- `self.write_u30(xs.len() as u32 + 1)`
unfoldable pub write_pool_len : ℕ → W
write_pool_len len = if leb (2 ^ 32) (as_u32 len + 1) then none else write_u30 (as_u32 len + 1)

-- A table of the constant pool: its length counts the entry 0, which is not there.
unfoldable pub write_pool : {A : Type 0} → (A → W) → List A → W
unfolding write_pool_len
write_pool write [] = write_u30 0
write_pool write (x ∷ xs) = write_pool_len (length (x ∷ xs)) >> write_each write (x ∷ xs)

unfoldable pub write_namespace : Namespace → W
write_namespace (Namespace.namespace name) = write_u8 0x08 >> write_index name
write_namespace (Namespace.package_ns name) = write_u8 0x16 >> write_index name
write_namespace (Namespace.package_internal name) = write_u8 0x17 >> write_index name
write_namespace (Namespace.protected name) = write_u8 0x18 >> write_index name
write_namespace (Namespace.explicit name) = write_u8 0x19 >> write_index name
write_namespace (Namespace.static_protected name) = write_u8 0x1a >> write_index name
write_namespace (Namespace.private name) = write_u8 0x05 >> write_index name

unfoldable pub write_namespace_set : NamespaceSet → W
unfolding write_list
write_namespace_set namespace_set = write_list write_index namespace_set

unfoldable pub write_multiname : Multiname → W
write_multiname (Multiname.q_name namespace name) =
    write_u8 0x07 >> (write_index namespace >> write_index name)
write_multiname (Multiname.q_name_a namespace name) =
    write_u8 0x0d >> (write_index namespace >> write_index name)
write_multiname (Multiname.rtq_name name) = write_u8 0x0f >> write_index name
write_multiname (Multiname.rtq_name_a name) = write_u8 0x10 >> write_index name
write_multiname Multiname.rtq_name_l = write_u8 0x11
write_multiname Multiname.rtq_name_la = write_u8 0x12
write_multiname (Multiname.multiname namespace_set name) =
    write_u8 0x09 >> (write_index name >> write_index namespace_set)
write_multiname (Multiname.multiname_a namespace_set name) =
    write_u8 0x0e >> (write_index name >> write_index namespace_set)
write_multiname (Multiname.multiname_l namespace_set) = write_u8 0x1b >> write_index namespace_set
write_multiname (Multiname.multiname_la namespace_set) = write_u8 0x1c >> write_index namespace_set

unfoldable pub write_constant_pool : ⦃bo : ByteOrder⦄ → ConstantPool → W
unfolding write_pool
write_constant_pool constant_pool =
    write_pool write_i32 constant_pool.ints
    >> (write_pool write_u32 constant_pool.uints
        >> (write_pool write_f64 constant_pool.doubles
            >> (write_pool write_string constant_pool.strings
                >> (write_pool write_namespace constant_pool.namespaces
                    >> (write_pool write_namespace_set constant_pool.namespace_sets
                        >> write_pool write_multiname constant_pool.multinames)))))

unfoldable pub index_of : DefaultValue → Index
index_of (DefaultValue.int i) = i
index_of (DefaultValue.uint i) = i
index_of (DefaultValue.double i) = i
index_of (DefaultValue.string i) = i
index_of (DefaultValue.namespace i) = i
index_of (DefaultValue.package_ns i) = i
index_of (DefaultValue.package_internal i) = i
index_of (DefaultValue.protected i) = i
index_of (DefaultValue.explicit i) = i
index_of (DefaultValue.static_protected i) = i
index_of (DefaultValue.private i) = i
index_of DefaultValue.undefined = 0
index_of DefaultValue.false = 0
index_of DefaultValue.true = 0
index_of DefaultValue.null = 0

unfoldable pub kind_of : DefaultValue → ℕ
kind_of DefaultValue.undefined = 0x00
kind_of (DefaultValue.string i) = 0x01
kind_of (DefaultValue.int i) = 0x03
kind_of (DefaultValue.uint i) = 0x04
kind_of (DefaultValue.private i) = 0x05
kind_of (DefaultValue.double i) = 0x06
kind_of (DefaultValue.namespace i) = 0x08
kind_of DefaultValue.false = 0x0a
kind_of DefaultValue.true = 0x0b
kind_of DefaultValue.null = 0x0c
kind_of (DefaultValue.package_ns i) = 0x16
kind_of (DefaultValue.package_internal i) = 0x17
kind_of (DefaultValue.protected i) = 0x18
kind_of (DefaultValue.explicit i) = 0x19
kind_of (DefaultValue.static_protected i) = 0x1a

unfoldable pub write_constant_value : DefaultValue → W
unfolding index_of kind_of
write_constant_value value = write_u30 (index_of value) >> write_u8 (kind_of value)

unfoldable pub write_optional_value : Option DefaultValue → W
unfolding write_constant_value
write_optional_value none = write_u30 0
write_optional_value (some value) = write_constant_value value

-- `if let Some(ref value) = value { write(value)?; }`
unfoldable pub write_some : {A : Type 0} → (A → W) → Option A → W
write_some write none = write_all []
write_some write (some a) = write a

-- `num_optional_params`: how many parameters have a default value.
unfoldable pub num_optional : List MethodParam → ℕ
num_optional [] = 0
num_optional (param ∷ params) =
    if is_some param.default_value then suc (num_optional params) else num_optional params

unfoldable pub has_param_names : List MethodParam → Bool
has_param_names [] = false
has_param_names (param ∷ params) = is_some param.name || has_param_names params

unfoldable pub method_flags : Method → ℕ
unfolding num_optional has_param_names
method_flags method = bit_or (flag (has_param_names method.params) 0x80) (
    bit_or (flag method.needs_dxns 0x40) (
      bit_or (flag (ltb 0 (num_optional method.params)) 0x08) (
        bit_or (flag method.needs_rest 0x04)
          (bit_or (flag method.needs_activation 0x02) (flag method.needs_arguments_object 0x01)))))

-- The default values of the last parameters, as many as there are default values.
unfoldable pub write_defaults : List MethodParam → W
unfolding num_optional write_some
write_defaults params =
    if ltb 0 (num_optional params)
    then write_u30 (as_u32 (num_optional params))
      >> write_each (λ param. write_some write_constant_value param.default_value)
          (drop (length params - num_optional params) params)
    else write_all []

unfoldable pub write_names : List MethodParam → W
unfolding has_param_names write_some
write_names params =
    if has_param_names params
    then write_each (λ param. write_some write_index param.name) params
    else write_all []

unfoldable pub write_method : Method → W
unfolding method_flags write_defaults write_names
write_method method =
    write_u8 (length method.params % 256)
    >> (write_index method.return_type
        >> (write_each (λ param. write_index param.kind) method.params
            >> (write_index method.name
                >> (write_u8 (method_flags method)
                    >> (write_defaults method.params >> write_names method.params)))))

unfoldable pub write_metadata_item : MetadataItem → W
write_metadata_item item = write_index item.key >> write_index item.value

unfoldable pub write_metadata : Metadata → W
unfolding write_list write_metadata_item
write_metadata metadata = write_index metadata.name >> write_list write_metadata_item metadata.items

-- The flags of a trait, without its kind.
unfoldable pub trait_flags : Trait → ℕ
trait_flags t =
    bit_or (if is_empty t.metadata then 0 else 0b0100_0000)
      (bit_or (flag t.is_override 0b0010_0000) (flag t.is_final 0b0001_0000))

unfoldable pub write_trait_kind : ℕ → TraitKind → W
write_trait_kind flags (TraitKind.slot slot_id type_name value) =
    write_u8 flags >> (write_u30 slot_id >> (write_index type_name >> write_optional_value value))
write_trait_kind flags (TraitKind.method disp_id method) =
    write_u8 (bit_or flags 1) >> (write_u30 disp_id >> write_index method)
write_trait_kind flags (TraitKind.getter disp_id method) =
    write_u8 (bit_or flags 2) >> (write_u30 disp_id >> write_index method)
write_trait_kind flags (TraitKind.setter disp_id method) =
    write_u8 (bit_or flags 3) >> (write_u30 disp_id >> write_index method)
write_trait_kind flags (TraitKind.class slot_id class) =
    write_u8 (bit_or flags 4) >> (write_u30 slot_id >> write_index class)
write_trait_kind flags (TraitKind.function slot_id function) =
    write_u8 (bit_or flags 5) >> (write_u30 slot_id >> write_index function)
write_trait_kind flags (TraitKind.const slot_id type_name value) =
    write_u8 (bit_or flags 6)
    >> (write_u30 slot_id >> (write_index type_name >> write_optional_value value))

unfoldable pub write_trait_metadata : List Index → W
unfolding write_list
write_trait_metadata [] = write_all []
write_trait_metadata (x ∷ xs) = write_list write_index (x ∷ xs)

unfoldable pub write_trait : Trait → W
unfolding trait_flags write_trait_kind write_trait_metadata
write_trait t =
    write_index t.name
    >> (write_trait_kind (trait_flags t) t.kind >> write_trait_metadata t.metadata)

unfoldable pub instance_flags : Instance → ℕ
instance_flags i =
    bit_or (flag (is_some i.protected_namespace) 0x08)
      (bit_or (flag i.is_interface 0x04) (bit_or (flag i.is_final 0x02) (flag i.is_sealed 0x01)))

unfoldable pub write_instance : Instance → W
unfolding instance_flags write_some write_list
write_instance i =
    write_index i.name
    >> (write_index i.super_name
        >> (write_u8 (instance_flags i)
            >> (write_some write_index i.protected_namespace
                >> (write_list write_index i.interfaces
                    >> (write_index i.init_method >> write_list write_trait i.traits)))))

unfoldable pub write_class : Class → W
unfolding write_list
write_class class = write_index class.init_method >> write_list write_trait class.traits

unfoldable pub write_script : Script → W
unfolding write_list
write_script script = write_index script.init_method >> write_list write_trait script.traits

unfoldable pub write_exception : Exception → W
write_exception e =
    write_u30 e.from_offset
    >> (write_u30 e.to_offset
        >> (write_u30 e.target_offset >> (write_index e.type_name >> write_index e.variable_name)))

unfoldable pub write_method_body : MethodBody → W
unfolding write_list
write_method_body body =
    write_index body.method
    >> (write_u30 body.max_stack
        >> (write_u30 body.num_locals
            >> (write_u30 body.init_scope_depth
                >> (write_u30 body.max_scope_depth
                    >> ((write_u30 (as_u32 (length body.code)) >> write_all body.code)
                        >> (write_list write_exception body.exceptions
                            >> write_list write_trait body.traits))))))

unfoldable pub write : ⦃bo : ByteOrder⦄ → AbcFile → W
unfolding write_list
write file =
    write_u16 file.minor_version
    >> (write_u16 file.major_version
        >> (write_constant_pool file.constant_pool
            >> (write_list write_method file.methods
                >> (write_list write_metadata file.metadata
                    >> (write_list write_instance file.instances
                        >> (write_each write_class file.classes
                            >> (write_list write_script file.scripts
                                >> write_list write_method_body file.method_bodies)))))))
