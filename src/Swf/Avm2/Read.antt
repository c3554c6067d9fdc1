-- ===== src/Swf/Avm2/Read.antt =====
-- The ABC reader (swf/src/avm2/read.rs), but for its instructions.
use ruffle.Prelude.{
  ℕ, zero, suc, ◌-◌, ◌==◌, ltb, if◌then◌else◌, List, [], ◌∷◌, Option, some, none, has_flag, bit_and,
}
use ruffle.Swf.Error.{invalid_data}
use ruffle.Swf.ByteOrder.{ByteOrder}
use ruffle.Swf.Read.{M, pure, fail, panic, ◌>>=◌, read_u8, read_many, read_u16, read_f64}
use ruffle.Swf.Avm2.Types.{
  Index, Namespace, NamespaceSet, Multiname, ConstantPool, DefaultValue, MethodParam, Method,
  MetadataItem, Metadata, TraitKind, Trait, Instance, Class, Script, Exception, MethodBody, AbcFile,
}
use ruffle.Swf.Avm2.Primitives.{read_u30, read_u32, read_i32, read_index, read_up_to, read_string}

-- The match on the kind of a namespace.
unfoldable pub namespace_of : ℕ → Index → M Namespace
namespace_of kind name =
    if kind == 0x05
    then pure (Namespace.private name)
    else if kind == 0x08
    then pure (Namespace.namespace name)
    else if kind == 0x16
    then pure (Namespace.package_ns name)
    else if kind == 0x17
    then pure (Namespace.package_internal name)
    else if kind == 0x18
    then pure (Namespace.protected name)
    else if kind == 0x19
    then pure (Namespace.explicit name)
    else if kind == 0x1a
    then pure (Namespace.static_protected name)
    else fail (invalid_data "Invalid namespace kind")

unfoldable pub read_namespace : M Namespace
unfolding namespace_of
read_namespace = do kind ← read_u8; name ← read_index; namespace_of kind name

unfoldable pub read_namespace_set : M NamespaceSet
read_namespace_set = do len ← read_u30; read_many len read_index

-- The match on the kind of a multiname.
unfoldable pub multiname_of : ℕ → M Multiname
multiname_of kind =
    if kind == 0x07
    then (do namespace ← read_index; name ← read_index; pure (Multiname.q_name namespace name))
    else if kind == 0x0d
    then (do namespace ← read_index; name ← read_index; pure (Multiname.q_name_a namespace name))
    else if kind == 0x0f
    then (read_index >>= λ name. pure (Multiname.rtq_name name))
    else if kind == 0x10
    then (read_index >>= λ name. pure (Multiname.rtq_name_a name))
    else if kind == 0x11
    then pure Multiname.rtq_name_l
    else if kind == 0x12
    then pure Multiname.rtq_name_la
    else if kind == 0x09
    then (do
      name ← read_index
      namespace_set ← read_index
      pure (Multiname.multiname namespace_set name))
    else if kind == 0x0e
    then (do
      name ← read_index
      namespace_set ← read_index
      pure (Multiname.multiname_a namespace_set name))
    else if kind == 0x1b
    then (read_index >>= λ namespace_set. pure (Multiname.multiname_l namespace_set))
    else if kind == 0x1c
    then (read_index >>= λ namespace_set. pure (Multiname.multiname_la namespace_set))
    else fail (invalid_data "Invalid multiname kind")

unfoldable pub read_multiname : M Multiname
unfolding multiname_of
read_multiname = do kind ← read_u8; multiname_of kind

-- A table of the constant pool: its length counts the entry 0, which is not there.
unfoldable pub read_pool : {A : Type 0} → M A → M (List A)
read_pool read = do len ← read_u30; if ltb 0 len then read_many (len - 1) read else pure []

unfoldable pub read_constant_pool : ⦃bo : ByteOrder⦄ → M ConstantPool
unfolding read_pool
read_constant_pool = do
  ints ← read_pool read_i32
  uints ← read_pool read_u32
  doubles ← read_pool read_f64
  strings ← read_pool read_string
  namespaces ← read_pool read_namespace
  namespace_sets ← read_pool read_namespace_set
  multinames ← read_pool read_multiname
  pure (record {
    ints = ints;
    uints = uints;
    doubles = doubles;
    strings = strings;
    namespaces = namespaces;
    namespace_sets = namespace_sets;
    multinames = multinames;
  })

-- The match on the kind of a constant value.
unfoldable pub default_value_of : Index → ℕ → M DefaultValue
default_value_of index kind =
    if kind == 0x00
    then pure DefaultValue.undefined
    else if kind == 0x01
    then pure (DefaultValue.string index)
    else if kind == 0x03
    then pure (DefaultValue.int index)
    else if kind == 0x04
    then pure (DefaultValue.uint index)
    else if kind == 0x05
    then pure (DefaultValue.private index)
    else if kind == 0x06
    then pure (DefaultValue.double index)
    else if kind == 0x08
    then pure (DefaultValue.namespace index)
    else if kind == 0x0a
    then pure DefaultValue.false
    else if kind == 0x0b
    then pure DefaultValue.true
    else if kind == 0x0c
    then pure DefaultValue.null
    else if kind == 0x16
    then pure (DefaultValue.package_ns index)
    else if kind == 0x17
    then pure (DefaultValue.package_internal index)
    else if kind == 0x18
    then pure (DefaultValue.protected index)
    else if kind == 0x19
    then pure (DefaultValue.explicit index)
    else if kind == 0x1a
    then pure (DefaultValue.static_protected index)
    else fail (invalid_data "Invalid default value")

unfoldable pub read_constant_value : M DefaultValue
unfolding default_value_of
read_constant_value = do index ← read_u30; kind ← read_u8; default_value_of index kind

-- An index of zero says that there is no value.
unfoldable pub optional_value_of : Index → M (Option DefaultValue)
unfolding default_value_of
optional_value_of index =
    if index == 0
    then pure none
    else do kind ← read_u8; value ← default_value_of index kind; pure (some value)

unfoldable pub read_optional_value : M (Option DefaultValue)
unfolding optional_value_of
read_optional_value = do index ← read_u30; optional_value_of index

unfoldable pub read_metadata_item : M MetadataItem
read_metadata_item = do
  key ← read_index
  value ← read_index
  pure (record { key = key; value = value })

unfoldable pub read_metadata : M Metadata
unfolding read_metadata_item
read_metadata = do
  name ← read_index
  num_items ← read_u30
  items ← read_many num_items read_metadata_item
  pure (record { name = name; items = items })

unfoldable pub read_method_param : M MethodParam
read_method_param =
    read_index >>= λ kind. pure (record { name = none; kind = kind; default_value = none })

-- `for i in 0..count { params[i].default_value = Some(..); }`: the parameters in front get the
-- values, and one that is not there is a panic, once its value is read.
unfoldable pub read_defaults : ℕ → List MethodParam → M (List MethodParam)
read_defaults zero params = pure params
read_defaults (suc count) [] = do value ← read_constant_value; panic
read_defaults (suc count) (param ∷ params) = do
  value ← read_constant_value
  rest ← read_defaults count params
  pure (record param { default_value = some value } ∷ rest)

-- `for i in 0..num_params { params[i].name = Some(..); }`
unfoldable pub read_names : List MethodParam → M (List MethodParam)
read_names [] = pure []
read_names (param ∷ params) = do
  name ← read_index
  rest ← read_names params
  pure (record param { name = some name } ∷ rest)

unfoldable pub read_method_defaults : ℕ → List MethodParam → M (List MethodParam)
unfolding read_defaults
read_method_defaults flags params =
    if has_flag flags 0x08 then (do count ← read_u30; read_defaults count params) else pure params

unfoldable pub read_method_names : ℕ → List MethodParam → M (List MethodParam)
unfolding read_names
read_method_names flags params = if has_flag flags 0x80 then read_names params else pure params

unfoldable pub read_method : M Method
unfolding read_method_param read_method_defaults read_method_names
read_method = do
  num_params ← read_u8
  return_type ← read_index
  params ← read_many num_params read_method_param
  name ← read_index
  flags ← read_u8
  with_defaults ← read_method_defaults flags params
  with_names ← read_method_names flags with_defaults
  pure (record {
    name = name;
    params = with_names;
    return_type = return_type;
    needs_arguments_object = has_flag flags 0x01;
    needs_activation = has_flag flags 0x02;
    needs_rest = has_flag flags 0x04;
    needs_dxns = has_flag flags 0x40;
  })

-- The match on the kind of a trait.
unfoldable pub trait_kind_of : ℕ → M TraitKind
trait_kind_of kind =
    if kind == 0
    then (do
      slot_id ← read_u30
      type_name ← read_index
      value ← read_optional_value
      pure (TraitKind.slot slot_id type_name value))
    else if kind == 1
    then (do disp_id ← read_u30; method ← read_index; pure (TraitKind.method disp_id method))
    else if kind == 2
    then (do disp_id ← read_u30; method ← read_index; pure (TraitKind.getter disp_id method))
    else if kind == 3
    then (do disp_id ← read_u30; method ← read_index; pure (TraitKind.setter disp_id method))
    else if kind == 4
    then (do slot_id ← read_u30; class ← read_index; pure (TraitKind.class slot_id class))
    else if kind == 5
    then (do slot_id ← read_u30; function ← read_index; pure (TraitKind.function slot_id function))
    else if kind == 6
    then (do
      slot_id ← read_u30
      type_name ← read_index
      value ← read_optional_value
      pure (TraitKind.const slot_id type_name value))
    else fail (invalid_data "Invalid trait kind")

unfoldable pub read_trait_metadata : ℕ → M (List Index)
read_trait_metadata flags =
    if has_flag flags 0b0100_0000
    then (do count ← read_u30; read_many count read_index)
    else pure []

unfoldable pub read_trait : M Trait
unfolding trait_kind_of read_trait_metadata
read_trait = do
  name ← read_index
  flags ← read_u8
  kind ← trait_kind_of (bit_and flags 0b1111)
  metadata ← read_trait_metadata flags
  pure (record {
    name = name;
    kind = kind;
    metadata = metadata;
    is_final = has_flag flags 0b0001_0000;
    is_override = has_flag flags 0b0010_0000;
  })

unfoldable pub read_traits : M (List Trait)
read_traits = do num_traits ← read_u30; read_many num_traits read_trait

unfoldable pub read_protected_namespace : ℕ → M (Option Index)
read_protected_namespace flags =
    if has_flag flags 0x08 then (read_index >>= λ namespace. pure (some namespace)) else pure none

unfoldable pub read_instance : M Instance
unfolding read_protected_namespace read_traits
read_instance = do
  name ← read_index
  super_name ← read_index
  flags ← read_u8
  protected_namespace ← read_protected_namespace flags
  num_interfaces ← read_u30
  interfaces ← read_many num_interfaces read_index
  init_method ← read_index
  traits ← read_traits
  pure (record {
    name = name;
    super_name = super_name;
    is_sealed = has_flag flags 0x01;
    is_final = has_flag flags 0x02;
    is_interface = has_flag flags 0x04;
    protected_namespace = protected_namespace;
    interfaces = interfaces;
    init_method = init_method;
    traits = traits;
  })

unfoldable pub read_class : M Class
unfolding read_traits
read_class = do
  init_method ← read_index
  traits ← read_traits
  pure (record { init_method = init_method; traits = traits })

unfoldable pub read_script : M Script
unfolding read_traits
read_script = do
  init_method ← read_index
  traits ← read_traits
  pure (record { init_method = init_method; traits = traits })

unfoldable pub read_exception : M Exception
read_exception = do
  from_offset ← read_u30
  to_offset ← read_u30
  target_offset ← read_u30
  type_name ← read_index
  variable_name ← read_index
  pure (record {
    from_offset = from_offset;
    to_offset = to_offset;
    target_offset = target_offset;
    variable_name = variable_name;
    type_name = type_name;
  })

unfoldable pub read_method_body : M MethodBody
unfolding read_exception read_traits
read_method_body = do
  method ← read_index
  max_stack ← read_u30
  num_locals ← read_u30
  init_scope_depth ← read_u30
  max_scope_depth ← read_u30
  code_len ← read_u30
  code ← read_up_to code_len
  num_exceptions ← read_u30
  exceptions ← read_many num_exceptions read_exception
  traits ← read_traits
  pure (record {
    method = method;
    max_stack = max_stack;
    num_locals = num_locals;
    init_scope_depth = init_scope_depth;
    max_scope_depth = max_scope_depth;
    code = code;
    exceptions = exceptions;
    traits = traits;
  })

-- `read`: there are as many classes as instances.
unfoldable pub read : ⦃bo : ByteOrder⦄ → M AbcFile
unfolding read_constant_pool read_method read_metadata read_instance read_class read_script
    read_method_body
read = do
  minor_version ← read_u16
  major_version ← read_u16
  constant_pool ← read_constant_pool
  num_methods ← read_u30
  methods ← read_many num_methods read_method
  num_metadata ← read_u30
  metadata ← read_many num_metadata read_metadata
  num_instances ← read_u30
  instances ← read_many num_instances read_instance
  classes ← read_many num_instances read_class
  num_scripts ← read_u30
  scripts ← read_many num_scripts read_script
  num_bodies ← read_u30
  method_bodies ← read_many num_bodies read_method_body
  pure (record {
    major_version = major_version;
    minor_version = minor_version;
    constant_pool = constant_pool;
    methods = methods;
    metadata = metadata;
    instances = instances;
    classes = classes;
    scripts = scripts;
    method_bodies = method_bodies;
  })
