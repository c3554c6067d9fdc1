-- ===== src/Swf/Avm2/Types.antt =====
-- The parts of an ABC file (swf/src/avm2/types.rs). An index is its number: the type parameter, which
-- says what table it points into, is a phantom. `Package` is `package_ns`, as `package` is taken. An f64 is its bit pattern, a string its UTF-8 bytes.
use ruffle.Prelude.{ℕ, ℤ, Bool, List, Option}

abbrev pub Str : Type 0
Str = List ℕ

-- `Index<T>(u32)`
abbrev pub Index : Type 0
Index = ℕ

pub data Namespace : Type 0 where
  namespace package_ns package_internal protected explicit static_protected private :
      Index → Namespace

abbrev pub NamespaceSet : Type 0
NamespaceSet = List Index

pub data Multiname : Type 0 where
  q_name q_name_a : (namespace name : Index) → Multiname
  rtq_name rtq_name_a : (name : Index) → Multiname
  rtq_name_l rtq_name_la : Multiname
  multiname multiname_a : (namespace_set name : Index) → Multiname
  multiname_l multiname_la : (namespace_set : Index) → Multiname

pub record ConstantPool : Type 0 where
  pub ints : List ℤ
  pub uints : List ℕ
  pub doubles : List ℕ
  pub strings : List Str
  pub namespaces : List Namespace
  pub namespace_sets : List NamespaceSet
  pub multinames : List Multiname

pub data DefaultValue : Type 0 where
  int uint double string : Index → DefaultValue
  true false null undefined : DefaultValue
  namespace package_ns package_internal protected explicit static_protected private :
      Index → DefaultValue

pub record MethodParam : Type 0 where
  pub name : Option Index
  pub kind : Index
  pub default_value : Option DefaultValue

pub record Method : Type 0 where
  pub name : Index
  pub params : List MethodParam
  pub return_type : Index
  pub needs_arguments_object : Bool
  pub needs_activation : Bool
  pub needs_rest : Bool
  pub needs_dxns : Bool

pub record MetadataItem : Type 0 where
  pub key : Index
  pub value : Index

pub record Metadata : Type 0 where
  pub name : Index
  pub items : List MetadataItem

pub data TraitKind : Type 0 where
  slot const : (slot_id : ℕ) (type_name : Index) (value : Option DefaultValue) → TraitKind
  method getter setter : (disp_id : ℕ) (method : Index) → TraitKind
  class : (slot_id : ℕ) (class : Index) → TraitKind
  function : (slot_id : ℕ) (function : Index) → TraitKind

pub record Trait : Type 0 where
  pub name : Index
  pub kind : TraitKind
  pub metadata : List Index
  pub is_final : Bool
  pub is_override : Bool

pub record Instance : Type 0 where
  pub name : Index
  pub super_name : Index
  pub is_sealed : Bool
  pub is_final : Bool
  pub is_interface : Bool
  pub protected_namespace : Option Index
  pub interfaces : List Index
  pub init_method : Index
  pub traits : List Trait

pub record Class : Type 0 where
  pub init_method : Index
  pub traits : List Trait

pub record Script : Type 0 where
  pub init_method : Index
  pub traits : List Trait

pub record Exception : Type 0 where
  pub from_offset : ℕ
  pub to_offset : ℕ
  pub target_offset : ℕ
  pub variable_name : Index
  pub type_name : Index

pub record MethodBody : Type 0 where
  pub method : Index
  pub max_stack : ℕ
  pub num_locals : ℕ
  pub init_scope_depth : ℕ
  pub max_scope_depth : ℕ
  pub code : List ℕ
  pub exceptions : List Exception
  pub traits : List Trait

pub record AbcFile : Type 0 where
  pub major_version : ℕ
  pub minor_version : ℕ
  pub constant_pool : ConstantPool
  pub methods : List Method
  pub metadata : List Metadata
  pub instances : List Instance
  pub classes : List Class
  pub scripts : List Script
  pub method_bodies : List MethodBody
