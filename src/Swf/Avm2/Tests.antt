-- ===== src/Swf/Avm2/Tests.antt =====
-- The AVM2 codec at concrete inputs.
use ruffle.Prelude.{
  ℕ, ◌≡◌, refl, List, [], ◌∷◌, some, none, arith, true, false, pos, negsuc, length, inl, inr, All,
}
use ruffle.Swf.Error.{ok, panics}
use ruffle.Swf.LittleEndian.{little_endian}
use ruffle.Swf.Read.{read_many, advance}
use ruffle.Swf.Write.{write_each}
use ruffle.Swf.Decodes.{reader_at}
use ruffle.Swf.Utf8.{is_utf8}
use ruffle.Swf.Avm2.Types.{
  AbcFile, ConstantPool, Namespace, Multiname, DefaultValue, Method, TraitKind, Trait,
}
use ruffle.Swf.Avm2.Op.{Op}
use ruffle.Swf.Avm2.Primitives.{
  read_u30, write_u30, read_i24, write_i24, read_i32, write_i32, byte_of,
}
use ruffle.Swf.Avm2.ReadOp.{read_op}
use ruffle.Swf.Avm2.WriteOp.{write_op}
use ruffle.Swf.Avm2.Read.{read, read_method, read_optional_value}
use ruffle.Swf.Avm2.Write.{write, write_method, write_optional_value, index_of, kind_of}
use ruffle.Swf.Avm2.Operands.{reversed}
use ruffle.Swf.Avm2.Pool.Entries.{IsEncodableConstantPool}
use ruffle.Swf.Avm2.Traits.{IsEncodableTrait}
use ruffle.Swf.Avm2.Methods.{as_read, IsEncodableMethod, IsReadable}
use ruffle.Swf.Avm2.Params.{defaults, moved, HasDefault}
use ruffle.Swf.Avm2.RoundTrip.{
  read-write, read_op-write_op, read_ops-write_ops, read_u30-write_u30_at, read_i32-write_i32,
  IsEncodableFile,
}
use ruffle.Swf.Avm2.Faults.{
  read_i24-write_i24, read_i32-write_i32_small, read_i32-write_i32_large,
  read_optional_value-write_optional_value_zero, read_method-write_method,
}

abbrev initializer : Method
initializer = record {
  name = 1;
  params = record { name = none; kind = 2; default_value = some (DefaultValue.int 1) } ∷ [];
  return_type = 0;
  needs_arguments_object = false;
  needs_activation = true;
  needs_rest = false;
  needs_dxns = false;
}

abbrev slot : Trait
slot = record {
  name = 1;
  kind = TraitKind.slot 1 0 (some (DefaultValue.string 1));
  metadata = [];
  is_final = true;
  is_override = false;
}

abbrev pool : ConstantPool
pool = record {
  ints = pos 300 ∷ negsuc 4 ∷ [];
  uints = [];
  doubles = 1 ∷ [];
  strings = (b'a' ∷ b'b' ∷ []) ∷ [];
  namespaces = Namespace.package_ns 1 ∷ [];
  namespace_sets = (1 ∷ []) ∷ [];
  multinames = Multiname.q_name 1 1 ∷ [];
}

abbrev file : AbcFile
file = record {
  major_version = 46;
  minor_version = 16;
  constant_pool = pool;
  methods = initializer ∷ [];
  metadata = [];
  instances =
      record {
        name = 1;
        super_name = 0;
        is_sealed = true;
        is_final = false;
        is_interface = false;
        protected_namespace = some 1;
        interfaces = [];
        init_method = 0;
        traits = slot ∷ [];
      }
      ∷ [];
  classes = record { init_method = 0; traits = [] } ∷ [];
  scripts = record { init_method = 0; traits = [] } ∷ [];
  method_bodies =
      record {
        method = 0;
        max_stack = 1;
        num_locals = 1;
        init_scope_depth = 0;
        max_scope_depth = 1;
        code = 0xd0 ∷ 0x30 ∷ 0x47 ∷ [];
        exceptions = [];
        traits = [];
      }
      ∷ [];
}

initializer-IsEncodableMethod : IsEncodableMethod initializer
unfolding index_of
initializer-IsEncodableMethod =
    let has_default : All HasDefault initializer.params =
      ((DefaultValue.int 1, refl, omega arith), tt) in
    (
      (omega arith, omega arith, omega arith, (omega arith, tt), inr has_default, inr (refl, tt)),
      inl has_default,
    )

pool-IsEncodableConstantPool : IsEncodableConstantPool pool
unfolding is_utf8
pool-IsEncodableConstantPool = (
  (omega arith, (inr (omega arith, inl (omega arith)), (inl (omega arith), tt))),
  (omega arith, tt),
  (omega arith, (omega arith, tt)),
  (omega arith, ((omega arith, refl), tt)),
  (omega arith, (omega arith, tt)),
  (omega arith, ((omega arith, (omega arith, tt)), tt)),
  (omega arith, ((omega arith, omega arith), tt)),
)

slot-IsEncodableTrait : IsEncodableTrait slot
unfolding index_of
slot-IsEncodableTrait =
    (omega arith, (omega arith, omega arith, (omega arith, λ e. omega (arith, e))), omega arith, tt)

file-IsEncodableFile : IsEncodableFile file
file-IsEncodableFile = (
  omega arith,
  omega arith,
  pool-IsEncodableConstantPool,
  (omega arith, (initializer-IsEncodableMethod, tt)),
  (omega arith, tt),
  (
    omega arith,
    (
      (
        omega arith,
        omega arith,
        omega arith,
        omega arith,
        tt,
        omega arith,
        (omega arith, (slot-IsEncodableTrait, tt)),
      ),
      tt,
    ),
  ),
  refl,
  ((omega arith, (omega arith, tt)), tt),
  (omega arith, ((omega arith, (omega arith, tt)), tt)),
  (
    omega arith,
    (
      (
        omega arith,
        omega arith,
        omega arith,
        omega arith,
        omega arith,
        omega arith,
        omega arith,
        tt,
        (omega arith, tt),
      ),
      tt,
    ),
  ),
)

read-write_example :
    (bytes : List ℕ) × (write file ≡ some bytes)
    × (read (reader_at [] bytes (7 ∷ []))
        ≡ (ok file, advance (length bytes) (reader_at [] bytes (7 ∷ []))))
read-write_example = read-write file [] (7 ∷ []) file-IsEncodableFile

read_op-write_op_example :
    (bytes : List ℕ) × (write_op (Op.call_property 3 1000) ≡ some bytes)
    × (read_op (reader_at [] bytes [])
        ≡ (ok (some (Op.call_property 3 1000)), advance (length bytes) (reader_at [] bytes [])))
read_op-write_op_example =
    read_op-write_op (Op.call_property 3 1000) [] [] (omega arith, omega arith)

-- A branch whose offset is its own reverse.
read_ops-write_ops_example :
    (bytes : List ℕ) × (write_each write_op (Op.get_local 2 ∷ Op.if_true (pos 0x10201) ∷ [])
      ≡ some bytes)
    × (read_many 2 read_op (reader_at [] bytes []) ≡ (
      ok (some (Op.get_local 2) ∷ some (Op.if_true (pos 0x10201)) ∷ []),
      advance (length bytes) (reader_at [] bytes []),
    ))
read_ops-write_ops_example =
    read_ops-write_ops (Op.get_local 2 ∷ Op.if_true (pos 0x10201) ∷ []) [] []
      (omega arith, ((omega arith, omega arith), tt))

read_u30-write_u30_at_example :
    (bytes : List ℕ) × (write_u30 300000000 ≡ some bytes)
    × (read_u30 (reader_at (1 ∷ []) bytes (2 ∷ []))
        ≡ (ok 300000000, advance (length bytes) (reader_at (1 ∷ []) bytes (2 ∷ []))))
read_u30-write_u30_at_example = read_u30-write_u30_at 300000000 (1 ∷ []) (2 ∷ []) (omega arith)

read_i32-write_i32_example :
    (bytes : List ℕ) × (write_i32 (negsuc 4999) ≡ some bytes)
    × (read_i32 (reader_at [] bytes [])
        ≡ (ok (negsuc 4999), advance (length bytes) (reader_at [] bytes [])))
read_i32-write_i32_example =
    read_i32-write_i32 (negsuc 4999) [] [] (inr (omega arith, inl (omega arith)))

read_i24-write_i24_example :
    (bytes : List ℕ) × (write_i24 (pos 8) ≡ some bytes)
    × (read_i24 (reader_at [] bytes [])
        ≡ (ok (pos (reversed (pos 8))), advance (length bytes) (reader_at [] bytes [])))
read_i24-write_i24_example = read_i24-write_i24 (pos 8) [] []

reversed_8 : reversed (pos 8) ≡ 0x80000
unfolding byte_of
reversed_8 = refl

read_i32-write_i32_small_example :
    (bytes : List ℕ) × (write_i32 (pos 100) ≡ some bytes)
    × (read_i32 (reader_at [] bytes [])
        ≡ (ok (negsuc 27), advance (length bytes) (reader_at [] bytes [])))
read_i32-write_i32_small_example = read_i32-write_i32_small 100 [] [] (omega arith) (omega arith)

read_i32-write_i32_large_example :
    (bytes : List ℕ) × (write_i32 (negsuc 1000000000) ≡ some bytes)
    × (length bytes ≡ 5)
    × (read_i32 (reader_at [] bytes []) ≡ (panics, advance 5 (reader_at [] bytes [])))
read_i32-write_i32_large_example =
    read_i32-write_i32_large (negsuc 1000000000) [] [] (omega arith, omega arith)

read_optional_value-write_optional_value_zero_example :
    (write_optional_value (some DefaultValue.true) ≡ some (0 ∷ kind_of DefaultValue.true ∷ []))
    × (read_optional_value (reader_at [] (0 ∷ kind_of DefaultValue.true ∷ []) [])
        ≡ (ok none, advance 1 (reader_at [] (0 ∷ kind_of DefaultValue.true ∷ []) [])))
read_optional_value-write_optional_value_zero_example =
    read_optional_value-write_optional_value_zero DefaultValue.true [] [] (unfold index_of in refl)

-- Two parameters, of which the second has a default value.
abbrev concat : Method
concat = record {
  name = 1;
  params =
      record { name = none; kind = 2; default_value = none }
      ∷ record { name = none; kind = 3; default_value = some (DefaultValue.string 1) }
      ∷ [];
  return_type = 0;
  needs_arguments_object = false;
  needs_activation = false;
  needs_rest = true;
  needs_dxns = false;
}

concat-IsReadable : IsReadable concat
unfolding index_of
concat-IsReadable = (
  omega arith,
  omega arith,
  omega arith,
  (omega arith, (omega arith, tt)),
  inl (refl, inr ((DefaultValue.string 1, refl, omega arith), tt)),
  inr (refl, (refl, tt)),
)

-- The first parameter has it afterwards.
as_read-concat :
    (as_read concat).params
    ≡ record { name = none; kind = 2; default_value = some (DefaultValue.string 1) }
      ∷ record { name = none; kind = 3; default_value = none }
      ∷ []
unfolding as_read defaults moved
as_read-concat = refl

read_method-write_method_example :
    (bytes : List ℕ) × (write_method concat ≡ some bytes)
    × (read_method (reader_at [] bytes [])
        ≡ (ok (as_read concat), advance (length bytes) (reader_at [] bytes [])))
read_method-write_method_example = read_method-write_method concat [] [] concat-IsReadable
