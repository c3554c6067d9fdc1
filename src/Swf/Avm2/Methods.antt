-- ===== src/Swf/Avm2/Methods.antt =====
-- Methods and their bodies read back (swf/src/avm2/read.rs, swf/src/avm2/write.rs).
use ruffle.Prelude.{◌<◌, ◌≡◌, none, All, length, inl, inr, ◌⊎◌}
use native.Mathlib.Nat.{mod-eq_of_lt}
use ruffle.Swf.Avm2.Types.{Method, Exception, MethodBody}
use ruffle.Swf.Avm2.Reads.{Reads, Reads-bind, Reads-map, Reads-u8, Reads-result}
use ruffle.Swf.Avm2.Varint.{read_u30-write_u30, Reads-index}
use ruffle.Swf.Avm2.Pool.{IsU32, All-imp, Reads-list_then, Reads-bytes_then}
use ruffle.Swf.Avm2.Params.{defaults, moved, IsOptionalLast, IsNamedAlike, HasDefault, Reads-kinds}
use ruffle.Swf.Avm2.Params.Defaults.{
  moved-defaults-HasDefault, moved-defaults_none, Reads-method_defaults,
}
use ruffle.Swf.Avm2.Params.Names.{Reads-method_names}
use ruffle.Swf.Avm2.Traits.{IsEncodableTraits, Reads-traits}
use ruffle.Swf.Avm2.Flags.{method_flags_lem}
use ruffle.Swf.Avm2.Read.{read_method, read_exception, read_method_body}
use ruffle.Swf.Avm2.Write.{method_flags, write_method, write_exception, write_method_body}

abbrev pub IsEncodableException : Exception → Type 0
IsEncodableException e =
    IsU32 e.from_offset
    × IsU32 e.to_offset
    × IsU32 e.target_offset
    × IsU32 e.variable_name
    × IsU32 e.type_name

Reads-exception :
    (e : Exception) → IsEncodableException e → Reads read_exception (write_exception e) e
unfolding read_exception write_exception
Reads-exception e (from_offset, to_offset, target_offset, variable_name, type_name) =
    Reads-bind _ (read_u30-write_u30 e.from_offset from_offset) (
      Reads-bind _ (read_u30-write_u30 e.to_offset to_offset) (
        Reads-bind _ (read_u30-write_u30 e.target_offset target_offset) (
          Reads-bind _ (Reads-index e.type_name type_name)
            (Reads-map _ (Reads-index e.variable_name variable_name)))))

abbrev pub IsEncodableBody : MethodBody → Type 0
IsEncodableBody b =
    IsU32 b.method
    × IsU32 b.max_stack
    × IsU32 b.num_locals
    × IsU32 b.init_scope_depth
    × IsU32 b.max_scope_depth
    × IsU32 (length b.code)
    × IsU32 (length b.exceptions)
    × All IsEncodableException b.exceptions
    × IsEncodableTraits b.traits

pub Reads-method_body :
    (b : MethodBody) → IsEncodableBody b → Reads read_method_body (write_method_body b) b
unfolding read_method_body write_method_body
Reads-method_body b (method, stack, locals, init, max, code, fits, exceptions, traits) =
    Reads-bind _ (Reads-index b.method method) (
      Reads-bind _ (read_u30-write_u30 b.max_stack stack) (
        Reads-bind _ (read_u30-write_u30 b.num_locals locals) (
          Reads-bind _ (read_u30-write_u30 b.init_scope_depth init) (
            Reads-bind _ (read_u30-write_u30 b.max_scope_depth max) (
              Reads-bytes_then b.code _ code (
                Reads-list_then read_exception write_exception b.exceptions _ fits
                  (All-imp _ _ b.exceptions Reads-exception exceptions)
                  (Reads-map _ (Reads-traits b.traits traits))))))))

-- What a method has to fulfil to be read at all: its numbers fit, its parameters with a default value
-- are the last ones, and all of them have a name or none has.
abbrev pub IsReadable : Method → Type 0
IsReadable m =
    IsU32 m.name
    × IsU32 m.return_type
    × (length m.params < 256)
    × All (λ param. IsU32 param.kind) m.params
    × IsOptionalLast m.params
    × IsNamedAlike m.params

-- What is read of a method: the default values stand at its first parameters.
unfoldable pub as_read : Method → Method
unfolding defaults moved
as_read m = record m { params = moved (defaults m.params) m.params }

pub Reads-method : (m : Method) → IsReadable m → Reads read_method (write_method m) (as_read m)
unfolding read_method write_method as_read
Reads-method m (name, return_type, small, kinds, optional_last, named) =
    let (has_names, dxns, has_defaults, rest, activation, arguments_object) = method_flags_lem m in
    Reads-result
      (rw (mod-eq_of_lt small) (
        Reads-bind _ (Reads-u8 (length m.params)) (
          Reads-bind _ (Reads-index m.return_type return_type) (
            Reads-bind _ (Reads-kinds m.params kinds) (
              Reads-bind _ (Reads-index m.name name) (
                Reads-bind _ (Reads-u8 (method_flags m)) (
                  Reads-bind _
                    (Reads-method_defaults (method_flags m) m.params small optional_last
                      has_defaults)
                    (Reads-map _ (
                      Reads-method_names (method_flags m) (defaults m.params) m.params named
                        has_names)))))))))
      (λ k. record m {
        params = moved (defaults m.params) m.params;
        needs_arguments_object = arguments_object k;
        needs_activation = activation k;
        needs_rest = rest k;
        needs_dxns = dxns k;
      })

-- The default values stand at all of the parameters or at none.
abbrev HasAlikeDefaults : Method → Type 0
HasAlikeDefaults m = All HasDefault m.params ⊎ All (λ param. param.default_value ≡ none) m.params

-- A method that is read back as it is.
abbrev pub IsEncodableMethod : Method → Type 0
IsEncodableMethod m = IsReadable m × HasAlikeDefaults m

as_read-id : (m : Method) → HasAlikeDefaults m → as_read m ≡ m
unfolding as_read
as_read-id m (inl h) = λ i. record m { params = moved-defaults-HasDefault m.params h i }
as_read-id m (inr h) = λ i. record m { params = moved-defaults_none m.params h i }

pub Reads-same_method : (m : Method) → IsEncodableMethod m → Reads read_method (write_method m) m
Reads-same_method m (h, k) = Reads-result (Reads-method m h) (as_read-id m k)
