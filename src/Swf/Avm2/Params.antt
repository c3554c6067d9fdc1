-- ===== src/Swf/Avm2/Params.antt =====
-- The parameters of methods (swf/src/avm2/read.rs, swf/src/avm2/write.rs): their kinds, and what
-- their default values and names have to fulfil.
pub mod Defaults
pub mod Names
use ruffle.Prelude.{
  ℕ, suc, ◌-◌, ◌<◌, ◌≤◌, ◌^◌, ◌≡◌, refl, ap, sym, ◌∙◌, subst, List, [], ◌∷◌, map, some, none, All,
  length, Bool-cases, true, false, has_flag, arith, ltb, drop, ◌⊎◌, inl, inr, Option-cases,
}
use native.Mathlib.Nat.{mod-eq_of_lt}
use ruffle.Swf.Read.{read_many}
use ruffle.Swf.Write.{W, ◌>>◌, write_each}
use ruffle.Swf.Avm2.Types.{Index, DefaultValue, MethodParam}
use ruffle.Swf.Avm2.Primitives.{write_index}
use ruffle.Swf.Avm2.Reads.{Reads, Reads-bind, Reads-map, Reads-result, Reads-pure}
use ruffle.Swf.Avm2.Varint.{read_u30-write_u30, Reads-index}
use ruffle.Swf.Avm2.Pool.{IsU32}
use ruffle.Swf.Avm2.Values.{IsEncodableValue, Reads-constant_value}
use ruffle.Swf.Avm2.Read.{
  read_method_param, read_defaults, read_names, read_method_defaults, read_method_names,
}
use ruffle.Swf.Avm2.Write.{
  write_some, num_optional, has_param_names, write_constant_value, write_defaults, write_names,
}

-- The default values, in the order of their parameters.
unfoldable pub defaults : List MethodParam → List DefaultValue
defaults [] = []
defaults (param ∷ params) = elim param.default_value [
  | none ↦ defaults params
  | some value ↦ value ∷ defaults params
]

-- The parameters with these default values instead of theirs, from the first parameter on.
unfoldable pub moved : List DefaultValue → List MethodParam → List MethodParam
moved values [] = []
moved [] (param ∷ params) = record param { default_value = none } ∷ moved [] params
moved (value ∷ values) (param ∷ params) =
    record param { default_value = some value } ∷ moved values params

abbrev pub nameless : MethodParam → MethodParam
nameless param = record param { name = none }

abbrev pub write_default : MethodParam → W
write_default param = write_some write_constant_value param.default_value

abbrev pub HasDefault : MethodParam → Type 0
HasDefault param = (v : DefaultValue) × (param.default_value ≡ some v) × IsEncodableValue v

-- The parameters with a default value are the last ones.
abbrev pub IsOptionalLast : List MethodParam → Type 0
IsOptionalLast [] = Unit
IsOptionalLast (param ∷ params) =
    ((param.default_value ≡ none) × IsOptionalLast params) ⊎ All HasDefault (param ∷ params)

abbrev pub HasName : MethodParam → Type 0
HasName param = (n : Index) × (param.name ≡ some n) × IsU32 n

-- All of the parameters have a name, or none has.
abbrev pub IsNamedAlike : List MethodParam → Type 0
IsNamedAlike params = All HasName params ⊎ All (λ param. param.name ≡ none) params

-- The kinds of the parameters are read, without anything else.
pub Reads-kinds :
    (params : List MethodParam)
    → All (λ param. IsU32 param.kind) params
    → Reads
        (read_many (length params) read_method_param)
        (write_each (λ param. write_index param.kind) params)
        (moved [] (map nameless params))
unfolding moved read_many write_each read_method_param
Reads-kinds [] h = Reads-pure []
Reads-kinds (param ∷ params) (h, hs) =
    Reads-bind _ (Reads-map _ (Reads-index param.kind h)) (Reads-map _ (Reads-kinds params hs))
