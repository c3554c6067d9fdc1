-- ===== src/Swf/Avm2/Params/Names.antt =====
-- The names of parameters are read back (`read_method` of swf/src/avm2/read.rs, `write_method` of
-- swf/src/avm2/write.rs).
use ruffle.Prelude.{
  ℕ, ◌≡◌, refl, ap, sym, List, [], ◌∷◌, map, none, All, true, false, has_flag, inl, inr,
}
use ruffle.Swf.Write.{write_each}
use ruffle.Swf.Avm2.Types.{DefaultValue, MethodParam}
use ruffle.Swf.Avm2.Primitives.{write_index}
use ruffle.Swf.Avm2.Reads.{Reads, Reads-bind, Reads-map, Reads-result, Reads-pure}
use ruffle.Swf.Avm2.Varint.{Reads-index}
use ruffle.Swf.Avm2.Read.{read_names, read_method_names}
use ruffle.Swf.Avm2.Write.{write_some, has_param_names, write_names}
use ruffle.Swf.Avm2.Params.{moved, nameless, HasName, IsNamedAlike}

-- The names are read where all were written.
Reads-names_every :
    (values : List DefaultValue) (params : List MethodParam)
    → All HasName params
    → Reads
        (read_names (moved values (map nameless params)))
        (write_each (λ param. write_some write_index param.name) params)
        (moved values params)
unfolding moved read_names write_each write_some
Reads-names_every values [] h = Reads-pure []
Reads-names_every [] (param ∷ params) ((n, e, fits), hs) =
    rw e (Reads-bind _ (Reads-index n fits) (Reads-map _ (Reads-names_every [] params hs)))
Reads-names_every (value ∷ values) (param ∷ params) ((n, e, fits), hs) =
    rw e (Reads-bind _ (Reads-index n fits) (Reads-map _ (Reads-names_every values params hs)))

has_param_names_none :
    (params : List MethodParam)
    → All (λ param. param.name ≡ none) params
    → has_param_names params ≡ false
unfolding has_param_names
has_param_names_none [] h = refl
has_param_names_none (param ∷ params) (e, hs) = rw e (has_param_names_none params hs)

map-nameless_none :
    (params : List MethodParam)
    → All (λ param. param.name ≡ none) params
    → map nameless params ≡ params
map-nameless_none [] h = refl
map-nameless_none (param ∷ params) (e, hs) =
    λ i. record param { name = sym e i } ∷ map-nameless_none params hs i

has_param_names_all :
    (param : MethodParam) (params : List MethodParam)
    → HasName param
    → has_param_names (param ∷ params) ≡ true
unfolding has_param_names
has_param_names_all param params (n, e, fits) = rw e refl

Reads-names_none :
    (flags : ℕ) (values : List DefaultValue) (params : List MethodParam)
    → All (λ param. param.name ≡ none) params
    → has_flag flags 0x80 ≡ has_param_names params
    → Reads
        (read_method_names flags (moved values (map nameless params)))
        (write_names params)
        (moved values params)
unfolding read_method_names write_names
Reads-names_none flags values params h e =
    rw (e, has_param_names_none params h)
      (Reads-result (Reads-pure _) (ap (moved values) (map-nameless_none params h)))

-- The names of all parameters or of none are read back.
pub Reads-method_names :
    (flags : ℕ) (values : List DefaultValue) (params : List MethodParam)
    → IsNamedAlike params
    → has_flag flags 0x80 ≡ has_param_names params
    → Reads
        (read_method_names flags (moved values (map nameless params)))
        (write_names params)
        (moved values params)
unfolding read_method_names write_names
Reads-method_names flags values params (inr h) e = Reads-names_none flags values params h e
Reads-method_names flags values [] (inl h) e = Reads-names_none flags values [] tt e
Reads-method_names flags values (param ∷ params) (inl h) e =
    rw (e, has_param_names_all param params h.0) (Reads-names_every values (param ∷ params) h)
