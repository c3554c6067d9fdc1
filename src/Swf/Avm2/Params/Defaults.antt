-- ===== src/Swf/Avm2/Params/Defaults.antt =====
-- The default values of parameters are read back, at the first ones (`read_method` of
-- swf/src/avm2/read.rs, `write_method` of swf/src/avm2/write.rs).
use ruffle.Prelude.{
  ℕ, suc, ◌-◌, ◌<◌, ◌≤◌, ◌^◌, ◌≡◌, refl, ap, sym, ◌∙◌, subst, List, [], ◌∷◌, map, some, none, All,
  length, Bool-cases, false, has_flag, arith, ltb, drop, inl, inr, Option-cases,
}
use native.Mathlib.Nat.{mod-eq_of_lt}
use ruffle.Swf.Write.{◌>>◌, write_each}
use ruffle.Swf.Avm2.Types.{DefaultValue, MethodParam}
use ruffle.Swf.Avm2.Reads.{Reads, Reads-bind, Reads-map, Reads-result, Reads-pure}
use ruffle.Swf.Avm2.Varint.{read_u30-write_u30}
use ruffle.Swf.Avm2.Values.{IsEncodableValue, Reads-constant_value}
use ruffle.Swf.Avm2.Read.{read_defaults, read_method_defaults}
use ruffle.Swf.Avm2.Write.{write_some, num_optional, write_constant_value, write_defaults}
use ruffle.Swf.Avm2.Params.{defaults, moved, nameless, write_default, HasDefault, IsOptionalLast}

-- Values are given to parameters from the first one on.
Reads-defaults :
    (values : List DefaultValue) (params : List MethodParam)
    → length values ≤ length params
    → All IsEncodableValue values
    → Reads
        (read_defaults (length values) (moved [] params))
        (write_each write_constant_value values)
        (moved values params)
unfolding moved read_defaults write_each
Reads-defaults [] params fits h = Reads-pure (moved [] params)
Reads-defaults (value ∷ values) [] fits h = absurd (omega (arith, fits))
Reads-defaults (value ∷ values) (param ∷ params) fits (h, hs) =
    Reads-bind _ (Reads-constant_value value h)
      (Reads-map _ (Reads-defaults values params (omega (arith, fits)) hs))

num_optional-length : (params : List MethodParam) → num_optional params ≡ length (defaults params)
unfolding num_optional defaults
num_optional-length [] = refl
num_optional-length (param ∷ params) = elim (Option-cases param.default_value) [
  | inl e ↦ rw e (num_optional-length params)
  | inr (v, e) ↦ rw e (ap suc (num_optional-length params))
]

length-defaults : (params : List MethodParam) → length (defaults params) ≤ length params
unfolding defaults
length-defaults [] = omega arith
length-defaults (param ∷ params) =
    let rest = length-defaults params in
    elim (Option-cases param.default_value) [
      | inl e ↦ rw e (omega (arith, rest))
      | inr (v, e) ↦ rw e (omega (arith, rest))
    ]

defaults-some :
    (param : MethodParam) (params : List MethodParam) {v : DefaultValue}
    → param.default_value ≡ some v
    → defaults (param ∷ params) ≡ v ∷ defaults params
unfolding defaults
defaults-some param params e = rw e refl

defaults-none :
    (param : MethodParam) (params : List MethodParam)
    → param.default_value ≡ none
    → defaults (param ∷ params) ≡ defaults params
unfolding defaults
defaults-none param params e = rw e refl

num_optional-none :
    (param : MethodParam) (params : List MethodParam)
    → param.default_value ≡ none
    → num_optional (param ∷ params) ≡ num_optional params
unfolding num_optional
num_optional-none param params e = rw e refl

-- Where every parameter has a default value, the values are theirs.
defaults-HasDefault :
    (params : List MethodParam)
    → All HasDefault params
    → (length (defaults params) ≡ length params)
      × All IsEncodableValue (defaults params)
      × (write_each write_default params ≡ write_each write_constant_value (defaults params))
unfolding defaults write_each write_some
defaults-HasDefault [] h = (refl, tt, refl)
defaults-HasDefault (param ∷ params) ((v, e, fits), hs) =
    let (counted, each, written) = defaults-HasDefault params hs in
    rw e (ap suc counted, (fits, each), ap (λ w. write_constant_value v >> w) written)

-- They stay where they are.
pub moved-defaults-HasDefault :
    (params : List MethodParam) → All HasDefault params → moved (defaults params) params ≡ params
unfolding moved
moved-defaults-HasDefault [] h = refl
moved-defaults-HasDefault (param ∷ params) ((v, e, fits), hs) =
    ap (λ vs. moved vs (param ∷ params)) (defaults-some param params e)
    ∙ (λ i. record param { default_value = sym e i } ∷ moved-defaults-HasDefault params hs i)

-- The same where there are none.
pub moved-defaults_none :
    (params : List MethodParam)
    → All (λ param. param.default_value ≡ none) params
    → moved (defaults params) params ≡ params
unfolding moved defaults
moved-defaults_none [] h = refl
moved-defaults_none (param ∷ params) (e, hs) =
    ap (λ vs. moved vs (param ∷ params)) (defaults-none param params e ∙ none_left params hs)
    ∙ (λ i.
        record param { default_value = sym e i }
        ∷ (ap (λ vs. moved vs params) (sym (none_left params hs)) ∙ moved-defaults_none params hs)
            i)
  where
    none_left :
        (ps : List MethodParam) → All (λ param. param.default_value ≡ none) ps → defaults ps ≡ []
    none_left [] h = refl
    none_left (p ∷ ps) (e, hs) = defaults-none p ps e ∙ none_left ps hs

-- What the writer writes of the last parameters is the list of the default values.
last_defaults :
    (params : List MethodParam)
    → IsOptionalLast params
    → All IsEncodableValue (defaults params)
      × (write_each write_default (drop (length params - num_optional params) params)
          ≡ write_each write_constant_value (defaults params))
unfolding defaults num_optional write_each
last_defaults [] h = (tt, refl)
last_defaults (param ∷ params) (inr h) =
    let (counted, each, written) = defaults-HasDefault (param ∷ params) h in
    let count = num_optional-length (param ∷ params) in
    let all : length (param ∷ params) - num_optional (param ∷ params) ≡ 0 =
      omega (arith, count, counted) in
    (each, ap (λ k. write_each write_default (drop k (param ∷ params))) all ∙ written)
last_defaults (param ∷ params) (inl (e, h)) =
    let (each, written) = last_defaults params h in
    let bound = length-defaults params in
    let count = num_optional-length params in
    let same = sym (defaults-none param params e) in
    let start : suc (length params) - num_optional (param ∷ params)
        ≡ suc (length params - num_optional params) =
      omega (arith, bound, count, num_optional-none param params e) in
    (
      subst (All IsEncodableValue) same each,
      ap (λ k. write_each write_default (drop k (param ∷ params))) start
          ∙ written
          ∙ ap (write_each write_constant_value) same,
    )

length-nameless : (params : List MethodParam) → length (map nameless params) ≡ length params
length-nameless [] = refl
length-nameless (param ∷ params) = ap suc (length-nameless params)

-- The reader gives the default values to the first parameters.
pub Reads-method_defaults :
    (flags : ℕ) (params : List MethodParam)
    → length params < 256
    → IsOptionalLast params
    → has_flag flags 0x08 ≡ ltb 0 (num_optional params)
    → Reads
        (read_method_defaults flags (moved [] (map nameless params)))
        (write_defaults params)
        (moved (defaults params) (map nameless params))
unfolding read_method_defaults write_defaults
Reads-method_defaults flags params small h e =
    let (each, written) = last_defaults params h in
    let count = num_optional-length params in
    let bound = length-defaults params in
    elim (Bool-cases (ltb 0 (num_optional params))) [
      | inr empty ↦
          rw (e, empty)
            (Reads-result (Reads-pure (moved [] (map nameless params)))
              (ap (λ vs. moved vs (map nameless params)) (sym (no_values params (below empty)))))
      | inl some_value ↦
          rw (e, some_value, count, mod-eq_of_lt (fits bound))
            (Reads-bind _ (read_u30-write_u30 (length (defaults params)) (fits bound)) (
              subst
                (λ w.
                  Reads (read_defaults (length (defaults params)) (moved [] (map nameless params)))
                    w (moved (defaults params) (map nameless params)))
                (sym (
                  subst
                    (λ k.
                      write_each write_default (drop (length params - k) params)
                      ≡ write_each write_constant_value (defaults params))
                    count written))
                (Reads-defaults (defaults params) (map nameless params)
                  (omega (arith, bound, length-nameless params)) each)))
    ]
  where
    below : {n : ℕ} → ltb 0 n ≡ false → n ≡ 0
    below {n = n} h = ground arith

    fits : {n : ℕ} → n ≤ length params → n < 2 ^ 32
    fits h = omega (arith, h, small)

    empty_of : {A : Type 0} (xs : List A) → length xs ≡ 0 → xs ≡ []
    empty_of [] h = refl
    empty_of (x ∷ xs) h = absurd (omega (arith, h))

    no_values : (ps : List MethodParam) → num_optional ps ≡ 0 → defaults ps ≡ []
    no_values ps h =
        let counted : length (defaults ps) ≡ 0 = sym (num_optional-length ps) ∙ h in
        empty_of (defaults ps) counted
