-- ===== src/Swf/Avm1/Functions.antt =====
-- ActionDefineFunction and ActionDefineFunction2 read back, with the code that follows them.
use ruffle.Prelude.{
  ℕ, ◌+◌, ◌<◌, ◌^◌, ◌%◌, ◌≡◌, ◌≢◌, refl, ap, subst, List, [], ◌∷◌, Option, some, none, arith, ◌==◌,
  All, length, sum_of, if◌then◌else◌, ne→==,
}
use ruffle.Swf.ByteOrder.{ByteOrder}
use ruffle.Swf.Read.{pure, ◌>>=◌, read_c_string, read_many, read_u16, read_slice}
use ruffle.Swf.Write.{◌>>◌, write_all, write_u8, write_u16, write_c_string, write_each}
use ruffle.Swf.Decodes.{Decodes, Decodes-bind, Decodes-count, Decodes-result, Decodes-map}
use ruffle.Swf.Decodes.Fields.{
  Decodes-read_u8, Decodes-read_u16, Decodes-read_c_string, Decodes-read_slice, Decodes-read_many,
  IsCStr,
}
use ruffle.Swf.Avm1.Types.{Action, FunctionParam, Function, Str}
use ruffle.Swf.Avm1.Read.{
  read_define_function, read_function_param, function_of, read_define_function_2,
}
use ruffle.Swf.Avm1.Write.{as_u16, str_len, function_flags, register_or_zero, write_function_param}
use ruffle.Swf.Avm1.Operands.{Decodes-c_strings}
use ruffle.Swf.Avm1.Flags.{function_of-function_flags, function_flags-lt}

abbrev pub param_len : FunctionParam → ℕ
param_len param = length param.name + 2

-- A parameter that a register takes names one other than register 0.
abbrev pub IsEncodableParam : FunctionParam → Type 0
IsEncodableParam param = IsCStr param.name × (param.register_index ≢ some 0)

register_of :
    (o : Option ℕ)
    → o ≢ some 0
    → (if register_or_zero o == 0 then none else some (register_or_zero o)) ≡ o
unfolding register_or_zero
register_of none h = refl
register_of (some n) h = rw (ne→== n 0 (λ e. h (ap some e)))

Decodes-param :
    (param : FunctionParam)
    → IsEncodableParam param
    → Decodes read_function_param (write_function_param param) (param_len param) param
unfolding read_function_param write_function_param
Decodes-param param (hs, hr) =
    Decodes-count (param_len param)
      (Decodes-bind _ (Decodes-read_u8 (register_or_zero param.register_index)) (
        subst
          (λ o.
            Decodes {A = FunctionParam}
              (read_c_string >>= λ name. pure (record {
                name = name;
                register_index =
                    if register_or_zero param.register_index == 0
                    then none
                    else some (register_or_zero param.register_index);
              }))
              (write_c_string param.name) (length param.name + 1)
              (record { name = param.name; register_index = o }))
          (register_of param.register_index hr)
          (Decodes-map _ (Decodes-read_c_string param.name hs))))
      (omega arith)

Decodes-params :
    (params : List FunctionParam)
    → All IsEncodableParam params
    → Decodes
        (read_many (length params) read_function_param)
        (write_each write_function_param params)
        (sum_of param_len params)
        params
Decodes-params params h =
    Decodes-read_many read_function_param write_function_param param_len params (each params h)
  where
    each :
        (params : List FunctionParam)
        → All IsEncodableParam params
        → All (λ p. Decodes read_function_param (write_function_param p) (param_len p) p) params
    each [] h = tt
    each (p ∷ ps) (hp, hps) = (Decodes-param p hp, each ps hps)

module _ ⦃bo : ByteOrder⦄ where
  -- The code that follows an action, behind its length.
  Decodes-code :
      {A : Type 0} (actions : List ℕ) (f : List ℕ → A) (g : ℕ → ℕ)
      → length actions < 2 ^ 16
      → Decodes {A = A × ℕ}
          (read_u16 >>= λ n. read_slice n >>= λ code. pure (f code, g n))
          (write_u16 (as_u16 (length actions)) >> write_all actions)
          (2 + length actions)
          (f actions, g (length actions))
  Decodes-code actions f g h =
      let fits : length actions % 2 ^ 16 ≡ length actions = omega arith in
      rw fits (
        Decodes-bind _ (Decodes-read_u16 (length actions) h)
          (Decodes-map (λ code. (f code, g (length actions))) (Decodes-read_slice actions)))

  pub Decodes-define_function :
      (name : Str) (params : List Str) (actions : List ℕ) (len : ℕ)
      → IsCStr name
      → All IsCStr params
      → length params < 2 ^ 16
      → length actions < 2 ^ 16
      → Decodes
          (read_define_function len)
          (write_c_string name
            >> (write_u16 (as_u16 (length params))
                >> (write_each write_c_string params
                    >> (write_u16 (as_u16 (length actions)) >> write_all actions))))
          (length name + 1 + (2 + (sum_of str_len params + (2 + length actions))))
          (some (Action.define_function name params actions), len + length actions)
  unfolding read_define_function
  Decodes-define_function name params actions len hn hps hp ha =
      let fits : length params % 2 ^ 16 ≡ length params = omega arith in
      rw fits (
        Decodes-bind _ (Decodes-read_c_string name hn) (
          Decodes-bind _ (Decodes-read_u16 (length params) hp) (
            Decodes-bind _ (Decodes-c_strings params hps) (
              Decodes-code actions (λ code. some (Action.define_function name params code))
                (λ n. len + n) ha))))

  pub Decodes-define_function2 :
      (f : Function) (len : ℕ)
      → IsCStr f.name
      → All IsEncodableParam f.params
      → length f.params < 2 ^ 16
      → length f.actions < 2 ^ 16
      → Decodes
          (read_define_function_2 len)
          (write_c_string f.name
            >> (write_u16 (as_u16 (length f.params))
                >> (write_u8 f.register_count
                    >> (write_u16 (function_flags f)
                        >> (write_each write_function_param f.params
                            >> (write_u16 (as_u16 (length f.actions)) >> write_all f.actions))))))
          (length f.name
            + 1
            + (2 + (1 + (2 + (sum_of param_len f.params + (2 + length f.actions))))))
          (some (Action.define_function2 f), len + length f.actions)
  unfolding read_define_function_2
  Decodes-define_function2 f len hn hps hp ha =
      let fits : length f.params % 2 ^ 16 ≡ length f.params = omega arith in
      let function =
        λ (code : List ℕ). function_of f.name f.params f.register_count (function_flags f) code in
      rw fits (
        Decodes-result
          (Decodes-bind _ (Decodes-read_c_string f.name hn) (
            Decodes-bind _ (Decodes-read_u16 (length f.params) hp) (
              Decodes-bind _ (Decodes-read_u8 f.register_count) (
                Decodes-bind _ (Decodes-read_u16 (function_flags f) (function_flags-lt f)) (
                  Decodes-bind _ (Decodes-params f.params hps) (
                    Decodes-code f.actions (λ code. some (Action.define_function2 (function code)))
                      (λ n. len + n) ha))))))
          (ap (λ g. (some (Action.define_function2 g), len + length f.actions))
            (function_of-function_flags f)))
