-- ===== src/Swf/Avm1/Operands.antt =====
-- The operands of each action read back.
use ruffle.Prelude.{
  ℕ, zero, suc, ◌+◌, ◌<◌, ◌≤◌, ◌^◌, ◌%◌, ◌≡◌, refl, subst, List, [], ◌∷◌, arith, Bool, true, false,
  ltb, ◌==◌, not, has_flag, All, length, sum_of, FitsSigned, bit_or, bit_and, lt→ltb, Bool-cases,
  inl, inr, le→ltb, ltb→lt,
}
use native.Mathlib.Nat.{add_assoc}
use ruffle.Swf.ByteOrder.{ByteOrder}
use ruffle.Swf.Read.{Reader, M, pure, ◌>>=◌, advance, read_u8, read_c_string, read_many}
use ruffle.Swf.Write.{◌>>◌, write_u8, write_u16, write_c_string, write_each}
use ruffle.Swf.Decodes.{
  Decodes, Decodes-pure, Decodes-bind, Decodes-count, Decodes-map, Decodes-nothing, Decodes-last,
  Decodes-bind_at, Decodes-agree, Decodes-nil,
}
use ruffle.Swf.Decodes.Fields.{
  Decodes-read_u8, Decodes-read_u16, Decodes-read_i32, Decodes-read_f32, Decodes-read_f64,
  Decodes-read_c_string, Decodes-read_many, IsCStr,
}
use ruffle.Swf.Avm1.Types.{Action, Value, SendVarsMethod, Str}
use ruffle.Swf.Avm1.Read.{
  send_vars_method, read_get_url2, read_constant_pool, value_of, read_push_value, read_push_loop,
  read_push,
}
use ruffle.Swf.Avm1.Write.{as_u16, flag, str_len, value_len, method_bits, write_push_value}

abbrev url2_flags : SendVarsMethod → Bool → Bool → ℕ
url2_flags m t l = bit_or (method_bits m) (bit_or (flag t 0b01_0000_00) (flag l 0b10_0000_00))

send_vars_method-flags :
    (m : SendVarsMethod) (t l : Bool) → send_vars_method (bit_and (url2_flags m t l) 0b11) ≡ pure m
unfolding send_vars_method method_bits
send_vars_method-flags SendVarsMethod.none true true = refl
send_vars_method-flags _ true true = refl
send_vars_method-flags SendVarsMethod.none true false = refl
send_vars_method-flags _ true false = refl
send_vars_method-flags SendVarsMethod.none false true = refl
send_vars_method-flags _ false true = refl
send_vars_method-flags SendVarsMethod.none false false = refl
send_vars_method-flags _ false false = refl

url2_flags-bits :
    (m : SendVarsMethod) (t l : Bool)
    → (has_flag (url2_flags m t l) 0b01_0000_00 ≡ t)
      × (has_flag (url2_flags m t l) 0b10_0000_00 ≡ l)
unfolding method_bits
url2_flags-bits SendVarsMethod.none true true = (refl, refl)
url2_flags-bits _ true true = (refl, refl)
url2_flags-bits SendVarsMethod.none true false = (refl, refl)
url2_flags-bits _ true false = (refl, refl)
url2_flags-bits SendVarsMethod.none false true = (refl, refl)
url2_flags-bits _ false true = (refl, refl)
url2_flags-bits SendVarsMethod.none false false = (refl, refl)
url2_flags-bits _ false false = (refl, refl)

pub Decodes-get_url2 :
    (m : SendVarsMethod) (t l : Bool)
    → Decodes read_get_url2 (write_u8 (url2_flags m t l)) 1 (Action.get_url2 m t l)
unfolding read_get_url2
Decodes-get_url2 m t l =
    let (sprite, vars) = url2_flags-bits m t l in
    Decodes-last _ (Decodes-read_u8 (url2_flags m t l)) (
      rw (send_vars_method-flags m t l, sprite, vars)
        (Decodes-nothing _ (Decodes-pure m) (Decodes-pure (Action.get_url2 m t l))))

pub Decodes-c_strings :
    (ss : List Str)
    → All IsCStr ss
    → Decodes
        (read_many (length ss) read_c_string)
        (write_each write_c_string ss)
        (sum_of str_len ss)
        ss
Decodes-c_strings ss h = Decodes-read_many read_c_string write_c_string str_len ss (each ss h)
  where
    each :
        (ss : List Str)
        → All IsCStr ss
        → All (λ s. Decodes read_c_string (write_c_string s) (str_len s) s) ss
    each [] h = tt
    each (s ∷ ss) (hs, hss) = (Decodes-read_c_string s hs, each ss hss)

-- A value that its type allows, with the operands in range.
abbrev pub IsEncodableValue : Value → Type 0
IsEncodableValue (Value.int v) = FitsSigned (2 ^ 31) v
IsEncodableValue (Value.float v) = v < 2 ^ 32
IsEncodableValue (Value.double v) = v < 2 ^ 64
IsEncodableValue (Value.str s) = IsCStr s
IsEncodableValue (Value.constant_pool v) = v < 2 ^ 16
IsEncodableValue _ = Unit

bool_of_flag : (b : Bool) → not (flag b 1 == 0) ≡ b
bool_of_flag true = refl
bool_of_flag false = refl

value_len-pos : (v : Value) → 0 < value_len v
unfolding value_len
value_len-pos Value.null = omega arith
value_len-pos (Value.constant_pool v) = ground arith
value_len-pos _ = omega arith

length-le-sum : (values : List Value) → length values ≤ sum_of value_len values
unfolding sum_of
length-le-sum [] = omega arith
length-le-sum (v ∷ vs) = omega (arith, value_len-pos v, length-le-sum vs)

module _ ⦃bo : ByteOrder⦄ where
  pub Decodes-constant_pool :
      (constants : List Str)
      → All IsCStr constants
      → length constants < 2 ^ 16
      → Decodes read_constant_pool
          (write_u16 (as_u16 (length constants)) >> write_each write_c_string constants)
          (2 + sum_of str_len constants)
          (Action.constant_pool constants)
  unfolding read_constant_pool
  Decodes-constant_pool constants hs hn =
      let fits : length constants % 2 ^ 16 ≡ length constants = omega arith in
      rw fits (
        Decodes-bind _ (Decodes-read_u16 (length constants) hn)
          (Decodes-map Action.constant_pool (Decodes-c_strings constants hs)))

  Decodes-pool_value :
      (v : ℕ)
      → v < 2 ^ 16
      → Decodes read_push_value
          (write_push_value (Value.constant_pool v))
          (value_len (Value.constant_pool v))
          (Value.constant_pool v)
  unfolding read_push_value value_of write_push_value value_len
  Decodes-pool_value v h = elim (Bool-cases (ltb v 256)) [
    | inl small ↦
        let fits : v % 2 ^ 8 ≡ v = omega (arith, ltb→lt v 256 small) in
        rw (small, fits)
          (Decodes-bind _ {n = 1} (Decodes-read_u8 8)
            (Decodes-map Value.constant_pool (Decodes-read_u8 v)))
    | inr large ↦ rw large (
        Decodes-bind _ {n = 2} (Decodes-read_u8 9)
          (Decodes-map Value.constant_pool (Decodes-read_u16 v h)))
  ]

  pub Decodes-value :
      (v : Value)
      → IsEncodableValue v
      → Decodes read_push_value (write_push_value v) (value_len v) v
  unfolding read_push_value value_of write_push_value value_len
  Decodes-value Value.undefined h =
      Decodes-nil (Decodes-bind _ (Decodes-read_u8 3) (Decodes-pure _))
  Decodes-value Value.null h = Decodes-nil (Decodes-bind _ (Decodes-read_u8 2) (Decodes-pure _))
  Decodes-value (Value.bool b) h = Decodes-bind _ (Decodes-read_u8 5) (
      subst
        (λ c.
          Decodes (read_u8 >>= λ v. pure (Value.bool (not (v == 0)))) (write_u8 (flag b 1)) 1
            (Value.bool c))
        (bool_of_flag b)
        (Decodes-map (λ v. Value.bool (not (v == 0))) (Decodes-read_u8 (flag b 1))))
  Decodes-value (Value.int v) h =
      Decodes-bind _ (Decodes-read_u8 7) (Decodes-map Value.int (Decodes-read_i32 v h))
  Decodes-value (Value.float v) h =
      Decodes-bind _ (Decodes-read_u8 1) (Decodes-map Value.float (Decodes-read_f32 v h))
  Decodes-value (Value.double v) h =
      Decodes-bind _ (Decodes-read_u8 6) (Decodes-map Value.double (Decodes-read_f64 v h))
  Decodes-value (Value.str s) h =
      Decodes-count (length s + 2)
        (Decodes-bind _ (Decodes-read_u8 0) (Decodes-map Value.str (Decodes-read_c_string s h)))
        (omega arith)
  Decodes-value (Value.register v) h =
      Decodes-bind _ (Decodes-read_u8 4) (Decodes-map Value.register (Decodes-read_u8 v))
  Decodes-value (Value.constant_pool v) h = Decodes-pool_value v h

  loop_to : ℕ → ℕ → M (List Value)
  loop_to fuel n r = read_push_loop fuel (r.pos + n) r

  loop_from :
      (r : Reader) (v : Value) (vs : List Value) (fuel : ℕ)
      → (read_push_loop fuel (r.pos + (value_len v + sum_of value_len vs)) >>= λ rest.
            pure (v ∷ rest))
          (advance (value_len v) r)
        ≡ (loop_to fuel (sum_of value_len vs) >>= λ rest. pure (v ∷ rest)) (advance (value_len v) r)
  unfolding loop_to ◌>>=◌
  loop_from r v vs fuel = rw (add_assoc)

  Decodes-loop :
      (values : List Value) (fuel : ℕ)
      → All IsEncodableValue values
      → length values ≤ fuel
      → Decodes
          (loop_to fuel (sum_of value_len values))
          (write_each write_push_value values)
          (sum_of value_len values)
          values
  unfolding read_push_loop write_each sum_of loop_to ◌>>=◌
  Decodes-loop [] zero h hf =
      Decodes-agree (Decodes-pure []) (λ r rest e. rw (le→ltb r.pos (r.pos + 0) (omega arith)))
  Decodes-loop [] (suc fuel) h hf =
      Decodes-agree (Decodes-pure []) (λ r rest e. rw (le→ltb r.pos (r.pos + 0) (omega arith)))
  Decodes-loop (v ∷ vs) zero h hf = absurd (omega arith)
  Decodes-loop (v ∷ vs) (suc fuel) (hv, hvs) hf =
      Decodes-agree
        (Decodes-bind_at
          (λ value. loop_to fuel (sum_of value_len vs) >>= λ rest. pure (value ∷ rest))
          (λ r value. read_push_loop fuel (r.pos + (value_len v + sum_of value_len vs)) >>= λ rest.
            pure (value ∷ rest))
          (Decodes-value v hv)
          (Decodes-map (λ rest. v ∷ rest) (Decodes-loop vs fuel hvs (omega arith)))
          (λ r. loop_from r v vs fuel))
        (λ r rest e. rw (
          lt→ltb r.pos (r.pos + (value_len v + sum_of value_len vs))
            (omega (arith, value_len-pos v))))

  -- ActionPush: its values fill the length that the header counts.
  pub Decodes-push :
      (values : List Value)
      → All IsEncodableValue values
      → Decodes
          (read_push (sum_of value_len values))
          (write_each write_push_value values)
          (sum_of value_len values)
          (Action.push values)
  unfolding read_push loop_to ◌>>=◌
  Decodes-push values h =
      Decodes-map Action.push
        (Decodes-loop values (sum_of value_len values) h (length-le-sum values))
