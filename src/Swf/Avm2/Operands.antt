-- ===== src/Swf/Avm2/Operands.antt =====
-- The operands of AVM2 instructions read back, and the instructions whose form depends on them
-- (swf/src/avm2/read.rs, swf/src/avm2/write.rs).
use ruffle.Prelude.{
  ℕ, zero, suc, ◌+◌, ◌-◌, ◌*◌, ◌/◌, ◌%◌, ◌^◌, ◌<◌, ◌≡◌, refl, ap, ℤ, pos, negsuc, List, [], ◌∷◌,
  arith, ◌==◌, not, length, All, Bool, true, false, some, lt→leb, ne→==,
}
use native.Mathlib.Nat.{mod-eq_of_lt}
use ruffle.Swf.Read.{pure, ◌>>=◌}
use ruffle.Swf.Write.{W, ◌>>◌}
use ruffle.Swf.Avm2.OpCode.{OpCode, as_u8, from_u8-as_u8}
use ruffle.Swf.Avm2.Op.{Op}
use ruffle.Swf.Avm2.Primitives.{read_i24, write_i24, byte_of, as_u32}
use ruffle.Swf.Avm2.ReadOp.{
  read_op, read_op_as, read_operands, read_operands_from_in, read_debug, read_lookup_switch,
  num_cases,
}
use ruffle.Swf.Avm2.WriteOp.{
  write_op, write_op_from_get_property, write_op_from_modulo, write_opcode, write_local,
  write_lookup_switch, write_num_cases, bool_as_u8,
}
use ruffle.Swf.Avm2.Reads.{
  Reads, Reads-u8, Reads-bind, Reads-map, Reads-result, Reads-last, Reads-many,
}
use ruffle.Swf.Avm2.Varint.{read_u30-write_u30, Reads-index}

-- The three bytes of an offset, read in the order opposite to the one in which they are written.
abbrev pub reversed : ℤ → ℕ
reversed n = byte_of n (2 ^ 16) + byte_of n (2 ^ 8) * 2 ^ 8 + byte_of n 1 * 2 ^ 16

pub Reads-reversed : (n : ℤ) → Reads read_i24 (write_i24 n) (pos (reversed n))
unfolding read_i24 write_i24
Reads-reversed n =
    Reads-bind _ (Reads-u8 _) (Reads-bind _ (Reads-u8 _) (Reads-map _ (Reads-u8 (byte_of n 1))))

-- An offset that is read back: it has 24 bits, and its first byte is its last.
abbrev pub IsPalindrome : ℤ → Type 0
IsPalindrome (pos n) = (n < 2 ^ 24) × (n % 256 ≡ n / 2 ^ 16)
IsPalindrome (negsuc n) = ⊥

pub Reads-i24 : (n : ℤ) → IsPalindrome n → Reads read_i24 (write_i24 n) n
unfolding byte_of
Reads-i24 (pos n) h = Reads-result (Reads-reversed (pos n)) (ap pos (omega (arith, h.0, h.1)))
Reads-i24 (negsuc n) h = absurd h

-- An opcode whose operands are read back.
pub Reads-operands :
    (opcode : OpCode) {w : W} {op : Op}
    → Reads (read_operands opcode) w op
    → Reads read_op (write_opcode opcode >> w) (some op)
unfolding read_op read_op_as write_opcode
Reads-operands opcode d =
    Reads-bind _ (Reads-u8 (as_u8 opcode)) (rw (from_u8-as_u8 opcode) (Reads-map (λ op. some op) d))

-- An opcode without operands.
pub Reads-bare :
    (opcode : OpCode) {op : Op}
    → read_operands opcode ≡ pure op
    → Reads read_op (write_opcode opcode) (some op)
unfolding read_op read_op_as write_opcode ◌>>=◌
Reads-bare opcode e =
    Reads-last _ (Reads-u8 (as_u8 opcode))
      (rw (from_u8-as_u8 opcode) (ap (λ p. p >>= λ op. pure (some op)) e))

pub Reads-debug :
    (is_local_register : Bool) (register_name register : ℕ)
    → register_name < 2 ^ 32
    → Reads read_op
        (write_op (Op.debug is_local_register register_name register))
        (some (Op.debug is_local_register register_name register))
unfolding write_op read_debug bool_as_u8 read_operands
Reads-debug is_local_register register_name register h = Reads-operands OpCode.debug (
    Reads-bind _ (Reads-u8 _) (
      Reads-bind _ (Reads-index register_name h) (
        Reads-bind _ (Reads-u8 register) (
          Reads-last _ (read_u30-write_u30 0 (omega arith))
            (ap (λ b. pure (Op.debug b register_name register)) (restored is_local_register))))))
  where
    restored : (b : Bool) → not (bool_as_u8 b == 0) ≡ b
    restored true = refl
    restored false = refl

pub Reads-num_cases : (n : ℕ) → 0 < n → n < 2 ^ 32 → Reads num_cases (write_num_cases (as_u32 n)) n
unfolding num_cases write_num_cases
Reads-num_cases n h fits =
    rw (mod-eq_of_lt fits, ne→== n 0 (λ e. omega (arith, e, h)))
      (Reads-last _ (read_u30-write_u30 (n - 1) (omega (arith, fits)))
        (rw (lt→leb (2 ^ 32) (n - 1 + 1) (omega (arith, fits, h))) (ap pure (omega (arith, h)))))

pub Reads-lookup_switch :
    (default_offset : ℤ) (case_offsets : List ℤ)
    → IsPalindrome default_offset
      × All IsPalindrome case_offsets
      × (0 < length case_offsets)
      × (length case_offsets < 2 ^ 32)
    → Reads read_op
        (write_op (Op.lookup_switch default_offset case_offsets))
        (some (Op.lookup_switch default_offset case_offsets))
unfolding write_op write_op_from_get_property write_lookup_switch read_lookup_switch read_operands
    read_operands_from_in
Reads-lookup_switch default_offset case_offsets (h, hs, some_case, fits) =
    Reads-operands OpCode.lookup_switch (
      Reads-bind _ (Reads-i24 default_offset h) (
        Reads-bind _ (Reads-num_cases (length case_offsets) some_case fits) (
          Reads-map (Op.lookup_switch default_offset)
            (Reads-many read_i24 write_i24 case_offsets (each case_offsets hs)))))
  where
    each : (ns : List ℤ) → All IsPalindrome ns → All (λ n. Reads read_i24 (write_i24 n) n) ns
    each [] h = tt
    each (n ∷ ns) h = (Reads-i24 n h.0, each ns h.1)

-- The short forms of the first four registers.
pub Reads-get_local :
    (index : ℕ)
    → index < 2 ^ 32
    → Reads read_op (write_op (Op.get_local index)) (some (Op.get_local index))
unfolding write_op write_local write_opcode read_operands
Reads-get_local zero h = Reads-bare OpCode.get_local_0 refl
Reads-get_local (suc zero) h = Reads-bare OpCode.get_local_1 refl
Reads-get_local (suc (suc zero)) h = Reads-bare OpCode.get_local_2 refl
Reads-get_local (suc (suc (suc zero))) h = Reads-bare OpCode.get_local_3 refl
Reads-get_local (suc (suc (suc (suc n)))) h =
    rw
      (
        ne→== (suc (suc (suc (suc n)))) 0 (λ e. omega (arith, e)),
        ne→== (suc (suc (suc (suc n)))) 1 (λ e. omega (arith, e)),
        ne→== (suc (suc (suc (suc n)))) 2 (λ e. omega (arith, e)),
        ne→== (suc (suc (suc (suc n)))) 3 (λ e. omega (arith, e)),
      )
      (Reads-operands OpCode.get_local (Reads-map Op.get_local (read_u30-write_u30 _ h)))

pub Reads-set_local :
    (index : ℕ)
    → index < 2 ^ 32
    → Reads read_op (write_op (Op.set_local index)) (some (Op.set_local index))
unfolding write_op write_op_from_get_property write_op_from_modulo write_local write_opcode
    read_operands read_operands_from_in
Reads-set_local zero h = Reads-bare OpCode.set_local_0 refl
Reads-set_local (suc zero) h = Reads-bare OpCode.set_local_1 refl
Reads-set_local (suc (suc zero)) h = Reads-bare OpCode.set_local_2 refl
Reads-set_local (suc (suc (suc zero))) h = Reads-bare OpCode.set_local_3 refl
Reads-set_local (suc (suc (suc (suc n)))) h =
    rw
      (
        ne→== (suc (suc (suc (suc n)))) 0 (λ e. omega (arith, e)),
        ne→== (suc (suc (suc (suc n)))) 1 (λ e. omega (arith, e)),
        ne→== (suc (suc (suc (suc n)))) 2 (λ e. omega (arith, e)),
        ne→== (suc (suc (suc (suc n)))) 3 (λ e. omega (arith, e)),
      )
      (Reads-operands OpCode.set_local (Reads-map Op.set_local (read_u30-write_u30 _ h)))
