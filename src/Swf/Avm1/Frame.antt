-- ===== src/Swf/Avm1/Frame.antt =====
-- The header of an action and its check by `read_action`: what reads back the body of an action
-- reads back the action.
use ruffle.Prelude.{
  ℕ, ◌+◌, ◌<◌, ◌≤◌, ◌^◌, ◌%◌, ◌≡◌, sym, ap, subst, ◌∙◌, [], Option, some, arith, ==_refl, le→leb,
  lt→leb,
}
use ruffle.Swf.ByteOrder.{ByteOrder}
use ruffle.Swf.Read.{pure, ◌>>=◌}
use ruffle.Swf.Write.{W, ◌>>◌, write_all}
use ruffle.Swf.Decodes.{Decodes, Decodes-pure, Decodes-bind, Decodes-map, Decodes-nil, Decodes-skip}
use ruffle.Swf.Decodes.Fields.{Decodes-read_u8, Decodes-read_u16}
use ruffle.Swf.Avm1.OpCode.{OpCode, as_u8, from_u8-as_u8}
use ruffle.Swf.Avm1.Types.{Action}
use ruffle.Swf.Avm1.Read.{
  read_known, read_op_as, read_op, read_length, read_opcode_and_length, finish_action, read_body,
  read_action,
}
use ruffle.Swf.Avm1.Write.{write_opcode_and_length, write_action_header}

module _ ⦃bo : ByteOrder⦄ where
  pub Decodes-long_header :
      (opcode len : ℕ)
      → 0x80 ≤ opcode
      → len < 2 ^ 16
      → Decodes read_opcode_and_length (write_opcode_and_length opcode len) 3 (opcode, len)
  unfolding read_opcode_and_length write_opcode_and_length read_length
  Decodes-long_header opcode len ho hl =
      let fits : len % 2 ^ 16 ≡ len = omega arith in
      rw (le→leb 0x80 opcode ho, fits)
        (Decodes-bind _ {n = 2} (Decodes-read_u8 opcode) (
          rw (le→leb 0x80 opcode ho)
            (Decodes-skip (Decodes-map (λ n. (opcode, n)) (Decodes-read_u16 len hl)))))

  Decodes-short_header :
      (opcode : ℕ)
      → opcode < 0x80
      → Decodes read_opcode_and_length (write_opcode_and_length opcode 0) 1 (opcode, 0)
  unfolding read_opcode_and_length write_opcode_and_length read_length
  Decodes-short_header opcode ho = rw (lt→leb 0x80 opcode ho) (
      Decodes-bind _ {n = 0} (Decodes-read_u8 opcode) (
        rw (lt→leb 0x80 opcode ho)
          (Decodes-skip (Decodes-skip (Decodes-map (λ n. (opcode, n)) (Decodes-pure 0))))))

  Decodes-body :
      (opcode len n : ℕ) {w : W} {action : Option Action}
      → Decodes (read_op opcode len) w n (action, n)
      → Decodes (read_body opcode len) w n action
  unfolding read_body finish_action ◌>>=◌
  Decodes-body opcode len n {action = action} d = record {
    bytes = d.bytes;
    written = d.written;
    counted = d.counted;
    reads =
        λ r rest h. ap (finish_action opcode r.pos) (d.reads r rest h) ∙ rw (==_refl (r.pos + n));
  }

  pub Decodes-long :
      (opcode len n : ℕ) {w : W} {action : Option Action}
      → 0x80 ≤ opcode
      → len < 2 ^ 16
      → Decodes (read_op opcode len) w n (action, n)
      → Decodes read_action (write_opcode_and_length opcode len >> w) (3 + n) action
  unfolding read_action
  Decodes-long opcode len n ho hl d =
      Decodes-bind _ (Decodes-long_header opcode len ho hl) (Decodes-body opcode len n d)

  pub read_op-known :
      (op : OpCode) (len : ℕ) {w : W} {n : ℕ} {result : Option Action × ℕ}
      → Decodes (read_known op len) w n result
      → Decodes (read_op (as_u8 op) len) w n result
  unfolding read_op read_op_as
  read_op-known op len {w = w} {n = n} {result = result} d =
      subst (λ o. Decodes (read_op_as o (as_u8 op) len) w n result) (sym (from_u8-as_u8 op)) d

  pub Decodes-short :
      (opcode : ℕ) {action : Option Action}
      → opcode < 0x80
      → Decodes (read_op opcode 0) (write_all []) 0 (action, 0)
      → Decodes read_action (write_opcode_and_length opcode 0) 1 action
  unfolding read_action
  Decodes-short opcode ho d =
      Decodes-nil (Decodes-bind _ (Decodes-short_header opcode ho) (Decodes-body opcode 0 0 d))

  -- An action with operands: the header counts `len`, and the arm of its opcode takes `n` bytes and
  -- has counted them all.
  pub Decodes-operands :
      (op : OpCode) (len n : ℕ) {w : W} {action : Action}
      → 0x80 ≤ as_u8 op
      → len < 2 ^ 16
      → Decodes (read_known op len) w n (some action, n)
      → Decodes read_action (write_action_header op len >> w) (3 + n) (some action)
  unfolding write_action_header
  Decodes-operands op len n {w} {action} ho hl d =
      Decodes-long (as_u8 op) len n ho hl (read_op-known op len d)

  -- An action that is its opcode.
  pub Decodes-plain :
      (op : OpCode) (action : Action)
      → as_u8 op < 0x80
      → ((len : ℕ) → read_known op len ≡ pure (some action, len))
      → Decodes read_action (write_action_header op 0) 1 (some action)
  unfolding write_action_header
  Decodes-plain op action ho e = Decodes-short (as_u8 op) ho (
      read_op-known op 0
        (subst (λ p. Decodes p (write_all []) 0 (some action, 0)) (sym (e 0)) (Decodes-pure _)))
