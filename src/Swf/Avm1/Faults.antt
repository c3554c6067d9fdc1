-- ===== src/Swf/Avm1/Faults.antt =====
-- Variants that swf/src/avm1/write.rs writes in a form that swf/src/avm1/read.rs does not accept.
use ruffle.Prelude.{
  ℕ, ◌+◌, ◌<◌, ◌≤◌, ◌^◌, ◌%◌, ◌≡◌, ◌≢◌, ap, ◌∙◌, List, ◌++◌, Option, some, none, arith, true, false,
  length, length-append, append_assoc, has_flag, if◌then◌else◌, ne→==,
}
use ruffle.Swf.Error.{err, avm1_parse_error}
use ruffle.Swf.ByteOrder.{ByteOrder}
use ruffle.Swf.Read.{pure, ◌>>=◌, advance, read_slice}
use ruffle.Swf.Write.{W, ◌>>◌, write_all, write_u8, write_u16}
use ruffle.Swf.Decodes.{
  Decodes, Decodes-pure, Decodes-bind, Decodes-count, Decodes-map, Decodes-last, reader_at,
}
use ruffle.Swf.Decodes.Fields.{
  Decodes-read_u8, Decodes-read_u16, Decodes-read_c_string, Decodes-read_slice, IsCStr,
}
use ruffle.Swf.Decodes.Runs.{Runs, Runs-more, Runs-bind, Runs-count, Runs-at}
use ruffle.Swf.Avm1.OpCode.{OpCode, as_u8}
use ruffle.Swf.Avm1.Types.{Action, CatchVar}
use ruffle.Swf.Avm1.Read.{
  read_known, read_op, read_body, read_action, finish_action, read_goto_frame2, read_scene_offset,
  read_try, read_catch_var,
}
use ruffle.Swf.Avm1.Write.{
  as_u16, write_action, write_action_header, write_goto_frame2, write_try, try_flags,
  write_catch_var, catch_name_len, finally_code,
}
use ruffle.Swf.Avm1.Frame.{Decodes-long_header, read_op-known}

module _ ⦃bo : ByteOrder⦄ where
  -- An action that takes `n` bytes where `m` are counted: the cursor is put where the count says.
  Runs-body :
      (opcode len m n : ℕ) {w : W} {action : Option Action}
      → Decodes (read_op opcode len) w n (action, m)
      → n ≢ m
      → Runs (read_body opcode len) w n (err (avm1_parse_error opcode)) m
  unfolding read_body finish_action ◌>>=◌
  Runs-body opcode len m n d ne = record {
    bytes = d.bytes;
    written = d.written;
    counted = d.counted;
    runs = λ r rest h.
        ap (finish_action opcode r.pos) (d.reads r rest h)
        ∙ rw (ne→== (r.pos + n) (r.pos + m) (λ e. ne (omega arith)));
  }

  Runs-action :
      (op : OpCode) (len k n : ℕ) {w : W}
      → 0x80 ≤ as_u8 op
      → len < 2 ^ 16
      → Runs (read_body (as_u8 op) len) w n (err (avm1_parse_error (as_u8 op))) k
      → Runs read_action
          (write_action_header op len >> w)
          (3 + n)
          (err (avm1_parse_error (as_u8 op)))
          (3 + k)
  unfolding read_action write_action_header
  Runs-action op len k n ho hl d = Runs-bind _ (Decodes-long_header (as_u8 op) len ho hl) d

  -- An ActionGotoFrame2 that does not play and has an offset is written with the flag of the other
  -- case: `read_action` takes it for a playing one without an offset, finds two bytes left, and
  -- reports a parse error at the end of the action.
  pub goto_frame2_stopped :
      (offset : ℕ) (before after : List ℕ)
      → offset ≢ 0
      → (bytes : List ℕ) × (write_action (Action.goto_frame2 false offset) ≡ some bytes)
        × (length bytes ≡ 6)
        × (read_action (reader_at before bytes after)
            ≡ (err (avm1_parse_error 0x9f), advance 6 (reader_at before bytes after)))
  unfolding read_known write_action read_goto_frame2 read_scene_offset write_goto_frame2 as_u8
      write_u16
  goto_frame2_stopped offset before after ne = rw (ne→== offset 0 ne) (
      Runs-at
        (Runs-count 6
          (Runs-action OpCode.goto_frame2 3 3 _ (omega arith) (omega arith) (
            Runs-more (bo.u16.to_bytes offset) (
              Runs-body 0x9f 3 3 1
                (read_op-known OpCode.goto_frame2 3 (
                  Decodes-map _ (
                    Decodes-last _ (Decodes-read_u8 0b01)
                      (Decodes-map (λ o. Action.goto_frame2 true o) (Decodes-pure 0)))))
                (omega arith))))
          (omega (arith, bo.u16.length-to_bytes offset)))
        before after)

  -- The variable of a catch clause, as the writer writes it.
  abbrev IsCatchVar : CatchVar → Type 0
  IsCatchVar (CatchVar.var name) = IsCStr name
  IsCatchVar (CatchVar.register i) = Unit

  Decodes-catch_var :
      (catch_var : CatchVar) (code : List ℕ) (finally : Option (List ℕ))
      → IsCatchVar catch_var
      → Decodes
          (read_catch_var (try_flags (some (catch_var, code)) finally))
          (write_catch_var (some (catch_var, code)))
          (catch_name_len (some (catch_var, code)))
          catch_var
  unfolding read_catch_var write_catch_var try_flags
  Decodes-catch_var (CatchVar.var name) code none h =
      Decodes-map CatchVar.var (Decodes-read_c_string name h)
  Decodes-catch_var (CatchVar.var name) code (some f) h =
      Decodes-map CatchVar.var (Decodes-read_c_string name h)
  Decodes-catch_var (CatchVar.register i) code none h =
      Decodes-map CatchVar.register (Decodes-read_u8 i)
  Decodes-catch_var (CatchVar.register i) code (some f) h =
      Decodes-map CatchVar.register (Decodes-read_u8 i)

  Decodes-three :
      {A : Type 0} (a b c : List ℕ) (g : List ℕ → List ℕ → List ℕ → A)
      → Decodes
          (read_slice (length a) >>= λ x.
            read_slice (length b) >>= λ y. read_slice (length c) >>= λ z. pure (g x y z))
          (write_all ((a ++ b) ++ c))
          (length a + (length b + length c))
          (g a b c)
  Decodes-three a b c g = rw (append_assoc a b c) (
      Decodes-bind
        (λ x. read_slice (length b) >>= λ y. read_slice (length c) >>= λ z. pure (g x y z))
        (Decodes-read_slice a)
        (Decodes-bind (λ y. read_slice (length c) >>= λ z. pure (g a y z)) (Decodes-read_slice b)
          (Decodes-map (λ z. g a b z) (Decodes-read_slice c))))

  -- The bytes behind the header of an ActionTry.
  abbrev try_size : List ℕ → CatchVar → List ℕ → Option (List ℕ) → ℕ
  try_size actions catch_var code finally =
      7
      + length ((actions ++ code) ++ finally_code finally)
      + catch_name_len (some (catch_var, code))

  -- What the reader makes of a try block whose parts it has read.
  abbrev try_of : ℕ → CatchVar → List ℕ → List ℕ → List ℕ → Option Action
  try_of flags catch_var actions code last = some (
      Action.try (record {
        try_actions = actions;
        catch = if has_flag flags 0b1 then some (catch_var, code) else none;
        finally = if has_flag flags 0b10 then some last else none;
      }))

  Decodes-try :
      (actions : List ℕ) (catch_var : CatchVar) (code : List ℕ) (finally : Option (List ℕ))
      (len : ℕ)
      → IsCatchVar catch_var
      → try_size actions catch_var code finally < 2 ^ 16
      → Decodes
          (read_try len)
          (write_u8 (try_flags (some (catch_var, code)) finally)
            >> (write_u16 (as_u16 (length actions))
                >> (write_u16 (as_u16 (length code))
                    >> (write_u16 (as_u16 (length (finally_code finally)))
                        >> (write_catch_var (some (catch_var, code))
                            >> write_all ((actions ++ code) ++ finally_code finally))))))
          (try_size actions catch_var code finally)
          (
            try_of
                (try_flags (some (catch_var, code)) finally)
                catch_var
                actions
                code
                (finally_code finally),
            len + (length actions + length code + length (finally_code finally)),
          )
  unfolding read_try
  Decodes-try actions catch_var code finally len hv h =
      let last = finally_code finally in
      let total =
        length-append (actions ++ code) last
        ∙ ap (λ n. n + length last) (length-append actions code) in
      let fits₁ : length actions % 2 ^ 16 ≡ length actions = omega arith in
      let fits₂ : length code % 2 ^ 16 ≡ length code = omega arith in
      let fits₃ : length last % 2 ^ 16 ≡ length last = omega arith in
      rw (fits₁, fits₂, fits₃)
        (Decodes-count _
          (Decodes-bind _ (Decodes-read_u8 (try_flags (some (catch_var, code)) finally)) (
            Decodes-bind _ (Decodes-read_u16 (length actions) (omega arith)) (
              Decodes-bind _ (Decodes-read_u16 (length code) (omega arith)) (
                Decodes-bind _ (Decodes-read_u16 (length last) (omega arith)) (
                  Decodes-bind _ (Decodes-catch_var catch_var code finally hv) (
                    Decodes-three actions code last (λ x y z. (
                      try_of (try_flags (some (catch_var, code)) finally) catch_var x y z,
                      len + (length actions + length code + length last),
                    ))))))))
          (omega arith))

  -- An ActionTry with a catch clause, whose variable can be written, and with code in one of its
  -- blocks, and whose size fits the header, at any place of a buffer: the writer counts the code in
  -- the header and the reader adds its length once more, so `read_action` reports a parse error and
  -- leaves the cursor behind the action by the length of its code.
  pub try_counted_twice :
      (actions code before after : List ℕ) (catch_var : CatchVar) (finally : Option (List ℕ))
      → IsCatchVar catch_var
      → try_size actions catch_var code finally < 2 ^ 16
      → 0 < length ((actions ++ code) ++ finally_code finally)
      → (bytes : List ℕ) × (write_action (
            Action.try
              (record { try_actions = actions; catch = some (catch_var, code); finally = finally }))
          ≡ some bytes)
        × (length bytes ≡ 3 + try_size actions catch_var code finally)
        × (read_action (reader_at before bytes after) ≡ (
          err (avm1_parse_error 0x8f),
          advance
              (3
                + (try_size actions catch_var code finally
                    + (length actions + length code + length (finally_code finally))))
              (reader_at before bytes after),
        ))
  unfolding read_known write_action write_try as_u8
  try_counted_twice actions code before after catch_var finally hv hl pos =
      let last = finally_code finally in
      let total =
        length-append (actions ++ code) last
        ∙ ap (λ n. n + length last) (length-append actions code) in
      let len = try_size actions catch_var code finally in
      Runs-at
        (Runs-action OpCode.try len (len + (length actions + length code + length last)) len
          (omega arith) hl
          (Runs-body 0x8f len (len + (length actions + length code + length last)) len
            (read_op-known OpCode.try len (Decodes-try actions catch_var code finally len hv hl))
            (λ e. omega arith)))
        before after
