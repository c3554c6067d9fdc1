-- ===== src/Lib.antt =====
-- Ruffle: a verification library for parts of the Flash Player emulator.
--
-- The program reads a movie (crate swf), runs its scripts and its timeline (crate core), and draws
-- and plays it through backends (render, web, desktop). This library models five parts of it.
--
-- The AVM1 action codec of the crate swf. ActionScript 1 and 2 come as a sequence of actions, each
-- an opcode, a length where the opcode is 0x80 or above, and operands. The interpreter of core asks
-- the reader for one action at a time; the exporter side writes them.
--   Swf.Error           swf/src/error.rs: the error type, and the result type of the model, which
--                       has values for a panic and for a loop that runs out of rounds
--   Swf.ByteOrder       the interface that the crate byteorder fills: how a number is laid out in
--                       bytes, and that reading undoes writing
--   Swf.Read            swf/src/read.rs (trait SwfRead) and the cursor of swf/src/avm1/read.rs: a
--                       reader takes the buffer and the position, and returns both with a result
--   Swf.Write           swf/src/write.rs (trait SwfWrite): a writer is the bytes it writes, or
--                       `none`, a panic
--   Swf.Utf8            `std::str::from_utf8`
--   Swf.Avm1.Types      swf/src/avm1/types.rs
--   Swf.Avm1.OpCode     swf/src/avm1/opcode.rs
--   Swf.Avm1.Read       swf/src/avm1/read.rs: `read_action` and what it calls
--   Swf.Avm1.Write      swf/src/avm1/write.rs: `write_action` and what it calls
--   Swf.Decodes, Swf.Decodes.Fields, Swf.Avm1.Frame, .Operands, .Flags, .Functions, .Actions
--                       readers against written bytes
--   Swf.Avm1.Encodable  the actions that have a place in the format
--   Swf.Avm1.RoundTrip, .Faults, .Total, Swf.Forward   the results and the lemmas for them
-- `read_push` loops until the cursor is behind the values. The model gives it as many rounds as the
-- action has bytes, which is enough, as each value takes a byte at least. A single-byte read fails
-- at the end of the buffer; a length that leaves the buffer makes the reader fail, as in the source.
--
-- The AVM2 codec of the crate swf. ActionScript 3 comes as ABC files: a constant pool, methods,
-- classes with traits, and method bodies whose code is a sequence of instructions.
--   Swf.Avm2.Types, .Op           swf/src/avm2/types.rs
--   Swf.Avm2.OpCode               swf/src/avm2/opcode.rs
--   Swf.Avm2.Primitives           numbers, indices and strings of swf/src/avm2/read.rs and write.rs
--   Swf.Avm2.Read, .ReadOp        swf/src/avm2/read.rs: `read`, `read_op` and what they call
--   Swf.Avm2.Write, .WriteOp      swf/src/avm2/write.rs: `write`, `write_op` and what they call
--   Swf.Avm2.Reads                a reader against written bytes, for fields of any length
--   Swf.Avm2.Varint, .Ints, .Operands, .Ops, .Pool, .Values, .Flags, .Traits, .Params, .Methods
--                                 the parts of the format, one after the other, with .Ops.Reading,
--                                 .Pool.Entries, .Params.Defaults and .Params.Names
--   Swf.Avm2.RoundTrip, .Faults   the results
--   Swf.LittleEndian, .Tests      a layout of numbers, and the results at concrete inputs
-- An index is its number. Arithmetic that overflows is a panic, as where the language checks it:
-- the fourth value of the result type on the reader's side, `none` on the writer's. The loops of
-- numbers of variable length run for five groups of seven bits: the writer needs no more for 32
-- bits, and the reader's sixth shift overflows. `read_op` and `write_op`, whose matches have more
-- than 140 arms, are each a definition for every part of the match. `{:#x}` of an unknown opcode is
-- left out of its error's message. The capacity that a vector reserves is not modelled.
--
-- The small fields of the crate swf, from bits to rectangles and tag headers: the fields of shapes,
-- buttons and stages have sizes in bits.
--   Swf.Bits.Defs                 swf/src/read.rs and swf/src/write.rs: `read_bit` to
--                                 `read_rectangle`, `write_bit` to `write_rectangle`
--   Swf.Bits.Lists, .Reading, .Writing, .Signed, .RoundTrip   results: both sides against the list
--                                 of the bits
--   Swf.Records, .Agree, .RoundTrip   the same files: tag headers, encoded numbers, colours, languages
--                                 and identifiers, which have whole bytes
-- `count_ubits` runs for at most 32 rounds, the width of its argument. The writer of bits takes and
-- returns its state; `none` is a panic, which `write_ubits` has for more than 32 bits, where the
-- source's shift overflows. `read_sbits` panics where the source's shift does.
--
-- Formatted text of the crate core. A text field keeps its text with a list of spans, each a number
-- of bytes with a complete format. Operations break spans at positions, change those between, and
-- call `normalize`, which establishes the invariants of the list again.
--   Core.Html.TextFormat          core/src/html/text_format.rs: `TextFormat`, a partial format
--   Core.Html.TextSpan            the same file: `TextSpan`
--   Core.Html.FormatSpans.Defs    the same file: `FormatSpans`, positions, breaks and `normalize`
--   Core.Html.FormatSpans.Edit    the same file, and core/src/html/iterators.rs: reading and changing
--                                 formats, replacing text, iterating
--   Core.Html.FormatSpans.Normalize, .Normal, .Breaks, .Apply, .Ranges, .Formats, .Panics
--                                 results and lemmas
-- The state is passed from operation to operation. `Vec::drain` and `Vec::insert` panic out of
-- range, so `replace_text` returns an option, `none` being a panic. The loop of `normalize` that
-- merges spans is a recursion on the list of spans behind the current one.
--
-- Bounding boxes of the crate core: rectangles of twips, which may be invalid, meaning empty.
--   Core.BoundingBox.Defs, .Setters   core/src/bounding_box.rs, but for `transform`
--   Core.BoundingBox.Laws, .Widths    results
--
-- Conventions. Bytes and unsigned words are natural numbers, with the width as a hypothesis or as
-- `% 2 ^ w` where the source casts; `usize` is taken not to overflow, since it counts bytes of
-- buffers in memory. Twips are integers; a sum of them that is no i32 is a panic. Strings are lists
-- of bytes. An f32 or an f64 is its bit pattern, and `==` on f64 treats NaN and the two zeros as
-- IEEE 754 does. A `Vec<u8>` takes every write.
--
-- Not modelled: the tags of the movie and their types, colour transforms and matrices, the
-- interpreter and its garbage-collected objects, the display list, the player and its loaders,
-- layout, XML and the conversion between HTML and formatted text, and the backends. These stand on
-- the interpreter's object graph, on floating point, or on libraries outside the repository.
pub mod Prelude
pub mod Swf
pub mod Core
