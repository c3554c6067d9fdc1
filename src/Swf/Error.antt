-- ===== src/Swf/Error.antt =====
-- Errors of the swf crate (swf/src/error.rs) and the results of its readers.
use ruffle.Prelude.{ℕ, String}

-- `io_error` is the UnexpectedEof that the cursor and `read_slice` return. A parse error with a
-- source has a constructor of its own, as it has a function of its own in the source.
pub data Error : Type 0 where
  avm1_parse_error : ℕ → Error
  avm1_parse_error_with_source : ℕ → Error → Error
  invalid_data : String → Error
  swf_parse_error : ℕ → Error
  swf_parse_error_with_source : ℕ → Error → Error
  io_error : Error
  unsupported : String → Error

-- `panics` is a panic of the reader: an index out of range, or an overflow in arithmetic.
-- `out_of_fuel` is no value of the source: a `while` loop of the model ran out of rounds.
pub data Result {ℓ} (A : Type ℓ) : Type ℓ where
  ok : A → Result A
  err : Error → Result A
  panics : Result A
  out_of_fuel : Result A
