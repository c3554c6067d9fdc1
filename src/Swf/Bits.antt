-- ===== src/Swf/Bits.antt =====
-- Fields of single bits in swf/src/read.rs and swf/src/write.rs.
pub mod Defs
pub mod Lists
pub mod Reading
pub mod Writing
pub mod Signed
pub mod RoundTrip
mod Tests
