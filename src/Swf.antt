-- ===== src/Swf.antt =====
-- The swf crate (swf/src): bytes in and out, and the codecs built on them.
pub mod Error
pub mod ByteOrder
pub mod LittleEndian
pub mod Utf8
pub mod Read
pub mod Write
pub mod Decodes
pub mod Forward
pub mod Avm1
pub mod Avm2
pub mod Bits
pub mod Records
