-- ===== src/Swf/Avm1.antt =====
-- The AVM1 codec (swf/src/avm1).
pub mod OpCode
pub mod Types
pub mod Read
pub mod Write
pub mod Frame
pub mod Operands
pub mod Flags
pub mod Functions
pub mod Encodable
pub mod Actions
pub mod RoundTrip
pub mod Faults
pub mod Total
mod Tests
