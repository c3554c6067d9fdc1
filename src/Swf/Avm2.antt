-- ===== src/Swf/Avm2.antt =====
-- The AVM2 codec (swf/src/avm2).
pub mod Types
pub mod OpCode
pub mod Op
pub mod Primitives
pub mod ReadOp
pub mod WriteOp
pub mod Reads
pub mod Read
pub mod Write
pub mod Varint
pub mod Ints
pub mod Operands
pub mod Ops
pub mod Pool
pub mod Flags
pub mod Values
pub mod Traits
pub mod Methods
pub mod Params
pub mod RoundTrip
pub mod Faults
mod Tests
