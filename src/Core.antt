-- ===== src/Core.antt =====
-- The core crate (core/src).
pub mod Html
pub mod BoundingBox
