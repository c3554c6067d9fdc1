-- ===== src/Core/BoundingBox.antt =====
-- Bounding boxes (core/src/bounding_box.rs).
pub mod Defs
pub mod Laws
pub mod Setters
pub mod Widths
mod Tests
