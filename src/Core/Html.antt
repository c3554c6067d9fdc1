-- ===== src/Core/Html.antt =====
-- Text fields with HTML formatting (core/src/html).
pub mod TextFormat
pub mod TextSpan
pub mod FormatSpans
mod Tests
