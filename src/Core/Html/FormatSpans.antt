-- ===== src/Core/Html/FormatSpans.antt =====
-- Formatted text: `FormatSpans` of core/src/html/text_format.rs.
pub mod Defs
pub mod Edit
pub mod Normalize
pub mod Apply
pub mod Breaks
pub mod Ranges
pub mod Normal
pub mod Panics
pub mod Formats
