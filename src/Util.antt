-- ===== src/Util.antt =====
-- internal/util: the set type, and the helpers on slices, roots and lines.
pub mod Set
pub mod Roots
pub mod Lines
pub mod Slices
