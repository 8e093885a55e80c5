-- ===== src/Fixer/Fixes.antt =====
-- pkg/fixer/fixes/fixes.go and the location of a violation in pkg/report/report.go: the types that
-- fixes work on. The fixes themselves are in the modules below.
mod Types
pub mod Edits
pub mod Whitespace
pub mod Assignment
pub mod Comparison
pub mod Removal
pub mod Directory
mod Tests
unfoldable pub use Types.*
