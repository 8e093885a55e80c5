-- ===== src/Linter.antt =====
-- pkg/linter: the linter around the policy engine.
pub mod Types
pub mod Options
pub mod Validate
pub mod Merge
pub mod Notices
pub mod Prepare
pub mod Run
