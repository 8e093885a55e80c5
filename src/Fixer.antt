-- ===== src/Fixer.antt =====
-- pkg/fixer and the part of cmd/fix.go that drives it.
pub mod Provider
pub mod InMemory
pub mod WriteBack
pub mod Fixes
pub mod Report
pub mod Candidate
pub mod Setup
pub mod Renaming
pub mod Run
