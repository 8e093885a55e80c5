-- ===== src/Config.antt =====
-- pkg/config.
pub mod Filter
pub mod Settings
