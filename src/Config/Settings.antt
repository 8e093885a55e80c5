-- ===== src/Config/Settings.antt =====
-- pkg/config/config.go and pkg/config/bundle.go: the configuration, and the untyped values that it is
-- read from.
pub mod Values
pub mod Types
pub mod Rules
pub mod Levels
pub mod Source
mod Printed
mod Tests
mod Extracted
mod Selected
mod Precedence
