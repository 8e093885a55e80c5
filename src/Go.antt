-- ===== src/Go.antt =====
-- What the code uses of Go's own constructs and standard library.
pub mod Slices
pub mod Strings
pub mod Paths
pub mod Decimal
