-- ===== src/Lsp.antt =====
-- internal/lsp and the file provider over its cache: the parts of the language server that compute on
-- plain data.
pub mod Types
pub mod Diagnostics
pub mod Server
pub mod Tokens
pub mod Cache
pub mod Uri
pub mod Concurrent
pub mod CachedFiles
