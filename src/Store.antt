-- ===== src/Store.antt =====
-- internal/store: the persisted configuration and the policies that are read from it.
pub mod Glob
pub mod Sites
pub mod Headers
pub mod Config
