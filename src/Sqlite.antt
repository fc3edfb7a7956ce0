-- ===== src/Sqlite.antt =====
-- Package sqlite.
pub mod Config
pub mod Database
pub mod Open
pub mod Commit
pub mod Lifecycle
