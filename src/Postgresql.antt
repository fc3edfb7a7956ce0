-- ===== src/Postgresql.antt =====
-- Package postgresql.
pub mod Config
pub mod Connect
pub mod Database
pub mod Finalise
pub mod Lifecycle
