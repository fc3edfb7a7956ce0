-- ===== src/Grpcclient.antt =====
-- Package grpcclient.
pub mod Config
pub mod Tls
pub mod Connect
pub mod Lifecycle
