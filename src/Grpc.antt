-- ===== src/Grpc.antt =====
-- Package grpc.
pub mod Config
pub mod Tls
pub mod Launch
pub mod Lifecycle
