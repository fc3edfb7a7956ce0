-- ===== src/Prometheus.antt =====
-- Package prometheus.
pub mod Config
pub mod Observer
pub mod Lifecycle
