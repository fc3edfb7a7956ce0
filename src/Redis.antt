-- ===== src/Redis.antt =====
-- Package redis: redis/redis.go, redis/client.go and redis/metrics.go.
pub mod Lifecycle
pub mod Observe
pub mod Client
pub mod Config
pub mod Tls
pub mod Connect
