-- ===== src/Rabbitmq.antt =====
-- Package rabbitmq: rabbitmq/rabbitmq.go, rabbitmq/messaging.go and rabbitmq/metrics.go.
pub mod Config
pub mod Float
pub mod Retry
pub mod Amqp
pub mod Publish
pub mod Failure
pub mod Topology
pub mod Component
pub mod Lifecycle
pub mod Consumer
pub mod Report
