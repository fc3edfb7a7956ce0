-- ===== src/Fiber.antt =====
-- Package fiber.
pub mod Config
pub mod Routes
pub mod Fault
pub mod Lifecycle
pub mod Probe
pub mod Swagger
