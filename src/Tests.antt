-- ===== src/Tests.antt =====
-- Runs of the model at concrete inputs, and each theorem at an input that meets its hypotheses.
mod Connections
mod Messaging
mod Histories
mod Lifecycles
mod Stores
mod Buckets
mod Servers
mod Runs
mod Settings
mod Telemetry
