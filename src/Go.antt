-- ===== src/Go.antt =====
-- What the program uses of Go's standard library, and what the packages have in common: errors, maps keyed by
-- text, decimal text, TLS settings, metrics sinks, handles, options.
pub mod Errors
pub mod Table
pub mod Tls
pub mod Format
pub mod Report
pub mod Handles
pub mod Threads
pub mod Options
pub mod Setup
