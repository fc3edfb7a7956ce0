-- ===== src/S3.antt =====
-- Package s3.
pub mod Config
pub mod Observe
pub mod Objects
pub mod Listing
pub mod Upload
pub mod Probe
pub mod Storage
pub mod Connect
pub mod Lifecycle
