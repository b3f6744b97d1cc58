-- ===== src/Server.antt =====
-- The embedded server of the root package: its configuration, its datastore and its health check.
pub mod Config
pub mod Health
pub mod Lifecycle
