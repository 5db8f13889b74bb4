-- ===== src/History.antt =====
-- The event history service (services/history).
pub mod UseCases
pub mod Validate
pub mod Server
pub mod Stream
pub mod Service
pub mod Pool
pub mod Pooled
pub mod Overlap
pub mod Settings
pub mod Main
pub mod Postgres
pub mod Repo
mod Tests
