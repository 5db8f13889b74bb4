-- ===== src/System.antt =====
-- The client and the history service together: a stub that delivers what is written to the handlers.
pub mod Messages
pub mod Delivery
pub mod Sent
pub mod Stored
pub mod Crowded
pub mod Started
pub mod Repeated
pub mod Fetched
pub mod Counted
pub mod Typed
pub mod TypedSave
mod Tests
