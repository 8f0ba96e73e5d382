-- ===== src/Server.antt =====
-- The crate crates/tradar-server.
pub mod Protocol
pub mod Subscriptions
pub mod Cursors
pub mod Idle
mod Tests
mod ProtocolTests
