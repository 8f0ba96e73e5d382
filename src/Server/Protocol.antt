-- ===== src/Server/Protocol.antt =====
-- crates/tradar-server/src/protocol.rs: the shapes on the wire.
pub mod Position
pub mod Stored
pub mod Error
pub mod Edits
