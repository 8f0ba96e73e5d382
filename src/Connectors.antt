-- ===== src/Connectors.antt =====
-- What the connectors of the databases (crates/tradar-connector-*) decide by themselves.
pub mod Errors
mod Tests
