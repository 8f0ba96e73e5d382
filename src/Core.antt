-- ===== src/Core.antt =====
-- The crate crates/tradar-core.
pub mod VimList
mod Tests
