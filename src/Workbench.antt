-- ===== src/Workbench.antt =====
-- The crate crates/tradar-query-workbench.
pub mod Export
pub mod Filter
pub mod Engine
pub mod Editor
mod Tests
mod EditorTests
