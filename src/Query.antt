-- ===== src/Query.antt =====
-- The crate crates/tradar-query.
pub mod Statements
pub mod Keyword
pub mod Caret
pub mod Edit
pub mod Fetch
pub mod Schema
pub mod Tokens
pub mod Snippet
pub mod Source
pub mod Completion
pub mod Joined
mod Tests
mod SourceTests
mod FetchTests
mod JoinedTests
