-- ===== src/Patch.antt =====
-- core/mcp/patch/patch.go: search and replace blocks, and how they change a file.
pub mod Text
pub mod Blocks
pub mod Edit
mod Occurrences
pub mod Windows
pub mod Edits
pub mod Endings
pub mod RoundTrip
mod Checks
