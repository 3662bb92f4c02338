-- ===== src/Concurrent.antt =====
-- core/concurrent: the map that is split into shards.
pub mod Shards
mod Views
mod Batches
pub mod Steps
pub mod Refinement
mod Checks
