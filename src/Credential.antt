-- ===== src/Credential.antt =====
-- pkg/credential: the cache of credentials that are read from a backend.
pub mod Cache
pub mod Steps
pub mod Tokens
pub mod Limits
pub mod Overtaken
pub mod Fence
pub mod Evictions
pub mod Bounds
pub mod Hits
pub mod Refs
pub mod References
mod Checks
