-- ===== src/State.antt =====
-- core/mcp/state: the inventory that is published, and the operations that are admitted under it.
pub mod Views
pub mod Changes
pub mod Coordinator
pub mod Updates
pub mod History
mod Measures
pub mod Registrations
pub mod Effects
pub mod Transitions
pub mod Limits
pub mod Commitments
pub mod Progress
pub mod Closure
pub mod Removals
pub mod Sets
pub mod Identities
pub mod Walks
pub mod Comparisons
pub mod Admissions
pub mod Exclusion
pub mod Standing
mod Numbers
mod Following
pub mod Permissions
mod Example
mod Checks
