-- ===== src/Session.antt =====
-- core/mcp/session: the terminal sessions that a manager keeps, and the slots for new ones.
pub mod Table
pub mod Waits
pub mod Steps
pub mod Counts
pub mod Dials
pub mod Slots
mod Joins
pub mod Turns
pub mod Closing
mod Checks
