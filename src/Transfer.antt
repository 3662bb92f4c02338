-- ===== src/Transfer.antt =====
-- core/mcp/transfer: authorized, single-use file transfer tasks.
pub mod Record
pub mod Manager
pub mod Prepare
pub mod Lease
pub mod Commit
pub mod Control
pub mod Management
pub mod Advances
pub mod Steps
pub mod Calls
pub mod History
pub mod Claims
pub mod Commits
pub mod Cancels
pub mod Restart
pub mod Delivery
pub mod Retention
pub mod Capacity
pub mod Limit
pub mod Example
mod Runs
mod Ends
