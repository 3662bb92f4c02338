-- ===== src/Transfer/Prepare.antt =====
-- core/mcp/transfer/manager.go and authorization.go: preparing tasks and collecting the expired.
mod Issue
mod Requests
unfoldable pub use Issue.*
unfoldable pub use Requests.*
