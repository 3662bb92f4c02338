-- ===== src/Transfer/Record.antt =====
-- core/mcp/transfer/record.go and authorization.go: the approved operation and its journal record.
mod Shape
mod Checks
mod Access
unfoldable pub use Shape.*
unfoldable pub use Checks.*
unfoldable pub use Access.*
