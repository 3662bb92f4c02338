-- ===== src/Ports.antt =====
-- core/mcp/ports: operation snapshots, the bindings that tie an approval to one of them, and
-- the permits that an execution gate issues.
mod Kinds
mod Bindings
mod Permits
unfoldable pub use Kinds.*
unfoldable pub use Bindings.*
unfoldable pub use Permits.*
