-- ===== src/Guardrail/Pipeline.antt =====
-- core/mcp/guardrail/guardrail.go, context.go, audit.go and authorization.go: a tool call from its
-- classification to the audit of its outcome.
pub mod Audit
pub mod Asking
pub mod Calls
pub mod Entries
pub mod Executions
pub mod Clearance
pub mod Trail
pub mod Fallback
pub mod Deferred
pub mod Authorized
mod Checks
