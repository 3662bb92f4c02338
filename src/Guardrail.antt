-- ===== src/Guardrail.antt =====
-- core/mcp/guardrail: how risky a tool call is, and what the policy says of it.
pub mod Risk
pub mod Analyzer
pub mod Classify
pub mod Policy
pub mod Decisions
pub mod Caution
mod Checks
pub mod Levels
pub mod Approval
pub mod Pipeline
