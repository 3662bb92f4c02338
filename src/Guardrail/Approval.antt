-- ===== src/Guardrail/Approval.antt =====
-- core/mcp/guardrail/approval.go and approval_roundtrip.go: asking the user.
pub mod Answers
pub mod Challenges
pub mod Ends
pub mod Served
pub mod Issued
mod Checks
