-- ===== src/Guardrail/Pipeline/Fallback.antt =====
-- core/mcp/guardrail/approval.go and approval_roundtrip.go: clients that cannot ask the user.
use xops_cli.Base.{
  ==→eq, Bool-cases, String, arith, false, inl, inr, ltb, ltb→lt, some, ◌<◌, ◌==◌, ◌≡◌, ◌⊎◌, nat_eq,
  string_eq, text_eq,
}
use xops_cli.Guardrail.Risk.{RiskLevel, RiskInput}
use xops_cli.Guardrail.Approval.Answers.{ApprovalError}
use xops_cli.Guardrail.Approval.Challenges.{Pendings, granted}
use xops_cli.Guardrail.Pipeline.Audit.{Guardrail, invocation}
use xops_cli.Guardrail.Pipeline.Asking.{Call, Digest, request_tool_approval}
use xops_cli.Guardrail.Risk.{dangerous, rank}
use xops_cli.Guardrail.Approval.Answers.{
  fallback_denied, apply_fallback, Session, InitializeParams, supports_form, request_approval,
}
use xops_cli.Guardrail.Approval.Challenges.{to_approval}
use xops_cli.Guardrail.Pipeline.Asking.{request_directly}

fallback-granted :
    (cause : ApprovalError) (risk : RiskLevel) (fallback : String)
    → to_approval (apply_fallback cause risk fallback) ≡ granted
    → (fallback ≡ "allow") ⊎ ((fallback ≡ "downgrade") × (rank risk < rank dangerous))
unfolding apply_fallback
fallback-granted cause risk fallback h = elim (Bool-cases (fallback == "allow")) [
  | inl e ↦ inl (==→eq fallback "allow" e)
  | inr e ↦ elim (Bool-cases (fallback == "downgrade")) [
    | inl f ↦ elim (Bool-cases (ltb (rank risk) (rank dangerous))) [
      | inl low ↦ inr (==→eq fallback "downgrade" f, ltb→lt (rank risk) (rank dangerous) low)
      | inr high ↦ absurd (ground (arith, e, f, high))
    ]
    | inr f ↦ absurd (ground (arith, e, f))
  ]
]

module _ {ℓ} {In' : Type ℓ} (g : Guardrail) (digest : Digest In') where
  -- Where the session's client cannot show a form, an approval is only granted by the fallback of
  -- the invocation: one that allows, or one that downgrades, for a risk that is not dangerous.
  pub unattended-granted :
      (call : Call) (session : Session) (init : InitializeParams) (risk : RiskLevel)
      (ri : RiskInput) (input : In') (before after : Pendings)
      → call.session ≡ some session
      → session.initialize ≡ some init
      → supports_form init ≡ false
      → request_tool_approval digest g call risk ri input before ≡ (granted, after)
      → let fallback = (invocation g call.scope).1 in
        (fallback ≡ "allow") ⊎ ((fallback ≡ "downgrade") × (rank risk < rank dangerous))
  unfolding request_tool_approval request_directly request_approval
  unattended-granted call session init risk ri input before after s i u h =
      fallback-granted fallback_denied risk (invocation g call.scope).1 (ground (arith, s, i, u))
