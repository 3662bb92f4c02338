-- ===== src/Guardrail/Pipeline/Authorized.antt =====
-- core/mcp/guardrail/authorization.go: what an authorization rests on.
use xops_cli.Base.{
  In, Option, Option-cases, String, ap, arith, inl, inr, none, refl, some, subst, sym, true, ◌∙◌,
  ◌≡◌, ◌≢◌,
}
use xops_cli.Guardrail.Risk.{RiskLevel, RiskInput, Platform}
use xops_cli.Guardrail.Classify.{classify}
use xops_cli.Guardrail.Policy.{Decision, allow, need_approval, deny}
use xops_cli.Guardrail.Approval.Challenges.{Pendings, Approval, granted, refused, challenge}
use xops_cli.Guardrail.Pipeline.Audit.{AuditEntry, Cause, by_approval, Guardrail, Append, log}
use xops_cli.Guardrail.Pipeline.Asking.{
  Call, on_denial, on_challenge, on_intent, Digest, request_tool_approval,
}
use xops_cli.Guardrail.Pipeline.Entries.{records, log-Logged}
use xops_cli.Guardrail.Pipeline.Calls.{World, entry_for, decide}
use xops_cli.Guardrail.Pipeline.Executions.{bound}
use xops_cli.Guardrail.Pipeline.Clearance.{Cleared, by_policy, by_user, cleared_entry}
use xops_cli.Guardrail.Pipeline.Deferred.{
  authorized, log_outcome, refuse, authorize_cleared, authorize_approved, authorize_decided,
  authorize,
}

-- What an authorization rests on
pub record AuthorizedBy {ℓ} {In' : Type ℓ} (g : Guardrail) (digest : Digest In') (call : Call)
    (risk : RiskLevel) (ri : RiskInput) (input : In') (w : World In') (decision : Decision)
    (op : String) (after : World In') : Type ℓ where
  pub clearance : Cleared g digest call risk ri input w decision
  pub nothing_run : after.executed ≡ w.executed
  pub taken :
      records g ≡ true
      → In
          (bound g call (record (cleared_entry decision risk ri op) { outcome = "authorized" }))
          after.audit

module _ {ℓ} {In' : Type ℓ} (p : Platform) (g : Guardrail) (append : Append)
    (digest : Digest In') where
  cleared-taken :
      (call : Call) (entry : AuditEntry) (op op' : String) (w after : World In')
      → authorize_cleared p g append digest call entry op w ≡ (authorized op', after)
      → (op ≡ op')
        × (after.executed ≡ w.executed)
        × (records g ≡ true
            → In (bound g call (record entry { outcome = "authorized"; error = none })) after.audit)
  unfolding authorize_cleared log_outcome
  cleared-taken call entry op op' w after h =
      let authorization : AuditEntry = record entry { outcome = "authorized"; error = none } in
      elim (Option-cases (log append g call.scope (call.done on_intent) w.audit authorization)) [
        | inl e ↦ absurd (ground (arith, e))
        | inr (audit, e) ↦
            let l =
              log-Logged append g call.scope (call.done on_intent) w.audit authorization audit e in
            let same : record w { audit = audit } ≡ after = ground (arith, e) in
            (
              ground (arith, e),
              sym (ap (λ v. v.executed) same),
              λ r. subst (λ v. In (bound g call authorization) v.audit) same (l.taken r),
            )
      ]

  refuse-stops :
      (call : Call) (entry : AuditEntry) (cause : Option Cause) (op : String) (w after : World In')
      → refuse p g append digest call entry cause w ≢ (authorized op, after)
  unfolding refuse
  refuse-stops call entry cause op w after = λ h.
      elim (Option-cases (log_outcome p g append digest call on_denial entry "denied" cause w)) [
        | inl e ↦ absurd (ground (arith, e))
        | inr (v, e) ↦ absurd (ground (arith, e))
      ]

  approved-AuthorizedBy :
      (call : Call) (ri : RiskInput) (op op' : String) (input : In') (a : Approval)
      (pendings : Pendings) (w after : World In')
      → request_tool_approval digest g call (classify p ri) ri input w.pendings ≡ (a, pendings)
      → authorize_approved p g append digest call
          (entry_for op (classify p ri) need_approval ri)
          op
          a
          (record w { pendings = pendings })
        ≡ (authorized op', after)
      → (op ≡ op') × AuthorizedBy g digest call (classify p ri) ri input w need_approval op after
  unfolding authorize_approved cleared_entry entry_for
  approved-AuthorizedBy call ri op op' input (refused e) pendings w after s h = absurd (
      refuse-stops call (entry_for op (classify p ri) need_approval ri) (some (by_approval e)) op'
        (record w { pendings = pendings }) after h)
  approved-AuthorizedBy call ri op op' input (challenge token) pendings w after s h =
      let entry = entry_for op (classify p ri) need_approval ri in
      elim (Option-cases (
        log_outcome p g append digest call on_challenge entry "approval_requested" none
          (record w { pendings = pendings }))) [
            | inl e ↦ absurd (ground (arith, e))
            | inr (v, e) ↦ absurd (ground (arith, e))
          ]
  approved-AuthorizedBy call ri op op' input granted pendings w after s h =
      let (same, idle, taken) =
        cleared-taken call
          (record (entry_for op (classify p ri) need_approval ri) { decision = "approved" }) op op'
          (record w { pendings = pendings }) after h in
      (same, record { clearance = by_user pendings s; nothing_run = idle; taken = taken })

  decided-AuthorizedBy :
      (call : Call) (ri : RiskInput) (op op' : String) (input : In') (d : Decision)
      (w after : World In')
      → authorize_decided p g append digest call ri op input d w ≡ (authorized op', after)
      → (op ≡ op') × AuthorizedBy g digest call (classify p ri) ri input w d op after
  unfolding authorize_decided cleared_entry entry_for
  decided-AuthorizedBy call ri op op' input deny w after h =
      absurd (refuse-stops call (entry_for op (classify p ri) deny ri) none op' w after h)
  decided-AuthorizedBy call ri op op' input need_approval w after h =
      approved-AuthorizedBy call ri op op' input _ _ w after refl h
  decided-AuthorizedBy call ri op op' input allow w after h =
      let (same, idle, taken) =
        cleared-taken call (entry_for op (classify p ri) allow ri) op op' w after h in
      (same, record { clearance = by_policy; nothing_run = idle; taken = taken })

  -- An authorization carries the identifier generated for the call, and is only given where the
  -- policy allows the operation, or asks for an approval that was granted. No handler has run, and
  -- the authorization's entry is in the audit, if the audit's destination writes entries down.
  pub authorize-AuthorizedBy :
      (call : Call) (ri : RiskInput) (input : In') (w : World In') (op : String) (after : World In')
      → authorize p g append digest call ri input w ≡ (authorized op, after)
      → (call.operation_id ≡ some op)
        × AuthorizedBy g digest call (classify p ri) ri input w (decide p g call ri) op after
  unfolding authorize
  authorize-AuthorizedBy call ri input w op after h = elim (Option-cases call.operation_id) [
    | inl e ↦ absurd (ground (arith, e))
    | inr (op', e) ↦
        let (same, by) =
          decided-AuthorizedBy call ri op' op input (decide p g call ri) w after
            (ground (arith, e)) in
        (
          e ∙ ap some same,
          subst
              (λ o.
                AuthorizedBy g digest call (classify p ri) ri input w (decide p g call ri) o after)
              same by,
        )
  ]
