-- ===== src/Guardrail/Pipeline/Clearance.antt =====
-- core/mcp/guardrail/guardrail.go: what clears a tool call, and how the call ends.
use xops_cli.Base.{
  In, Option, Option-cases, String, [], arith, inl, inr, none, refl, some, subst, sym, ◌∙◌, ◌≡◌,
  ◌⊎◌,
}
use xops_cli.Guardrail.Risk.{RiskLevel, RiskInput, Platform}
use xops_cli.Guardrail.Classify.{classify}
use xops_cli.Guardrail.Policy.{Decision, allow, need_approval, deny}
use xops_cli.Guardrail.Approval.Challenges.{Pendings, Approval, granted, refused, challenge}
use xops_cli.Guardrail.Pipeline.Audit.{AuditEntry, Cause, by_approval, Guardrail, Append, log}
use xops_cli.Guardrail.Pipeline.Asking.{
  Call, on_denial, on_challenge, Digest, request_tool_approval,
}
use xops_cli.Guardrail.Pipeline.Entries.{log-Logged}
use xops_cli.Guardrail.Pipeline.Calls.{
  ToolError, unaudited_intent, Reply, World, entry_for, named, decide, log_refusal, run_handler,
  call_approved, call_decided, with_guardrail,
}
use xops_cli.Guardrail.Pipeline.Executions.{Ran, RunEnd, unaudited, ran, run_handler-ends}

-- The entry of a call that the policy allows, or that the user has approved
unfoldable pub cleared_entry : Decision → RiskLevel → RiskInput → String → AuditEntry
cleared_entry allow risk ri op = entry_for op risk allow ri
cleared_entry need_approval risk ri op = record (entry_for op risk need_approval ri) {
  decision = "approved";
}
cleared_entry deny risk ri op = entry_for op risk deny ri

-- What clears a call: the policy allows it, or asks for an approval that is granted.
pub data Cleared {ℓ} {In' : Type ℓ} (g : Guardrail) (digest : Digest In') (call : Call)
    (risk : RiskLevel) (ri : RiskInput) (input : In') (w : World In') : Decision → Type ℓ where
  by_policy : Cleared g digest call risk ri input w allow
  by_user :
      (pendings : Pendings)
      → request_tool_approval digest g call risk ri input w.pendings ≡ (granted, pendings)
      → Cleared g digest call risk ri input w need_approval

-- The reply is an error or asks for an approval.
unfoldable pub Stopped {ℓ} : {Out E : Type ℓ} → Reply Out E → Type ℓ
Stopped {E = E} reply =
    ((e : E) × (reply.error ≡ some e))
    ⊎ ((token : String) × (reply.result
          ≡ some (record { content = []; meta = []; request_state = token })))

-- How a call ends: without a run of the handler, or cleared and with one
pub data CallEnd {ℓ} {In' Out E : Type ℓ} (g : Guardrail) (digest : Digest In') (call : Call)
    (risk : RiskLevel) (ri : RiskInput) (op : String) (input : In') (handled : Reply Out E)
    (w : World In') (decision : Decision) : Reply Out (ToolError E) × World In' → Type ℓ where
  idle :
      (reply : Reply Out (ToolError E)) (after : World In')
      → after.executed ≡ w.executed
      → ((x : AuditEntry) → In x w.audit → In x after.audit)
      → Stopped reply
      → CallEnd g digest call risk ri op input handled w decision (reply, after)
  cleared :
      (reply : Reply Out (ToolError E)) (after : World In')
      → Cleared g digest call risk ri input w decision
      → Ran g call (cleared_entry decision risk ri op) op input handled w reply after
      → CallEnd g digest call risk ri op input handled w decision (reply, after)

log_refusal-grown {ℓ} :
    {In' : Type ℓ} (g : Guardrail) (append : Append) (call : Call) (entry : AuditEntry)
    (cause : Option Cause) (w : World In')
    → ((log_refusal g append call entry cause w).1.executed ≡ w.executed)
      × ((x : AuditEntry) → In x w.audit → In x (log_refusal g append call entry cause w).1.audit)
unfolding log_refusal
log_refusal-grown g append call entry cause w =
    let denial : AuditEntry = record entry { outcome = "denied"; error = cause } in
    elim (Option-cases (log append g call.scope (call.done on_denial) w.audit denial)) [
      | inl e ↦ rw (log_refusal, e) (refl, λ x m. m)
      | inr (audit, e) ↦
          rw (log_refusal, e)
            (
              refl,
              (log-Logged append g call.scope (call.done on_denial) w.audit denial audit e).grown,
            )
    ]

module _ {ℓ} {In' Out E : Type ℓ} (p : Platform) (g : Guardrail) (append : Append)
    (digest : Digest In') where
  run-CallEnd :
      (call : Call) (risk : RiskLevel) (ri : RiskInput) (op : String) (handler : In' → Reply Out E)
      (input : In') (w v : World In') (d : Decision)
      → v.executed ≡ w.executed
      → v.audit ≡ w.audit
      → Cleared g digest call risk ri input w d
      → CallEnd g digest call risk ri op input
          (handler input)
          w
          d
          (run_handler p g append digest call (cleared_entry d risk ri op) op handler input v)
  unfolding Stopped
  run-CallEnd call risk ri op handler input w v d same_runs same_audit c =
      ends _
        (run_handler-ends p g append digest call (cleared_entry d risk ri op) op handler input v)
    where
      ends :
          (end : Reply Out (ToolError E) × World In')
          → RunEnd g call (cleared_entry d risk ri op) op input (handler input) v end
          → CallEnd g digest call risk ri op input (handler input) w d end
      ends end unaudited =
          idle _ v same_runs (λ x m. rw same_audit m) (inl (unaudited_intent, refl))
      ends end (ran reply after r) = cleared reply after c (record {
        once = r.once ∙ rw same_runs refl;
        intended = r.intended;
        grown = λ x m. r.grown x (rw same_audit m);
        succeeded = r.succeeded;
        failed = r.failed;
      })

  approved-CallEnd :
      (call : Call) (ri : RiskInput) (op : String) (handler : In' → Reply Out E) (input : In')
      (w : World In') (a : Approval) (pendings : Pendings)
      → request_tool_approval digest g call (classify p ri) ri input w.pendings ≡ (a, pendings)
      → CallEnd g digest call (classify p ri) ri op input (handler input) w need_approval (
          call_approved p g append digest call
            (entry_for op (classify p ri) need_approval ri)
            op
            handler
            input
            a
            (record w { pendings = pendings }))
  unfolding call_approved cleared_entry Stopped
  approved-CallEnd call ri op handler input w granted pendings h =
      run-CallEnd call (classify p ri) ri op handler input w (record w { pendings = pendings })
        need_approval refl refl (by_user pendings h)
  approved-CallEnd call ri op handler input w (refused e) pendings h =
      let (same, grown) =
        log_refusal-grown g append call (entry_for op (classify p ri) need_approval ri)
          (some (by_approval e)) (record w { pendings = pendings }) in
      idle _ _ same grown (inl (_, refl))
  approved-CallEnd call ri op handler input w (challenge token) pendings h =
      let entry : AuditEntry = record (entry_for op (classify p ri) need_approval ri) {
        outcome = "approval_requested";
      } in
      elim (Option-cases (log append g call.scope (call.done on_challenge) w.audit entry)) [
        | inl e ↦ rw (call_approved, e) (idle _ _ refl (λ x m. m) (inl (_, refl)))
        | inr (audit, e) ↦
            rw (call_approved, e)
              (idle _ _ refl
                (log-Logged append g call.scope (call.done on_challenge) w.audit entry audit
                  e).grown
                (inr (token, refl)))
      ]

  decided-CallEnd :
      (call : Call) (ri : RiskInput) (op : String) (handler : In' → Reply Out E) (input : In')
      (w : World In') (d : Decision)
      → CallEnd g digest call
          (classify p ri)
          ri
          op
          input
          (handler input)
          w
          d
          (call_decided p g append digest call ri op handler input d w)
  unfolding call_decided cleared_entry Stopped
  decided-CallEnd call ri op handler input w allow =
      run-CallEnd call (classify p ri) ri op handler input w w allow refl refl by_policy
  decided-CallEnd call ri op handler input w need_approval =
      approved-CallEnd call ri op handler input w _ _ refl
  decided-CallEnd call ri op handler input w deny =
      let (same, grown) =
        log_refusal-grown g append call (entry_for op (classify p ri) deny ri) none w in
      idle _ _ same grown (inl (_, refl))

  -- A tool call with an operation's identifier ends in one of two ways. Either the handler has
  -- not run, the audit has lost no entry, and the reply is an error or a request for approval. Or
  -- the policy allows the call, or asks for an approval that was granted, and the handler has run
  -- once on the call's input: the entry that announces it is in the audit, if its destination
  -- writes entries down; a handler's error is reported; and where it has none the reply is no
  -- error, with its output, and either the entry of its success is in the audit too or the result
  -- carries the warning that it is not and must not be retried.
  pub with_guardrail-ends :
      (tool_name : String) (risk_input : In' → RiskInput) (handler : In' → Reply Out E)
      (call : Call) (input : In') (w : World In') (op : String)
      → call.operation_id ≡ some op
      → let ri = named tool_name (risk_input input) in
        CallEnd g digest call
          (classify p ri)
          ri
          op
          input
          (handler input)
          w
          (decide p g call ri)
          (with_guardrail p g append digest tool_name risk_input handler call input w)
  with_guardrail-ends tool_name risk_input handler call input w op h =
      let ri = named tool_name (risk_input input) in
      let same : with_guardrail p g append digest tool_name risk_input handler call input w
          ≡ call_decided p g append digest call ri op handler input (decide p g call ri) w =
        unfold with_guardrail in ground (arith, h) in
      subst
        (CallEnd g digest call (classify p ri) ri op input (handler input) w (decide p g call ri))
        (sym same) (decided-CallEnd call ri op handler input w (decide p g call ri))
