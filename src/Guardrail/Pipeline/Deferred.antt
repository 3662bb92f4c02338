-- ===== src/Guardrail/Pipeline/Deferred.antt =====
-- core/mcp/guardrail/authorization.go: operations that are authorized now and run later.
use xops_cli.Base.{Bool, true, false, Option, String, if◌then◌else◌, none, some}
use xops_cli.Guardrail.Risk.{RiskInput, Platform}
use xops_cli.Guardrail.Classify.{classify}
use xops_cli.Guardrail.Policy.{Decision, allow, need_approval, deny}
use xops_cli.Guardrail.Approval.Challenges.{Approval, granted, refused, challenge}
use xops_cli.Guardrail.Pipeline.Audit.{AuditEntry, Cause, by_approval, Guardrail, Append, log}
use xops_cli.Guardrail.Pipeline.Asking.{
  on_entry, Stage, Call, on_denial, on_challenge, on_intent, Digest, request_tool_approval,
}
use xops_cli.Guardrail.Pipeline.Calls.{World, entry_for, decide}

-- What Authorize returns: the operation's identifier, a request for approval, or an error
pub data Authorization : Type 0 where
  authorized : String → Authorization
  awaiting : String → Authorization
  not_authorized : Authorization

module _ {ℓ} {In' : Type ℓ} (p : Platform) (g : Guardrail) (append : Append)
    (digest : Digest In') where
  -- An entry's outcome, in the audit, or none where it is not taken
  unfoldable pub log_outcome :
      Call → Stage → AuditEntry → String → Option Cause → World In' → Option (World In')
  log_outcome call stage entry outcome cause l =
      elim (log append g call.scope (call.done stage) l.audit
        (record entry { outcome = outcome; error = cause })) [
          | none ↦ none
          | some audit ↦ some (record l { audit = audit })
        ]

  unfoldable pub refuse : Call → AuditEntry → Option Cause → World In' → Authorization × World In'
  unfolding log_outcome
  refuse call entry cause l = elim (log_outcome call on_denial entry "denied" cause l) [
    | none ↦ (not_authorized, l)
    | some after ↦ (not_authorized, after)
  ]

  unfoldable pub authorize_cleared :
      Call → AuditEntry → String → World In' → Authorization × World In'
  unfolding log_outcome
  authorize_cleared call entry op l = elim (log_outcome call on_intent entry "authorized" none l) [
    | none ↦ (not_authorized, l)
    | some after ↦ (authorized op, after)
  ]

  unfoldable pub authorize_approved :
      Call → AuditEntry → String → Approval → World In' → Authorization × World In'
  unfolding refuse authorize_cleared log_outcome
  authorize_approved call entry op (refused e) l = refuse call entry (some (by_approval e)) l
  authorize_approved call entry op (challenge token) l =
      elim (log_outcome call on_challenge entry "approval_requested" none l) [
        | none ↦ (not_authorized, l)
        | some after ↦ (awaiting token, after)
      ]
  authorize_approved call entry op granted l =
      authorize_cleared call (record entry { decision = "approved" }) op l

  unfoldable pub authorize_decided :
      Call → RiskInput → String → In' → Decision → World In' → Authorization × World In'
  unfolding refuse authorize_cleared authorize_approved
  authorize_decided call ri op input deny l =
      refuse call (entry_for op (classify p ri) deny ri) none l
  authorize_decided call ri op input need_approval l =
      let (approval, pendings) =
        request_tool_approval digest g call (classify p ri) ri input l.pendings in
      authorize_approved call (entry_for op (classify p ri) need_approval ri) op approval
        (record l { pendings = pendings })
  authorize_decided call ri op input allow l =
      authorize_cleared call (entry_for op (classify p ri) allow ri) op l

  unfoldable pub authorize : Call → RiskInput → In' → World In' → Authorization × World In'
  unfolding authorize_decided decide
  authorize call ri input l =
      if call.done on_entry then (not_authorized, l) else elim call.operation_id [
        | none ↦ (not_authorized, l)
        | some op ↦ authorize_decided call ri op input (decide p g call ri) l
      ]

  -- RecordAuthorizedContext: a phase of an operation that is authorized already
  unfoldable pub record_authorized :
      Call → String → RiskInput → String → Option Cause → World In' → Bool × World In'
  unfolding log_outcome
  record_authorized call op ri outcome cause l =
      let entry = record (entry_for op (classify p ri) allow ri) {
        command = "";
        decision = "authorized";
      } in
      elim (log_outcome call on_intent entry outcome cause l) [
        | none ↦ (false, l)
        | some after ↦ (true, after)
      ]
