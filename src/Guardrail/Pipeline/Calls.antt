-- ===== src/Guardrail/Pipeline/Calls.antt =====
-- core/mcp/guardrail/guardrail.go and authorization.go: tool calls and deferred operations.
use xops_cli.Base.{
  Bool, List, Option, String, [], false, none, some, true, ℕ, ◌++◌, ◌∷◌, nat_eq, string_eq, text_eq,
}
use xops_cli.Base.Dict.{Dict, put}
use xops_cli.Guardrail.Risk.{RiskLevel, RiskInput, Platform}
use xops_cli.Guardrail.Classify.{classify}
use xops_cli.Guardrail.Policy.{Decision, allow, need_approval, deny, evaluate}
use xops_cli.Guardrail.Approval.Answers.{ApprovalError}
use xops_cli.Guardrail.Approval.Challenges.{Pendings, Approval, granted, refused, challenge}
use xops_cli.Guardrail.Pipeline.Audit.{
  AuditEntry, Cause, by_approval, by_handler, Guardrail, Append, invocation, log, risk_string,
  decision_string,
}
use xops_cli.Guardrail.Pipeline.Asking.{
  Call, on_denial, on_challenge, on_intent, Digest, request_tool_approval,
}

pub record AuditMeta : Type 0 where
  pub operation_id : String
  pub executed : Bool
  pub audit_failed : Bool
  pub retryable : Bool

-- A value of a result's Meta, and a part of its content: the handler's, by number, or the
-- guardrail's
pub data MetaValue : Type 0 where
  handler_meta : ℕ → MetaValue
  audit_meta : AuditMeta → MetaValue

pub data Content : Type 0 where
  handler_content : ℕ → Content
  audit_warning : String → Content

pub record CallToolResult : Type 0 where
  pub content : List Content
  pub meta : Dict String MetaValue
  pub request_state : String

-- The errors of a call; the Boolean says whether the refusal or the outcome has been audited.
pub data ToolError {ℓ} (E : Type ℓ) : Type ℓ where
  context_done no_operation_id unaudited_challenge unaudited_intent : ToolError E
  denied_by_policy : Bool → ToolError E
  approval_refused : ApprovalError → Bool → ToolError E
  handler_failed : E → Bool → ToolError E

-- What the handler and the wrapped call return; an output of none is the type's zero value.
pub record Reply {ℓ} (Out E : Type ℓ) : Type ℓ where
  pub result : Option CallToolResult
  pub output : Option Out
  pub error : Option E

-- The entries taken by the audit's destination, the operations that the handler has run, and the
-- challenges that wait
pub record World {ℓ} (In : Type ℓ) : Type ℓ where
  pub audit : List AuditEntry
  pub executed : List (String × In)
  pub pendings : Pendings

abbrev pub fail {ℓ} : {Out E : Type ℓ} → ToolError E → Reply Out (ToolError E)
fail e = record { result = none; output = none; error = some e }

pub audit_meta_key : String
audit_meta_key = "io.xops.audit"

-- The result of an operation that has run, with the warning that it is not audited
unfoldable pub warned : String → Option CallToolResult → CallToolResult
warned op result =
    let own : CallToolResult = elim result [
      | none ↦ record { content = []; meta = []; request_state = "" }
      | some r ↦ r
    ] in
    record own {
      content = own.content ++ audit_warning op ∷ [];
      meta = put own.meta audit_meta_key (
          audit_meta (record {
            operation_id = op;
            executed = true;
            audit_failed = true;
            retryable = false;
          }));
    }

unfoldable pub entry_for : String → RiskLevel → Decision → RiskInput → AuditEntry
unfolding risk_string decision_string
entry_for op risk decision ri = record {
  operation_id = op;
  tool = ri.tool_name;
  node_id = ri.node_id;
  node_ids = ri.node_ids;
  command = ri.command;
  paths = ri.paths;
  risk_level = risk_string risk;
  decision = decision_string decision;
  outcome = "";
  error = none;
  binding = "";
}

unfoldable pub decide : Platform → Guardrail → Call → RiskInput → Decision
unfolding invocation
decide p g call ri = evaluate p (invocation g call.scope).0 (classify p ri) ri

-- The input with the name under which the tool is registered
unfoldable pub named : String → RiskInput → RiskInput
named tool_name ri = record ri { tool_name = tool_name }

unfoldable pub log_refusal {ℓ} :
    {In : Type ℓ}
    → Guardrail
    → Append
    → Call
    → AuditEntry
    → Option Cause
    → World In
    → Bool × World In
log_refusal g append call entry cause w =
    let denial = record entry { outcome = "denied"; error = cause } in
    elim (log append g call.scope (call.done on_denial) w.audit denial) [
      | none ↦ (false, w)
      | some audit ↦ (true, record w { audit = audit })
    ]

unfoldable pub outcome_entry {ℓ} : {E : Type ℓ} → AuditEntry → Option E → AuditEntry
outcome_entry entry none = record entry { outcome = "executed" }
outcome_entry entry (some e) = record entry { outcome = "error"; error = some by_handler }

-- What follows the handler: its outcome is audited in a context of its own, which is not done.
unfoldable pub after_handler {ℓ} :
    {In Out E : Type ℓ}
    → Guardrail
    → Append
    → Call
    → AuditEntry
    → String
    → Reply Out E
    → World In
    → Reply Out (ToolError E) × World In
unfolding warned outcome_entry
after_handler g append call entry op reply w =
    elim (log append g call.scope false w.audit (outcome_entry entry reply.error)) [
      | some audit ↦ (
        record {
          result = reply.result;
          output = reply.output;
          error = elim reply.error [ none ↦ none | some e ↦ some (handler_failed e true) ];
        },
        record w { audit = audit },
      )
      | none ↦ elim reply.error [
        | some e ↦ (
          record { result = reply.result; output = none; error = some (handler_failed e false) },
          w,
        )
        | none ↦ (
          record { result = some (warned op reply.result); output = reply.output; error = none },
          w,
        )
      ]
    ]

-- What is the same for all calls: the guardrail, the answers of the platform and of the audit's
-- destination, and the digests
module _ {ℓ} {In Out E : Type ℓ} (p : Platform) (g : Guardrail) (append : Append)
    (digest : Digest In) where
  -- From the intent's entry on
  unfoldable pub run_handler :
      Call
      → AuditEntry
      → String
      → (In → Reply Out E)
      → In
      → World In
      → Reply Out (ToolError E) × World In
  unfolding after_handler
  run_handler call entry op handler input w =
      let intent = record entry { outcome = "intent" } in
      elim (log append g call.scope (call.done on_intent) w.audit intent) [
        | none ↦ (fail unaudited_intent, w)
        | some intended ↦
            after_handler g append call entry op (handler input)
              (record w { audit = intended; executed = w.executed ++ (op, input) ∷ [] })
      ]

  unfoldable pub call_approved :
      Call
      → AuditEntry
      → String
      → (In → Reply Out E)
      → In
      → Approval
      → World In
      → Reply Out (ToolError E) × World In
  unfolding log_refusal run_handler
  call_approved call entry op handler input (refused e) w =
      let (audited, after) = log_refusal g append call entry (some (by_approval e)) w in
      (fail (approval_refused e audited), after)
  call_approved call entry op handler input (challenge token) w =
      elim (log append g call.scope (call.done on_challenge) w.audit
        (record entry { outcome = "approval_requested" })) [
          | none ↦ (fail unaudited_challenge, w)
          | some audit ↦ (
            record {
              result = some (record { content = []; meta = []; request_state = token });
              output = none;
              error = none;
            },
            record w { audit = audit },
          )
        ]
  call_approved call entry op handler input granted w =
      run_handler call (record entry { decision = "approved" }) op handler input w

  unfoldable pub call_decided :
      Call
      → RiskInput
      → String
      → (In → Reply Out E)
      → In
      → Decision
      → World In
      → Reply Out (ToolError E) × World In
  unfolding log_refusal run_handler call_approved
  call_decided call ri op handler input deny w =
      let (audited, after) =
        log_refusal g append call (entry_for op (classify p ri) deny ri) none w in
      (fail (denied_by_policy audited), after)
  call_decided call ri op handler input need_approval w =
      let (approval, pendings) =
        request_tool_approval digest g call (classify p ri) ri input w.pendings in
      call_approved call (entry_for op (classify p ri) need_approval ri) op handler input approval
        (record w { pendings = pendings })
  call_decided call ri op handler input allow w =
      run_handler call (entry_for op (classify p ri) allow ri) op handler input w

  unfoldable pub with_guardrail :
      String
      → (In → RiskInput)
      → (In → Reply Out E)
      → Call
      → In
      → World In
      → Reply Out (ToolError E) × World In
  unfolding decide call_decided
  with_guardrail tool_name risk_input handler call input w = elim call.operation_id [
    | none ↦ (fail no_operation_id, w)
    | some op ↦
        let ri = named tool_name (risk_input input) in
        call_decided call ri op handler input (decide p g call ri) w
  ]
