-- ===== src/Guardrail/Approval/Answers.antt =====
-- core/mcp/guardrail/approval.go: what an answer to an approval request means, and what stands in
-- for one where the client cannot ask.
use xops_cli.Base.{
  Bool, Option, String, false, if◌then◌else◌, ltb, negate, none, some, ℕ, ◌==◌, ◌||◌, nat_eq,
  string_eq, text_eq,
}
use xops_cli.Guardrail.Risk.{RiskLevel, rank, dangerous}

-- Each of the errors that refuse an operation
pub data ApprovalError : Type 0 where
  approval_cancelled session_unavailable session_uninitialized params_unavailable : ApprovalError
  fallback_denied dangerous_denied request_failed bind_failed : ApprovalError
  empty_response not_granted declined cancelled unexpected_action : ApprovalError
  challenge_expired challenge_mismatch invalid_response too_many_pending no_token : ApprovalError

-- mcp.ElicitResult, with the boolean that its content has under "approved", if it has one there
pub record ElicitResult : Type 0 where
  pub action : String
  pub approved : Option Bool

-- A Go error: none is nil.
unfoldable pub interpret_approval : Option ElicitResult → Option ApprovalError
interpret_approval none = some empty_response
interpret_approval (some r) =
    if r.action == "accept"
    then elim r.approved [
      | none ↦ some not_granted
      | some agreed ↦ if agreed then none else some not_granted
    ]
    else if r.action == "decline"
    then some declined
    else if r.action == "cancel"
    then some cancelled
    else some unexpected_action

unfoldable pub apply_fallback : ApprovalError → RiskLevel → String → Option ApprovalError
apply_fallback cause risk fallback =
    if fallback == "allow"
    then none
    else if fallback == "downgrade"
    then if ltb (rank risk) (rank dangerous) then none else some dangerous_denied
    else some cause

pub record Elicitation : Type 0 where
  pub form : Bool
  pub url : Bool

pub record InitializeParams : Type 0 where
  pub protocol_version : String
  pub capabilities : Option (Option Elicitation)

-- mcp.ServerSession; its number is its identity.
pub record Session : Type 0 where
  pub id : ℕ
  pub initialize : Option InitializeParams

unfoldable pub supports_form : InitializeParams → Bool
supports_form init = elim init.capabilities [
  | none ↦ false
  | some none ↦ false
  | some (some e) ↦ e.form || negate e.url
]

-- What session.Elicit gives: an answer, the client's error that it has no such method, or another
-- one.
pub data Elicited : Type 0 where
  answered : Option ElicitResult → Elicited
  method_not_found elicit_failed : Elicited

-- The context's state when the request starts and when the client has answered
pub record Waiting : Type 0 where
  pub done_before : Bool
  pub done_after : Bool
  pub elicited : Elicited

unfoldable pub request_approval :
    Waiting → Option Session → RiskLevel → String → Option ApprovalError
unfolding interpret_approval apply_fallback supports_form
request_approval waiting none risk fallback = some session_unavailable
request_approval waiting (some session) risk fallback =
    if waiting.done_before then some approval_cancelled else elim session.initialize [
      | none ↦ some session_uninitialized
      | some init ↦
          if negate (supports_form init)
          then apply_fallback fallback_denied risk fallback
          else elim waiting.elicited [
            | answered result ↦ interpret_approval result
            | method_not_found ↦
                if waiting.done_after
                then some request_failed
                else apply_fallback request_failed risk fallback
            | elicit_failed ↦ some request_failed
          ]
    ]
