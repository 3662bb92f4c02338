-- ===== src/Guardrail/Pipeline/Asking.antt =====
-- core/mcp/guardrail/approval_roundtrip.go: how a tool call is put to the user.
use xops_cli.Base.{
  Bool, In, List, Option, String, [], codes, false, if◌then◌else◌, ltb, negate, none, some, true, ℕ,
  ◌&&◌, ◌==◌, ◌||◌, ◌∷◌, nat_eq, string_eq, text_eq,
}
use xops_cli.Base.Dict.{Dict}
use xops_cli.Guardrail.Risk.{RiskLevel, RiskInput}
use xops_cli.Guardrail.Policy.{Config}
use xops_cli.Guardrail.Approval.Answers.{
  approval_cancelled, session_unavailable, params_unavailable, fallback_denied, bind_failed,
  apply_fallback, Session, InitializeParams, supports_form, Elicited, request_approval,
}
use xops_cli.Guardrail.Approval.Challenges.{
  Pendings, Response, Approval, refused, to_approval, advance_approval,
}
use xops_cli.Guardrail.Pipeline.Audit.{Guardrail, invocation}

-- The places where the code asks whether the context is done
pub data Stage : Type 0 where
  on_entry on_approval on_request on_answer on_denial on_challenge on_intent : Stage

pub record Params : Type 0 where
  pub request_state : String
  pub input_responses : Dict String Response

-- One tool call: the context, the request, the clock, and the identifiers that are generated for
-- the operation and for a challenge
pub record Call : Type 0 where
  pub done : Stage → Bool
  pub scope : Option (Config × String)
  pub session : Option Session
  pub params : Option Params
  pub elicited : Elicited
  pub now : ℕ
  pub deadline : Option ℕ
  pub operation_id : Option String
  pub token : Option String

text_lt : List ℕ → List ℕ → Bool
text_lt s [] = false
text_lt [] (d ∷ t) = true
text_lt (c ∷ s) (d ∷ t) = ltb c d || c == d && text_lt s t

unfoldable pub speaks_round_trips : InitializeParams → Bool
unfolding text_lt
speaks_round_trips init = negate (text_lt (codes init.protocol_version) (codes "2026-07-28"))

unfoldable pub request_directly : Call → Session → RiskLevel → String → Approval
request_directly call session risk fallback = to_approval (
    request_approval
      (record {
        done_before = call.done on_request;
        done_after = call.done on_answer;
        elicited = call.elicited;
      })
      (some session) risk fallback)

-- The digest of the risk, its input, the tool's input and the binding: encoding/json and
-- crypto/sha256, with none where the input cannot be marshalled
abbrev pub Digest {ℓ} : Type ℓ → Type ℓ
Digest In = RiskLevel → RiskInput → In → String → Option (List ℕ)

module _ {ℓ} {In : Type ℓ} (digest : Digest In) where
  unfoldable pub request_round_trip :
      Call → Session → RiskLevel → RiskInput → In → String → Pendings → Approval × Pendings
  request_round_trip call session risk ri input binding pendings = elim call.params [
    | none ↦ (refused params_unavailable, pendings)
    | some params ↦ elim (digest risk ri input binding) [
      | none ↦ (refused bind_failed, pendings)
      | some sum ↦
          advance_approval
            (record {
              now = call.now;
              deadline = call.deadline;
              session = session.id;
              request_state = params.request_state;
              input_responses = params.input_responses;
              digest = sum;
              operation_id = call.token;
            })
            pendings
    ]
  ]

  unfoldable pub request_tool_approval :
      Guardrail → Call → RiskLevel → RiskInput → In → Pendings → Approval × Pendings
  unfolding request_directly request_round_trip
  request_tool_approval g call risk ri input pendings =
      let (_, fallback, binding) = invocation g call.scope in
      if call.done on_approval then (refused approval_cancelled, pendings) else elim call.session [
        | none ↦ (refused session_unavailable, pendings)
        | some session ↦ elim session.initialize [
          | none ↦ (request_directly call session risk fallback, pendings)
          | some init ↦
              if negate (speaks_round_trips init)
              then (request_directly call session risk fallback, pendings)
              else if negate (supports_form init)
              then (to_approval (apply_fallback fallback_denied risk fallback), pendings)
              else request_round_trip call session risk ri input binding pendings
        ]
      ]
