-- ===== src/Guardrail/Approval/Challenges.antt =====
-- core/mcp/guardrail/approval_roundtrip.go: the challenges that wait for an answer.
use xops_cli.Base.{
  Bool, List, Option, String, [], false, if◌then◌else◌, leb, length, ltb, none, some, ℕ, ◌!=◌, ◌+◌,
  ◌==◌, ◌||◌, ◌∷◌, nat_eq, string_eq, text_eq,
}
use xops_cli.Base.Dict.{Dict, get, put, delete}
use xops_cli.Guardrail.Approval.Answers.{
  ApprovalError, challenge_expired, challenge_mismatch, invalid_response, too_many_pending,
  no_token, ElicitResult, interpret_approval,
}

-- Times are counted in nanoseconds.
abbrev pub approval_lifetime : ℕ
approval_lifetime = 120000000000

abbrev pub max_pending : ℕ
max_pending = 256

pub record PendingApproval : Type 0 where
  pub session : ℕ
  pub digest : List ℕ
  pub expires : ℕ

abbrev pub Pendings : Type 0
Pendings = Dict String PendingApproval

-- A value of req.Params.InputResponses: an ElicitResult, nil included, or another one
pub data Response : Type 0 where
  elicit_response : Option ElicitResult → Response
  other_response : Response

-- One call of advanceApproval: the clock, the context's deadline, the request, the digest that
-- its caller has computed, and the identifier that generateOperationID gives, if it gives one.
pub record Visit : Type 0 where
  pub now : ℕ
  pub deadline : Option ℕ
  pub session : ℕ
  pub request_state : String
  pub input_responses : Dict String Response
  pub digest : List ℕ
  pub operation_id : Option String

pub data Approval : Type 0 where
  granted : Approval
  refused : ApprovalError → Approval
  challenge : String → Approval

abbrev pub to_approval : Option ApprovalError → Approval
to_approval none = granted
to_approval (some e) = refused e

abbrev is_expired : ℕ → PendingApproval → Bool
is_expired now p = leb p.expires now

-- The loop that deletes what has expired, over the entries of a range
unfoldable pub delete_expired : ℕ → Pendings → Pendings → Pendings
delete_expired now [] pendings = pendings
delete_expired now ((key, p) ∷ rest) pendings =
    delete_expired now rest (if is_expired now p then delete pendings key else pendings)

unfoldable pub read_response : Dict String Response → Approval
read_response responses = elim (get responses "approval") [
  | some (elicit_response result) ↦
      if length responses == 1
      then to_approval (interpret_approval result)
      else refused invalid_response
  | some other_response ↦ refused invalid_response
  | none ↦ refused invalid_response
]

unfoldable pub consume : Visit → Pendings → Approval × Pendings
unfolding read_response
consume v pendings = elim (get pendings v.request_state) [
  | none ↦ (refused challenge_mismatch, pendings)
  | some p ↦
      if p.session != v.session || p.digest != v.digest
      then (refused challenge_mismatch, pendings)
      else (read_response v.input_responses, delete pendings v.request_state)
]

unfoldable pub expiry : Visit → ℕ
expiry v =
    let expires = v.now + approval_lifetime in
    elim v.deadline [
      | none ↦ expires
      | some deadline ↦ if ltb deadline expires then deadline else expires
    ]

unfoldable pub issue : Visit → Pendings → Approval × Pendings
unfolding expiry
issue v pendings =
    if leb max_pending (length pendings)
    then (refused too_many_pending, pendings)
    else elim v.operation_id [
      | none ↦ (refused no_token, pendings)
      | some token ↦ (
        challenge token,
        put pendings token (record { session = v.session; digest = v.digest; expires = expiry v }),
      )
    ]

-- The pending approval of the request has expired.
unfoldable pub names_expired : Visit → Pendings → Bool
names_expired v pendings = elim (get pendings v.request_state) [
  | none ↦ false
  | some p ↦ is_expired v.now p
]

unfoldable pub advance_approval : Visit → Pendings → Approval × Pendings
unfolding consume issue names_expired delete_expired
advance_approval v pendings =
    let live = delete_expired v.now pendings pendings in
    if names_expired v pendings
    then (refused challenge_expired, delete pendings v.request_state)
    else if v.request_state != "" || ltb 0 (length v.input_responses)
    then consume v live
    else issue v live
