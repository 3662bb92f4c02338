-- ===== src/Guardrail/Approval/Checks.antt =====
-- core/mcp/guardrail/approval_roundtrip.go: a challenge that is issued and answered.
use xops_cli.Base.{[], none, refl, some, text_beq, true, ◌∷◌, ◌≡◌, ◌≤◌}
use xops_cli.Base.Dict.{get, put, delete}
use xops_cli.Guardrail.Approval.Answers.{interpret_approval}
use xops_cli.Guardrail.Approval.Challenges.{
  Pendings, elicit_response, Visit, granted, challenge, delete_expired, read_response,
  advance_approval,
}
use xops_cli.Guardrail.Approval.Served.{
  Served, started, served, count_grants, count_issues, grants-issues,
}
use xops_cli.Guardrail.Approval.Issued.{GrantedBy, granted-issued}

abbrev asking : Visit
asking = record {
  now = 1000;
  deadline = some 5000;
  session = 4;
  request_state = "";
  input_responses = [];
  digest = 1 ∷ 2 ∷ [];
  operation_id = some "token";
}

abbrev answering : Visit
answering = record {
  now = 2000;
  deadline = none;
  session = 4;
  request_state = "token";
  input_responses =
      ("approval", elicit_response (some (record { action = "accept"; approved = some true })))
      ∷ [];
  digest = 1 ∷ 2 ∷ [];
  operation_id = some "unused";
}

abbrev waiting : Pendings
waiting = ("token", record { session = 4; digest = 1 ∷ 2 ∷ []; expires = 5000 }) ∷ []

asked : advance_approval asking [] ≡ (challenge "token", waiting)
unfolding advance_approval get put delete_expired
asked = refl

answered : advance_approval answering waiting ≡ (granted, [])
unfolding advance_approval get delete delete_expired read_response interpret_approval text_beq
answered = refl

both_served : Served ((answering, granted) ∷ (asking, challenge "token") ∷ []) []
both_served = served answering granted answered (served asking (challenge "token") asked started)

granted-issued_example : GrantedBy ((asking, challenge "token") ∷ []) answering
granted-issued_example = granted-issued answering both_served

grants-issues_example :
    count_grants "token" ((answering, granted) ∷ (asking, challenge "token") ∷ [])
    ≤ count_issues "token" ((answering, granted) ∷ (asking, challenge "token") ∷ [])
grants-issues_example = grants-issues "token" both_served
