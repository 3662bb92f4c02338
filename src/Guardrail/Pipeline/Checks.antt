-- ===== src/Guardrail/Pipeline/Checks.antt =====
-- core/mcp/guardrail: the pipeline at concrete calls.
use xops_cli.Base.{
  String, [], false, none, refl, some, true, ℕ, ◌∷◌, ◌≡◌, ◌<◌, ◌⊎◌, ◌==◌, nat_eq, string_eq,
  text_eq,
}
use xops_cli.Guardrail.Risk.{RiskInput, Platform, parse_risk_level, rank, dangerous, moderate}
use xops_cli.Guardrail.Classify.{classify, classify_base, classify_file}
use xops_cli.Guardrail.Policy.{
  Config, default_guardrail_config, evaluate, denied, reaches, threshold_for_node, effective_risk,
  is_path_protected,
}
use xops_cli.Guardrail.Analyzer.{analyze_paths, analyze_paths_from}
use xops_cli.Guardrail.Approval.Answers.{
  Session, InitializeParams, supports_form, request_approval, apply_fallback, method_not_found,
}
use xops_cli.Guardrail.Approval.Challenges.{granted}
use xops_cli.Guardrail.Pipeline.Audit.{
  AuditEntry, Guardrail, Append, new_guardrail, invocation, log,
}
use xops_cli.Guardrail.Pipeline.Asking.{speaks_round_trips, Call, Digest, request_tool_approval}
use xops_cli.Guardrail.Pipeline.Entries.{records}
use xops_cli.Guardrail.Pipeline.Calls.{Reply, World, entry_for, named, decide, with_guardrail}
use xops_cli.Guardrail.Pipeline.Clearance.{CallEnd, with_guardrail-ends}
use xops_cli.Guardrail.Pipeline.Trail.{begun, called, HasTrail, Reached-HasTrail}
use xops_cli.Guardrail.Pipeline.Fallback.{unattended-granted}
use xops_cli.Guardrail.Pipeline.Deferred.{authorized, authorize}
use xops_cli.Guardrail.Pipeline.Authorized.{AuthorizedBy, authorize-AuthorizedBy}

abbrev platform : Platform
platform = record {
  regexp_match = λ pattern s. false;
  glob_match = λ glob s. some (glob == s);
  is_loopback = λ host. host == "127.0.0.1";
  to_lower = λ c. c;
}

abbrev config : Config
config = record default_guardrail_config { audit_log = "/var/log/xops.jsonl" }

abbrev guard : Guardrail
guard = new_guardrail (some config)

-- A destination that takes every entry, and a digest that tells nothing apart
abbrev taking : Append
taking = λ entries e. true

abbrev no_digest : Digest ℕ
no_digest = λ risk ri input binding. some []

-- The session's client shows no form and is too old for round trips.
abbrev old_client : InitializeParams
old_client = record { protocol_version = "2025-06-18"; capabilities = none }

abbrev session : Session
session = record { id = 1; initialize = some old_client }

abbrev call : Call
call = record {
  done = λ stage. false;
  scope = none;
  session = some session;
  params = none;
  elicited = method_not_found;
  now = 10;
  deadline = none;
  operation_id = some "op";
  token = none;
}

-- A tool that reads, whatever its input
abbrev reading : ℕ → RiskInput
reading n = record {
  tool_name = "";
  action = "read";
  node_id = "web";
  node_ids = [];
  command = "";
  text = "";
  paths = [];
  sudo = false;
  tunnel_mode = "";
  listen_host = "";
  launch_dialect = none;
  dialect = "";
}

abbrev handler : ℕ → Reply ℕ String
handler n = record { result = none; output = some n; error = none }

abbrev idle_world : World ℕ
idle_world = record { audit = []; executed = []; pendings = [] }

with_guardrail-ends_example :
    CallEnd guard no_digest call
      (classify platform (named "file" (reading 3)))
      (named "file" (reading 3))
      "op"
      3
      (handler 3)
      idle_world
      (decide platform guard call (named "file" (reading 3)))
      (with_guardrail platform guard taking no_digest "file" reading handler call 3 idle_world)
with_guardrail-ends_example =
    with_guardrail-ends platform guard taking no_digest "file" reading handler call 3 idle_world
      "op" refl

has_run :
    (with_guardrail platform guard taking no_digest "file" reading handler call 3
      idle_world).1.executed
    ≡ ("op", 3) ∷ []
unfolding with_guardrail evaluate classify classify_base classify_file new_guardrail rank
    threshold_for_node effective_risk is_path_protected named analyze_paths parse_risk_level denied
    reaches decide analyze_paths_from log
has_run = refl

keeps_records : records guard ≡ true
unfolding records new_guardrail
keeps_records = refl

Reached-HasTrail_example :
    HasTrail
      (with_guardrail platform guard taking no_digest "file" reading handler call 3 idle_world).1
Reached-HasTrail_example =
    Reached-HasTrail {Out = ℕ} {E = String} platform guard taking no_digest _ keeps_records
      (called "file" reading handler call 3 idle_world begun)

downgraded : request_tool_approval no_digest guard call moderate (reading 3) 3 [] ≡ (granted, [])
unfolding request_tool_approval request_approval apply_fallback new_guardrail invocation
    speaks_round_trips rank
downgraded = refl

unattended-granted_example :
    ((invocation guard call.scope).1 ≡ "allow")
    ⊎ (((invocation guard call.scope).1 ≡ "downgrade") × (rank moderate < rank dangerous))
unfolding supports_form
unattended-granted_example =
    unattended-granted guard no_digest call session old_client moderate (reading 3) 3 [] [] refl
      refl refl downgraded

-- The entry of the authorization
abbrev authorization : AuditEntry
authorization = record {
  operation_id = "op";
  tool = "";
  node_id = "web";
  node_ids = [];
  command = "";
  paths = [];
  risk_level = "dangerous";
  decision = "approved";
  outcome = "authorized";
  error = none;
  binding = "";
}

-- A configuration whose fallback lets everything through
abbrev lenient : Guardrail
lenient = new_guardrail (some (record config { no_elicit_fallback = "allow" }))

abbrev authorized_world : World ℕ
authorized_world = record idle_world { audit = authorization ∷ [] }

given :
    authorize platform lenient taking no_digest call (reading 3) 3 idle_world
    ≡ (authorized "op", authorized_world)
unfolding authorize is_path_protected threshold_for_node effective_risk rank analyze_paths
    parse_risk_level denied reaches decide evaluate classify classify_base request_tool_approval
    request_approval apply_fallback new_guardrail invocation speaks_round_trips analyze_paths_from
    log entry_for
given = refl

authorize-AuthorizedBy_example :
    (call.operation_id ≡ some "op")
    × AuthorizedBy lenient no_digest call
        (classify platform (reading 3))
        (reading 3)
        3
        idle_world
        (decide platform lenient call (reading 3))
        "op"
        authorized_world
authorize-AuthorizedBy_example =
    authorize-AuthorizedBy platform lenient taking no_digest call (reading 3) 3 idle_world "op"
      authorized_world given
