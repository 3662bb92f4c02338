-- ===== src/State/Example.antt =====
-- A coordinator with a node behind a jump host.
use xops_cli.Base.{List, String, [], false, none, some, true, string_eq, ◌==◌, ◌∷◌}
use xops_cli.Guardrail.Risk.{Platform}
use xops_cli.Guardrail.Policy.{default_guardrail_config}
use xops_cli.Ports.{
  Admission, ConnectionConfig, Context, Hashes, OperationSnapshot, Target, execute, ok,
}
use xops_cli.State.Changes.{DeepEqual}
use xops_cli.State.Coordinator.{Coordinator}

abbrev pub platform : Platform
platform = record {
  regexp_match = λ pattern text. false;
  glob_match = λ pattern name. some false;
  is_loopback = λ host. false;
  to_lower = λ c. c;
}

abbrev pub hashes : Hashes
hashes = record {
  view_digest = λ view. view.policy_revision;
  connection_key = λ plan. ok plan.scope;
}

abbrev pub same_values : DeepEqual
same_values = record { same_config = λ a b. true; same_plan = λ a b. a.scope == b.scope }

abbrev pub hop : String → ConnectionConfig
hop id = record {
  key_ref = "";
  trust_version = "1";
  node_id = id;
  address = "10.0.0.1";
  port = 22;
  user = "root";
  auth_type = "key";
  key_path = "";
  auth_update_token = "";
  sudo_mode = "";
  sudo_update_token = "";
  proxy_jump = "";
  original_proxy_jump = "";
  has_original_proxy_jump = false;
  password_prompt_pattern = "";
  execution = none;
  options = none;
}

abbrev pub target : String → List ConnectionConfig → Target
target id hops = record {
  info = record {
    id = id;
    alias = [];
    address = "10.0.0.1";
    user = "root";
    auth_type = "key";
    proxy_jump = "";
    tags = [];
  };
  plan = record { scope = id; hops = hops };
  version = "1";
  execution_version = "1";
  disabled = false;
}

abbrev pub jump_host : String × Target
jump_host = ("jump", target "jump" (hop "jump" ∷ []))

abbrev pub web_host : String × Target
web_host = ("web", target "web" (hop "jump" ∷ hop "web" ∷ []))

abbrev pub snapshot : String → List (String × Target) → OperationSnapshot
snapshot revision targets = record {
  domain_id = "d";
  revision = revision;
  policy_revision = "p";
  policy = default_guardrail_config;
  targets = targets;
  selectors = [];
}

abbrev pub first_view : OperationSnapshot
first_view = snapshot "1" (jump_host ∷ web_host ∷ [])

abbrev pub second_view : OperationSnapshot
second_view = snapshot "2" (jump_host ∷ [])

abbrev pub live : Context
live = record { err = none; deadline = some 60 }

-- The coordinator that New makes of the first view, for two operations at most
abbrev pub new : Coordinator
new = record {
  view = first_view;
  domain = "d";
  is_closed = false;
  pending = none;
  active = [];
  deleted = [];
  max_active = 2;
  next_id = 0;
}

abbrev pub web_admission : Admission
web_admission = record {
  operation_id = "o1";
  phase = execute;
  snapshot = snapshot "1" (web_host ∷ []);
  binding = record {
    domain_id = "d";
    scope = "s";
    tool = "exec";
    input_digest = "0000000000000000000000000000000000000000000000000000000000000000";
    snapshot_digest = "p";
  };
  previous = none;
}

abbrev pub jump_admission : Admission
jump_admission = record web_admission { snapshot = snapshot "1" (jump_host ∷ []) }
