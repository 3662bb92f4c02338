-- ===== src/Transfer/Example.antt =====
-- A file service with one task, as the tests use it.
use xops_cli.Base.{Option, String, [], false, none, some, true, ◌∷◌, nat_eq, string_eq, text_eq}
use xops_cli.Base.Int.{pos}
use xops_cli.Base.Dict.{Dict}
use xops_cli.Ports.{
  ok, Context, Permit, OperationSnapshot, Target, ConnectionConfig, Binding, commit,
}
use xops_cli.Guardrail.Policy.{default_guardrail_config}
use xops_cli.Transfer.Record.{upload, State, ready, verifying, Spec, Record, Codec, temporary_path}
use xops_cli.Transfer.Manager.{Limits, Manager, ActiveTask, Clock, Store}
use xops_cli.Transfer.Lease.{Lease}

abbrev pub digest_a : String
digest_a = "aaaaaaaaaaaaaaaaaaaaaaaaaaaaaaaaaaaaaaaaaaaaaaaaaaaaaaaaaaaaaaaa"

abbrev pub task_id : String
task_id = "00000000000000000000000000000001"

abbrev pub other_id : String
other_id = "00000000000000000000000000000002"

abbrev pub codec : Codec
codec = record {
  hashes = record { view_digest = λ v. "view"; connection_key = λ p. ok "key" };
  token_digest = λ token. digest_a;
  spec_digest = λ s. digest_a;
  encoded_size = λ r. 100;
}

abbrev pub limits : Limits
limits = record {
  max_file_bytes = 1000;
  max_active = 2;
  max_per_target = 2;
  max_ready = 2;
  max_records = 4;
  start_window = 10;
  retention = 100;
  total_timeout = 20;
  commit_timeout = 5;
}

abbrev pub spec : Spec
spec = record {
  request_id = "request";
  request_digest = "";
  requested_path = "/srv/app";
  scope = "scope";
  direction = upload;
  node_id = "node";
  target_id = "target";
  remote_path = "/srv/app";
  size = pos 3;
  sha256 = digest_a;
  overwrite = false;
  source_mod_time = pos 0;
}

abbrev pub task : State → Record
task state = record {
  version = 1;
  authorization = none;
  id = task_id;
  operation_id = "operation";
  spec = spec;
  token_digest = digest_a;
  state = state;
  created_at = 1;
  updated_at = 1;
  start_before = 11;
  status_expires_at = 101;
  temp_path = [];
  temp_owned = false;
  bytes = pos 3;
  sha256 = digest_a;
  error = "";
  warning = "";
  cleanup_pending = false;
  cancel_requested = false;
  resolved = false;
  resolution = "";
}

abbrev pub staged : State → Record
staged state = record (task state) {
  temp_path = temporary_path "/srv/app" task_id;
  temp_owned = true;
}

abbrev pub running : ActiveTask
running = record {
  ctx_err = none;
  request_err = none;
  deadline = 21;
  commit_reserved = false;
  linked = true;
}

abbrev pub store : Store
store = record { outcomes = []; calls = [] }

abbrev pub service : Dict String Record → Dict String ActiveTask → Manager
service records active = record {
  limits = limits;
  records = records;
  requests = [];
  active = active;
  closed = false;
  ctx_err = none;
  store_failed = false;
  drained = true;
  store = store;
}

abbrev pub idle : Manager
idle = service ((task_id, task ready) ∷ []) []

abbrev pub busy_with : Record → Manager
busy_with r = service ((task_id, r) ∷ []) ((task_id, running) ∷ [])

abbrev pub caller : Option Context
caller = some (record { err = none; deadline = none })

abbrev pub clock : Clock
clock n = 2

abbrev pub lease : Lease
lease = record { id = task_id; spec = spec }

-- A task that is authorized by a snapshot with one target
abbrev pub hop : ConnectionConfig
hop = record {
  key_ref = "";
  trust_version = "";
  node_id = "node";
  address = "10.0.0.1";
  port = 22;
  user = "ops";
  auth_type = "key";
  key_path = "";
  auth_update_token = "";
  sudo_mode = "";
  sudo_update_token = "";
  proxy_jump = "";
  original_proxy_jump = "";
  has_original_proxy_jump = false;
  password_prompt_pattern = "";
  execution = none;
  options = none;
}

abbrev pub target : Target
target = record {
  info = record {
    id = "node";
    alias = [];
    address = "10.0.0.1";
    user = "ops";
    auth_type = "key";
    proxy_jump = "";
    tags = [];
  };
  plan = record { scope = "scope"; hops = hop ∷ [] };
  version = "1";
  execution_version = "1";
  disabled = false;
}

abbrev pub snapshot : OperationSnapshot
snapshot = record {
  domain_id = "domain";
  revision = "1";
  policy_revision = "1";
  policy = default_guardrail_config;
  targets = ("node", target) ∷ [];
  selectors = [];
}

abbrev pub binding : Binding
binding = record {
  domain_id = "domain";
  scope = "scope";
  tool = "transfer";
  input_digest = digest_a;
  snapshot_digest = "view";
}

abbrev pub permit : Option Permit
permit = some (record { phase = commit; binding = binding; snapshot = snapshot; context = caller })

abbrev pub bound : Record
bound = record (staged verifying) {
  version = 2;
  authorization = some (record { snapshot = snapshot; binding = binding });
}
