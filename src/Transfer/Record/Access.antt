-- ===== src/Transfer/Record/Access.antt =====
-- core/mcp/transfer/authorization.go and manager.go: permits for a record and its public view.
use xops_cli.Base.{
  Bool, Option, String, false, if◌then◌else◌, negate, none, some, true, ℕ, ◌!=◌, ◌==◌, ◌||◌, nat_eq,
  string_eq, text_eq,
}
use xops_cli.Base.Int.{ℤ, int_eq}
use xops_cli.Ports.{
  Error, stale_binding, binding_required, Phase, Binding, Permit, Context, validate_binding,
  binding_eq, phase_eq,
}
use xops_cli.Transfer.Record.Shape.{
  Authorization, Codec, Direction, Record, State, cancelled, completed, failed, streamed, timed_out,
  unknown,
}
use xops_cli.Transfer.Record.Checks.{validate_authorization}

-- ctx.Err() of a context that may be nil
abbrev pub context_error : Option Context → Option Error
context_error none = some binding_required
context_error (some ctx) = ctx.err

-- The record's binding is this one.
abbrev is_bound : Option Authorization → Binding → Bool
is_bound none b = false
is_bound (some a) b = b == a.binding

unfoldable pub check_permit : Codec → Record → Option Permit → Phase → Option Error
check_permit c r permit phase = elim (validate_authorization c r.authorization r.spec) [
  | some e ↦ some e
  | none ↦ elim permit [
    | none ↦ some stale_binding
    | some p ↦
        if p.phase != phase || negate (is_bound r.authorization p.binding)
        then some stale_binding
        else elim (validate_binding c.hashes p.binding p.snapshot) [
          | some e ↦ some e
          | none ↦ context_error p.context
        ]
  ]
]

-- The public view of a record, without credentials or authentication scope.
pub record Status : Type 0 where
  pub id : String
  pub operation_id : String
  pub direction : Direction
  pub node_id : String
  pub remote_path : String
  pub state : State
  pub size : ℤ
  pub bytes : ℤ
  pub sha256 : String
  pub error : String
  pub warning : String
  pub cleanup_pending : Bool
  pub temp_owned : Bool
  pub cancel_requested : Bool
  pub resolved : Bool
  pub start_before : ℕ
  pub status_expires_at : ℕ
  pub updated_at : ℕ

unfoldable pub status_of : Record → Status
status_of r = record {
  id = r.id;
  operation_id = r.operation_id;
  direction = r.spec.direction;
  node_id = r.spec.node_id;
  remote_path = r.spec.remote_path;
  state = r.state;
  size = r.spec.size;
  bytes = r.bytes;
  sha256 = r.sha256;
  error = r.error;
  warning = r.warning;
  cleanup_pending = r.cleanup_pending;
  temp_owned = r.temp_owned;
  cancel_requested = r.cancel_requested;
  resolved = r.resolved;
  start_before = r.start_before;
  status_expires_at = r.status_expires_at;
  updated_at = r.updated_at;
}

unfoldable pub terminal_state : State → Bool
terminal_state completed = true
terminal_state streamed = true
terminal_state failed = true
terminal_state cancelled = true
terminal_state timed_out = true
terminal_state unknown = true
terminal_state other = false
