-- ===== src/Transfer/Prepare/Requests.antt =====
-- core/mcp/transfer/manager.go and authorization.go: preparing a task, or finding the one of an
-- earlier request. `random` holds the results of the calls of randomHex.
use xops_cli.Base.{
  Bool, Option, String, [], false, if◌then◌else◌, leb, length, negate, none, some, true, ℕ, ◌!=◌,
  ◌+◌, ◌==◌, ◌||◌, nat_eq, string_eq, text_eq,
}
use xops_cli.Base.Int.{pos, ltb_ℤ, int_eq}
use xops_cli.Base.Dict
use xops_cli.Base.Dict.{Dict}
use xops_cli.Ports.{
  Error, Result, ok, err, invalid, binding_required, busy, conflict, not_found, inspect, Permit,
  binding_eq,
}
use xops_cli.Transfer.Record.{
  direction_eq, ready, failed, state_eq, Spec, Authorization, Record, Codec, status_of,
  validate_spec, check_permit, record_version, legacy_record_version,
}
use xops_cli.Transfer.Manager.{
  Manager, RequestKey, request_key_eq, Clock, mutation_allowed, save, ready_count, path_blocked,
}
use xops_cli.Transfer.Prepare.Issue.{Prepared, collect, issue, spec_beq}

-- Record.Authorization and the new one are both nil, or have one binding.
unfoldable pub same_authorization : Option Authorization → Option Authorization → Bool
same_authorization none none = true
same_authorization (some a) (some b) = a.binding == b.binding
same_authorization a b = false

-- What random bytes the call draws: the task's identity and the token.
pub record Random : Type 0 where
  pub task_id : Option String
  pub token : Option String

-- The record of a new task
unfoldable pub new_record : Manager → Spec → String → Option Authorization → String → ℕ → Record
new_record m spec operation_id authorization id now = record {
  version = elim authorization [ none ↦ legacy_record_version | some a ↦ record_version ];
  authorization = authorization;
  id = id;
  operation_id = operation_id;
  spec = spec;
  token_digest = "";
  state = ready;
  created_at = now;
  updated_at = now;
  start_before = now + m.limits.start_window;
  status_expires_at = now + m.limits.retention;
  temp_path = [];
  temp_owned = false;
  bytes = pos 0;
  sha256 = "";
  error = "";
  warning = "";
  cleanup_pending = false;
  cancel_requested = false;
  resolved = false;
  resolution = "";
}

-- The task of an earlier request with this key
unfoldable pub prepare_again :
    Codec → Manager → Spec → Option Authorization → String → Random → ℕ → Result Prepared × Manager
prepare_again c m spec authorization id random now = elim (Dict.get m.records id) [
  | none ↦ (err conflict, m)
  | some r ↦
      if negate (spec_beq r.spec spec) || negate (same_authorization r.authorization authorization)
      then (err conflict, m)
      else if r.state != ready
      then (ok (record { status = status_of r; token = "" }), m)
      else issue c m r random.token now
]

unfoldable pub prepare_new :
    Codec
    → Manager
    → Spec
    → String
    → Option Authorization
    → RequestKey
    → Random
    → Clock
    → Result Prepared × Manager
prepare_new c m spec operation_id authorization key random clock =
    if leb m.limits.max_records (length m.records) || leb m.limits.max_ready (ready_count m.records)
    then (err busy, m)
    else if path_blocked m.records spec
    then (err conflict, m)
    else elim random.task_id [
      | none ↦ (err invalid, m)
      | some id ↦
          let r = new_record m spec operation_id authorization id (clock 1) in
          let (result, m') = issue c m r random.token (clock 2) in
          elim result [
            | err e ↦ (err e, m')
            | ok prepared ↦ (ok prepared, record m' { requests = Dict.put m'.requests key id })
          ]
    ]

unfoldable pub prepare :
    Codec
    → Manager
    → Spec
    → String
    → Option Authorization
    → Random
    → Clock
    → Result Prepared × Manager
prepare c m spec operation_id authorization random clock =
    let key : RequestKey = record { scope = spec.scope; id = spec.request_id } in
    let (e, m') = collect c m (clock 0) in
    if negate (validate_spec spec)
    then (err invalid, m)
    else if ltb_ℤ (pos m.limits.max_file_bytes) spec.size
    then (err invalid, m)
    else elim (mutation_allowed m) [
      | some x ↦ (err x, m)
      | none ↦ elim e [
        | some x ↦ (err x, m')
        | none ↦ elim (Dict.get m'.requests key) [
          | some id ↦ prepare_again c m' spec authorization id random (clock 1)
          | none ↦ prepare_new c m' spec operation_id authorization key random clock
        ]
      ]
    ]

-- A record that carries only what CheckPermit reads of a spec and its authorization
unfoldable pub prepare_bound :
    Codec → Manager → Spec → String → Option Permit → Random → Clock → Result Prepared × Manager
prepare_bound c m spec operation_id none random clock = (err binding_required, m)
prepare_bound c m spec operation_id (some p) random clock =
    let a : Authorization = record { snapshot = p.snapshot; binding = p.binding } in
    elim (check_permit c (new_record m spec "" (some a) "" 0) (some p) inspect) [
      | some e ↦ (err e, m)
      | none ↦ prepare c m spec operation_id (some a) random clock
    ]

-- The record of a request, and whether there is one beside an error.
unfoldable pub find_request :
    Codec → Manager → String → String → String → ℕ → Result (Option Record) × Manager
find_request c m scope request_id digest now =
    let key : RequestKey = record { scope = scope; id = request_id } in
    let (e, m') = collect c m now in
    elim (mutation_allowed m) [
      | some x ↦ (err x, m)
      | none ↦ elim e [
        | some x ↦ (err x, m')
        | none ↦ elim (Dict.get m'.requests key) [
          | none ↦ (ok none, m')
          | some id ↦ elim (Dict.get m'.records id) [
            | none ↦ (err conflict, m')
            | some r ↦
                if digest == "" || r.spec.request_digest != digest
                then (err conflict, m')
                else (ok (some r), m')
          ]
        ]
      ]
    ]

unfoldable pub retry_bound :
    Codec → Manager → String → Option Permit → Random → Clock → Result Prepared × Manager
retry_bound c m id permit random clock =
    let (e, m') = collect c m (clock 0) in
    elim (mutation_allowed m) [
      | some x ↦ (err x, m)
      | none ↦ elim e [
        | some x ↦ (err x, m')
        | none ↦ elim (Dict.get m'.records id) [
          | none ↦ (err not_found, m')
          | some r ↦
              if r.state != ready
              then (ok (record { status = status_of r; token = "" }), m')
              else elim (check_permit c r permit inspect) [
                | some x ↦ (err x, m')
                | none ↦ issue c m' r random.token (clock 1)
              ]
        ]
      ]
    ]

-- `cause` is the bounded text of the cause, if there is one.
unfoldable pub invalidate_ready :
    Codec → Manager → String → Option String → ℕ → Option Error × Manager
invalidate_ready c m id cause now = elim (mutation_allowed m) [
  | some e ↦ (some e, m)
  | none ↦ elim (Dict.get m.records id) [
    | none ↦ (some not_found, m)
    | some r ↦ if r.state != ready then (none, m) else elim cause [
      | none ↦ (some invalid, m)
      | some text ↦ save c m (record r { state = failed; error = text; updated_at = now })
    ]
  ]
]
