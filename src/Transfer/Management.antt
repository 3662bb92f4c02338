-- ===== src/Transfer/Management.antt =====
-- core/mcp/transfer/management.go: retries of a request, warnings, and commits that are known to
-- have been rejected.
use xops_cli.Base.{
  Option, String, if◌then◌else◌, none, some, ℕ, ◌!=◌, ◌==◌, ◌||◌, nat_eq, string_eq, text_eq,
}
use xops_cli.Base.Dict
use xops_cli.Base.Dict.{Dict}
use xops_cli.Ports.{
  Error, Result, ok, err, invalid, invalid_state, not_found, conflict, binding_required,
}
use xops_cli.Transfer.Record.{ready, committing, failed, state_eq, Codec, status_of}
use xops_cli.Transfer.Manager.{Manager, RequestKey, request_key_eq, Clock, mutation_allowed, save}
use xops_cli.Transfer.Prepare.{Prepared, Random, collect, issue}
use xops_cli.Transfer.Commit.{task_of, settle}

-- Manager.Retry, once the request's task is known; `none` is a request that is not known.
unfoldable pub retry_known :
    Codec → Manager → String → String → Random → ℕ → Result (Option Prepared) × Manager
retry_known c m id digest random now = elim (Dict.get m.records id) [
  | none ↦ (err conflict, m)
  | some r ↦
      let (result, m') = issue c m r random.token now in
      if digest == "" || r.spec.request_digest != digest
      then (err conflict, m)
      else if r.state != ready
      then (ok (some (record { status = status_of r; token = "" })), m)
      else elim r.authorization [
        | some a ↦ (err binding_required, m)
        | none ↦ elim result [ err e ↦ (err e, m') | ok prepared ↦ (ok (some prepared), m') ]
      ]
]

unfoldable pub retry :
    Codec → Manager → String → String → String → Random → Clock → Result (Option Prepared) × Manager
retry c m scope request_id digest random clock =
    let key : RequestKey = record { scope = scope; id = request_id } in
    let (e, m') = collect c m (clock 0) in
    elim (mutation_allowed m) [
      | some x ↦ (err x, m)
      | none ↦ elim e [
        | some x ↦ (err x, m')
        | none ↦ elim (Dict.get m'.requests key) [
          | none ↦ (ok none, m')
          | some id ↦ retry_known c m' id digest random (clock 1)
        ]
      ]
    ]

-- Manager.Warn, with the bounded text of the warning
unfoldable pub warn : Codec → Manager → String → String → ℕ → Option Error × Manager
warn c m id text now = elim (Dict.get m.records id) [
  | none ↦ (some not_found, m)
  | some r ↦
      let r' = record r { warning = text; updated_at = now } in
      let (e, m') = save c m r' in (e, record m' { records = Dict.put m'.records id r' })
]

-- Lease.RejectCommit, with the bounded text of the cause
unfoldable pub reject_commit : Codec → Manager → String → Option String → ℕ → Option Error × Manager
reject_commit c m id cause now = elim (task_of m id) [
  | none ↦ (some invalid_state, m)
  | some (r, a) ↦ if r.state != committing then (some invalid_state, m) else elim cause [
    | none ↦ (some invalid, m)
    | some text ↦ settle c m id (record r { state = failed; error = text; updated_at = now }) a
  ]
]
