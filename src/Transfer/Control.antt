-- ===== src/Transfer/Control.antt =====
-- core/mcp/transfer/lease.go and manager.go: cancelling, cleaning up, shutting down, and what a
-- restart makes of the journal.
use xops_cli.Base.{
  Bool, List, Option, String, [], false, if◌then◌else◌, map, negate, none, some, true, ℕ, ◌!=◌,
  ◌&&◌, ◌+◌, ◌==◌, ◌||◌, ◌∷◌, nat_eq, string_eq, text_eq,
}
use xops_cli.Base.Dict
use xops_cli.Base.Dict.{Dict}
use xops_cli.Ports.{
  Error, Result, ok, err, invalid, invalid_state, not_found, record_too_large, Context,
}
use xops_cli.Transfer.Record.{
  State, ready, transferring, verifying, committing, failed, cancelled, timed_out, unknown,
  state_eq, Record, Codec, encode_record, validate_record,
}
use xops_cli.Transfer.Manager.{
  Limits, Manager, ActiveTask, RequestKey, request_key_eq, Clock, Store, saved, authenticate,
  call_store, next_outcome, save, valid_limits,
}
use xops_cli.Transfer.Lease.{cancel_context}

-- The task waits for its turn, runs or has been verified.
unfoldable pub is_unfinished : State → Bool
is_unfinished ready = true
is_unfinished transferring = true
is_unfinished verifying = true
is_unfinished other = false

unfoldable pub is_reserved : Manager → Record → Bool
is_reserved m r = elim (Dict.get m.active r.id) [
  | none ↦ false
  | some a ↦ a.commit_reserved && r.state == verifying
]

-- active.cancel(), if the task is active
abbrev pub cancel_active : Manager → String → Manager
cancel_active m id = elim (Dict.get m.active id) [
  | none ↦ m
  | some a ↦ record m {
    active = Dict.put m.active id (record a { ctx_err = cancel_context a.ctx_err });
  }
]

unfoldable pub cancelled_record : Record → ℕ → Record
cancelled_record r now = record r {
  cancel_requested = true;
  updated_at = now;
  state = if r.state == ready then cancelled else r.state;
}

unfoldable pub cancel_task : Codec → Manager → Record → ℕ → Option Error × Manager
cancel_task c m r now =
    let r' = cancelled_record r now in
    let (e, m') = save c m r' in
    if is_reserved m r
    then (some invalid_state, m)
    else if r.state == committing || r.state == unknown
    then (some invalid_state, m)
    else if negate (is_unfinished r.state)
    then (none, m)
    else (e, cancel_active (record m' { records = Dict.put m'.records r.id r' }) r.id)

unfoldable pub cancel : Codec → Manager → String → String → ℕ → Option Error × Manager
cancel c m scope id now = elim (Dict.get m.records id) [
  | none ↦ (some not_found, m)
  | some r ↦ if r.spec.scope != scope then (some not_found, m) else cancel_task c m r now
]

unfoldable pub cancel_with_token :
    Codec → Manager → String → String → Clock → Option Error × Manager
cancel_with_token c m id token clock = elim (authenticate c m id token (clock 0)) [
  | err e ↦ (some e, m)
  | ok r ↦ cancel_task c m r (clock 1)
]

unfoldable pub cleaned : Codec → Manager → String → ℕ → Option Error × Manager
cleaned c m id now = elim (Dict.get m.records id) [
  | none ↦ (some not_found, m)
  | some r ↦
      if r.state == unknown && negate r.resolved
      then (some invalid_state, m)
      else save c m (record r { cleanup_pending = false; updated_at = now })
]

-- Shutdown's first part: new work is refused, and what has no commit under way is cancelled.
unfoldable pub shut_task : Dict String Record → String × ActiveTask → String × ActiveTask
shut_task records (id, a) =
    let committing_now : Bool = elim (Dict.get records id) [
      | none ↦ false
      | some r ↦ r.state == committing
    ] in
    if committing_now || a.commit_reserved
    then (id, a)
    else (id, record a { ctx_err = cancel_context a.ctx_err })

unfoldable pub begin_shutdown : Manager → Manager
begin_shutdown m = record m { closed = true; active = map (shut_task m.records) m.active }

-- Shutdown's end once the tasks have drained: the manager's context is cancelled.
unfoldable pub finish_shutdown : Manager → Manager
finish_shutdown m = if m.drained then record m { ctx_err = cancel_context m.ctx_err } else m

-- Shutdown's end once its context is done: everything is cancelled.
unfoldable pub abandon_shutdown : Manager → Manager
abandon_shutdown m = record m {
  active = map (λ t. (t.0, record t.1 { ctx_err = cancel_context t.1.ctx_err })) m.active;
}

-- What a restart makes of a record's state; the others keep theirs.
unfoldable pub recovered : Record → ℕ → Record
recovered r now = elim r.state [
  | ready ↦ record r {
    state = timed_out;
    error = "service restarted before transfer began";
    updated_at = now;
  }
  | transferring ↦ record r {
    state = failed;
    error = "service restarted before commit";
    updated_at = now;
  }
  | verifying ↦ record r {
    state = failed;
    error = "service restarted before commit";
    updated_at = now;
  }
  | committing ↦ record r {
    state = unknown;
    error = "service restarted with uncertain commit result";
    updated_at = now;
  }
  | _ ↦ r
]

abbrev pub no_headroom : String
no_headroom =
    "recovery state is in memory; original journal retained because it has no update headroom"

abbrev pub is_too_large : Option Error → Bool
is_too_large none = false
is_too_large (some e) = elim e [ record_too_large ↦ true | _ ↦ false ]

-- Saving a reclassified record: an oversized one is kept in memory with a warning.
unfoldable pub save_recovered : Codec → Manager → Record → Result Record × Manager
save_recovered c m r = elim (encode_record c r) [
  | some e ↦
      if is_too_large (some e) then (ok (record r { warning = no_headroom }), m) else (err e, m)
  | none ↦ (if next_outcome m.store.outcomes then ok r else err invalid, call_store m (saved r))
]

-- One round of recoverRecords' loop.
unfoldable pub recover_record : Codec → Manager → Record → ℕ → Option Error × Manager
recover_record c m r now =
    let key : RequestKey = record { scope = r.spec.scope; id = r.spec.request_id } in
    let r' = recovered r now in
    let (result, m') = if r'.state == r.state then (ok r', m) else save_recovered c m r' in
    elim (validate_record c r) [
      | some e ↦ (some e, m)
      | none ↦
          if Dict.has m.requests key || Dict.has m.records r.id
          then (some invalid, m)
          else elim result [
            | err e ↦ (some e, m')
            | ok final ↦ (
              none,
              record m' {
                records = Dict.put m'.records r.id final;
                requests = Dict.put m'.requests key r.id;
              },
            )
          ]
    ]

unfoldable pub recover_records : Codec → Manager → List Record → Clock → Option Error × Manager
recover_records c m [] clock = (none, m)
recover_records c m (r ∷ rs) clock =
    let (e, m') = recover_record c m r (clock 0) in
    let rest = recover_records c m' rs (λ n. clock (n + 1)) in
    elim e [ some x ↦ (some x, m') | none ↦ rest ]

-- The manager of NewManager before its recovery
unfoldable pub empty_manager : Limits → Store → Manager
empty_manager limits store = record {
  limits = limits;
  records = [];
  requests = [];
  active = [];
  closed = false;
  ctx_err = none;
  store_failed = false;
  drained = true;
  store = store;
}

-- NewManager: `loaded` is the result of the store's Load, and a nil context is refused.
unfoldable pub new_manager :
    Codec → Option Context → Limits → Store → Option (List Record) → Clock → Result Manager
new_manager c none limits store loaded clock = err invalid
new_manager c (some ctx) limits store loaded clock = elim ctx.err [
  | some e ↦ err e
  | none ↦ if negate (valid_limits limits) then err invalid else elim loaded [
    | none ↦ err invalid
    | some records ↦
        let (e, m) = recover_records c (empty_manager limits store) records clock in
        elim e [ some x ↦ err x | none ↦ ok m ]
  ]
]
