-- ===== src/Transfer/Lease.antt =====
-- core/mcp/transfer/lease.go: claiming a prepared task, and the steps of its one data request.
use xops_cli.Base.{
  Bool, Option, String, any, count, false, if◌then◌else◌, leb, length, ltb, negate, none, some,
  true, ℕ, ◌!=◌, ◌&&◌, ◌+◌, ◌==◌, nat_eq, string_eq, text_eq,
}
use xops_cli.Base.Int.{int_eq}
use xops_cli.Base.Dict
use xops_cli.Base.Dict.{Dict}
use xops_cli.Ports.{
  Error, Result, ok, err, invalid, unauthorized, expired, busy, conflict, invalid_state, canceled,
  join_errors, Context, Permit, transfer_start,
}
use xops_cli.Transfer.Record.{
  Direction, upload, direction_eq, ready, transferring, timed_out, state_eq, Spec, Record, Codec,
  check_permit,
}
use xops_cli.Transfer.Manager.{
  Manager, ActiveTask, Clock, mutation_allowed, authenticate, path_blocked, save,
}

-- The active tasks on the target of a spec
unfoldable pub on_target : Dict String Record → Spec → String × ActiveTask → Bool
on_target records spec (id, a) = elim (Dict.get records id) [
  | none ↦ spec.target_id == ""
  | some r ↦ r.spec.target_id == spec.target_id
]

-- An active upload to the destination of an upload
unfoldable pub same_destination : Dict String Record → Spec → String × ActiveTask → Bool
same_destination records spec (id, a) = elim (Dict.get records id) [
  | none ↦ false
  | some r ↦
      r.spec.target_id == spec.target_id
      && r.spec.direction == upload
      && spec.direction == upload
      && r.spec.remote_path == spec.remote_path
]

unfoldable pub has_capacity : Manager → Spec → Bool
has_capacity m spec =
    ltb (length m.active) m.limits.max_active
    && negate (any (same_destination m.records spec) m.active)
    && ltb (count (on_target m.records spec) m.active) m.limits.max_per_target

-- cancel() of a context
abbrev pub cancel_context : Option Error → Option Error
cancel_context none = some canceled
cancel_context (some e) = some e

abbrev pub earlier : ℕ → Option ℕ → ℕ
earlier a none = a
earlier a (some b) = if ltb b a then b else a

-- newActiveTask, at a time of the clock: the caller's context has been seen not to be done.
unfoldable pub new_active_task : Manager → Option Permit → ℕ → ActiveTask
new_active_task m none now = record {
  ctx_err = m.ctx_err;
  request_err = none;
  deadline = now + m.limits.total_timeout;
  commit_reserved = false;
  linked = true;
}
new_active_task m (some p) now = record {
  ctx_err = elim p.context [
    | none ↦ m.ctx_err
    | some ctx ↦ elim ctx.err [ none ↦ m.ctx_err | some e ↦ some canceled ]
  ];
  request_err = none;
  deadline =
      earlier (now + m.limits.total_timeout)
        (elim p.context [ none ↦ none | some ctx ↦ ctx.deadline ]);
  commit_reserved = false;
  linked = true;
}

pub record Lease : Type 0 where
  pub id : String
  pub spec : Spec

-- Neither the record nor the call carries an authorization.
unfoldable pub is_unbound : Record → Option Permit → Bool
is_unbound r none = elim r.authorization [ none ↦ true | some a ↦ false ]
is_unbound r (some p) = false

-- What claim refuses of an authenticated record before it looks at the clock.
unfoldable pub refuses_claim : Codec → Record → Direction → Option Permit → Option Error
refuses_claim c r direction permit =
    let refused : Option Error =
      if is_unbound r permit then none else check_permit c r permit transfer_start in
    elim refused [
      | some e ↦ some e
      | none ↦
          if r.spec.direction != direction
          then some unauthorized
          else if r.state == timed_out
          then some expired
          else if r.state != ready
          then some invalid_state
          else none
    ]

-- claim once the record is known to be ready
unfoldable pub start_task :
    Codec → Manager → String → Record → Option Permit → Clock → Result Lease × Manager
start_task c m id r permit clock =
    let (late, m_late) = save c m (record r { state = timed_out; updated_at = clock 2 }) in
    let (e, m') = save c m (record r { state = transferring; updated_at = clock 2 }) in
    if leb r.start_before (clock 1)
    then (err (join_errors expired late), m_late)
    else if path_blocked m.records r.spec
    then (err conflict, m)
    else if negate (has_capacity m r.spec)
    then (err busy, m)
    else elim e [
      | some x ↦ (err x, m')
      | none ↦ (
        ok (record { id = id; spec = r.spec }),
        record m' {
          active = Dict.put m'.active id (new_active_task m permit (clock 3));
          drained = if length m'.active == 0 then false else m'.drained;
        },
      )
    ]

-- The error of the caller's context, which must not be nil
abbrev pub caller_error : Option Context → Option Error
caller_error none = some invalid
caller_error (some ctx) = ctx.err

unfoldable pub claim :
    Codec
    → Manager
    → Option Context
    → String
    → String
    → Direction
    → Option Permit
    → Clock
    → Result Lease × Manager
claim c m ctx id token direction permit clock = elim (caller_error ctx) [
  | some e ↦ (err e, m)
  | none ↦ elim (mutation_allowed m) [
    | some e ↦ (err e, m)
    | none ↦ elim (authenticate c m id token (clock 0)) [
      | err e ↦ (err e, m)
      | ok r ↦ elim (refuses_claim c r direction permit) [
        | some e ↦ (err e, m)
        | none ↦ start_task c m id r permit clock
      ]
    ]
  ]
]
