-- ===== src/Transfer/Commit.antt =====
-- core/mcp/transfer/lease.go: the operations on a claimed task, from its first bytes to its end.
use xops_cli.Base.{
  Bool, List, Option, String, [], false, if◌then◌else◌, leb, length, negate, none, some, true, ℕ,
  ◌!=◌, ◌&&◌, ◌==◌, ◌||◌, nat_eq, string_eq, text_eq,
}
use xops_cli.Base.Int.{ℤ, pos, ltb_ℤ, ◌+ℤ◌, ◌-ℤ◌, int_eq}
use xops_cli.Base.Dict
use xops_cli.Base.Dict.{Dict}
use xops_cli.Ports.{
  Error, Result, ok, err, invalid, invalid_state, binding_required, store_unusable, canceled,
  deadline_exceeded, Permit, commit,
}
use xops_cli.Transfer.Record.{
  upload, download, direction_eq, State, transferring, verifying, committing, completed, streamed,
  failed, cancelled, unknown, state_eq, Record, Codec, check_permit, terminal_state, temporary_path,
  valid_hex,
}
use xops_cli.Transfer.Manager.{Manager, ActiveTask, Clock, mutation_allowed, save}
use xops_cli.Transfer.Lease.{is_unbound, cancel_context}

-- m.active[id] with m.records[id]
unfoldable pub task_of : Manager → String → Option (Record × ActiveTask)
task_of m id = elim (Dict.get m.active id) [
  | none ↦ none
  | some a ↦ elim (Dict.get m.records id) [ none ↦ none | some r ↦ some (r, a) ]
]

abbrev pub put_record : Manager → Record → Manager
put_record m r = record m { records = Dict.put m.records r.id r }

abbrev pub put_task : Manager → String → ActiveTask → Manager
put_task m id a = record m { active = Dict.put m.active id a }

-- stopRequest() and cancel()
abbrev pub stopped : ActiveTask → ActiveTask
stopped a = record a { linked = false; ctx_err = cancel_context a.ctx_err }

-- Lease.Progress: the journal is not written.
unfoldable pub progress : Manager → String → ℤ → ℕ → Option Error × Manager
progress m id n now = elim (task_of m id) [
  | none ↦ (some invalid_state, m)
  | some (r, a) ↦
      if r.state != transferring
      then (some invalid_state, m)
      else if ltb_ℤ n (pos 0) || ltb_ℤ (r.spec.size -ℤ r.bytes) n
      then (some invalid, m)
      else (
        none,
        record m {
          records = Dict.put m.records id (record r { bytes = r.bytes +ℤ n; updated_at = now });
        },
      )
]

unfoldable pub temporary : Codec → Manager → String → ℕ → Result (List ℕ) × Manager
temporary c m id now = elim (task_of m id) [
  | none ↦ (err invalid_state, m)
  | some (r, a) ↦
      let path = temporary_path r.spec.remote_path r.id in
      let (e, m') =
        save c m (record r { temp_path = path; cleanup_pending = true; updated_at = now }) in
      if r.state != transferring || r.spec.direction != upload
      then (err invalid_state, m)
      else elim e [ some x ↦ (err x, m') | none ↦ (ok path, m') ]
]

unfoldable pub confirm_temporary : Codec → Manager → String → ℕ → Option Error × Manager
confirm_temporary c m id now = elim (task_of m id) [
  | none ↦ (some invalid_state, m)
  | some (r, a) ↦
      let r' = record r { temp_owned = true; updated_at = now } in
      let (e, m') = save c m r' in
      if r.state != transferring || r.temp_path == []
      then (some invalid_state, m)
      else (e, record m' { records = Dict.put m'.records id r' })
]

unfoldable pub verify : Codec → Manager → String → ℤ → String → ℕ → Option Error × Manager
verify c m id n digest now = elim (task_of m id) [
  | none ↦ (some invalid_state, m)
  | some (r, a) ↦
      let stopped_upload : Option Error = if r.spec.direction == upload then a.ctx_err else none in
      if r.state != transferring then (some invalid_state, m) else elim stopped_upload [
        | some e ↦ (some e, m)
        | none ↦
            if n != r.spec.size || n != r.bytes || negate (valid_hex digest 32)
            then (some invalid, m)
            else if r.spec.direction == upload && digest != r.spec.sha256
            then (some invalid, m)
            else save c m
                (record r { bytes = n; sha256 = digest; state = verifying; updated_at = now })
      ]
]

-- The task may commit: a verified upload whose temporary file is its own.
unfoldable pub is_committable : Record → Bool
is_committable r =
    r.state == verifying && r.spec.direction == upload && r.temp_path != [] && r.temp_owned

-- reserveCommit; `now` is its reading of time.Now.
unfoldable pub reserve_commit :
    Codec → Manager → String → Option Permit → ℕ → Option Error × Manager
reserve_commit c m id permit now = elim (task_of m id) [
  | none ↦ (some invalid_state, m)
  | some (r, a) ↦
      if negate (is_committable r)
      then (some invalid_state, m)
      else elim (check_permit c r permit commit) [
        | some e ↦ (some e, m)
        | none ↦ if a.commit_reserved then (none, m) else elim (mutation_allowed m) [
          | some e ↦ (some e, m)
          | none ↦ if r.cancel_requested then (some canceled, m) else elim a.request_err [
            | some e ↦ (some e, m)
            | none ↦
                if leb a.deadline now
                then (some deadline_exceeded, m)
                else (none, put_task m id (record a { commit_reserved = true }))
          ]
        ]
      ]
]

-- What beginCommit asks before it writes: a reservation where the task is bound, else that the
-- task is not cancelled.
unfoldable pub commit_admission :
    Codec → Manager → String → Record → ActiveTask → Option Permit → ℕ → Option Error × Manager
commit_admission c m id r a permit now =
    if is_unbound r permit then (a.ctx_err, m) else reserve_commit c m id permit now

-- The store may be written: once reserved, a shutdown no longer matters.
unfoldable pub commit_writable : Manager → String → Option Error
commit_writable m id = elim (Dict.get m.active id) [
  | none ↦ some invalid_state
  | some a ↦
      if a.commit_reserved
      then (if m.store_failed then some store_unusable else none)
      else mutation_allowed m
]

-- The commit's own context starts from the permit's, or from none.
abbrev pub commit_task : ActiveTask → Option Permit → ActiveTask
commit_task a none = record a { linked = false; ctx_err = none }
commit_task a (some p) = record a {
  linked = false;
  ctx_err = elim p.context [ none ↦ none | some ctx ↦ ctx.err ];
}

unfoldable pub write_commit :
    Codec → Manager → String → Record → Option Permit → ℕ → Option Error × Manager
write_commit c m id r permit now =
    let (e, m') = save c m (record r { state = committing; updated_at = now }) in
    elim (commit_writable m id) [
      | some x ↦ (some x, m)
      | none ↦ elim e [
        | some x ↦ (some x, m')
        | none ↦ elim (Dict.get m'.active id) [
          | none ↦ (some invalid_state, m')
          | some a ↦ (none, put_task m' id (commit_task a permit))
        ]
      ]
    ]

-- The clock reads time.Now for a reservation and then m.now.
unfoldable pub begin_commit :
    Codec → Manager → String → Option Permit → Clock → Option Error × Manager
begin_commit c m id permit clock = elim (task_of m id) [
  | none ↦ (some invalid_state, m)
  | some (r, a) ↦
      let (e, m') = commit_admission c m id r a permit (clock 0) in
      if negate (is_committable r)
      then (some invalid_state, m)
      else elim e [ some x ↦ (some x, m') | none ↦ write_commit c m' id r permit (clock 1) ]
]

-- BeginCommitBound
unfoldable pub begin_commit_bound :
    Codec → Manager → String → Option Permit → Clock → Option Error × Manager
begin_commit_bound c m id none clock = (some binding_required, m)
begin_commit_bound c m id (some p) clock = begin_commit c m id (some p) clock

-- The record of a known success, if the state allows one
unfoldable pub completion : Record → Option Record
completion r =
    if r.state == committing && r.spec.direction == upload
    then some (record r { state = completed; cleanup_pending = false })
    else if r.state == verifying && r.spec.direction == download
    then some (record r { state = streamed })
    else none

-- The task's end: saved if the store allows, and known in memory in any case.
unfoldable pub settle : Codec → Manager → String → Record → ActiveTask → Option Error × Manager
settle c m id r a =
    let (e, m') = save c m r in
    (e, put_task (record m' { records = Dict.put m'.records id r }) id (stopped a))

unfoldable pub complete : Codec → Manager → String → ℕ → Option Error × Manager
complete c m id now = elim (task_of m id) [
  | none ↦ (some invalid_state, m)
  | some (r, a) ↦ elim (completion r) [
    | none ↦ (some invalid_state, m)
    | some r' ↦ settle c m id (record r' { updated_at = now }) a
  ]
]

abbrev pub is_canceled : Option Error → Bool
is_canceled none = false
is_canceled (some e) = elim e [ canceled ↦ true | _ ↦ false ]

-- How an unfinished task ends: an uncertain commit stays uncertain.
unfoldable pub failure_state : Record → ActiveTask → State
failure_state r a =
    if r.state == committing
    then unknown
    else if r.cancel_requested
        || (negate a.commit_reserved && (is_canceled a.ctx_err || is_canceled a.request_err))
    then cancelled
    else failed

-- `cause` is the bounded text of the cause, if there is one.
unfoldable pub fail : Codec → Manager → String → Option String → ℕ → Option Error × Manager
fail c m id cause now = elim (task_of m id) [
  | none ↦ (none, m)
  | some (r, a) ↦
      let text : String = elim cause [ none ↦ r.error | some s ↦ s ] in
      if terminal_state r.state
      then (none, m)
      else settle c m id (record r { state = failure_state r a; error = text; updated_at = now }) a
]

-- Manager.release
unfoldable pub release : Manager → String → Manager
release m id =
    let active = Dict.delete m.active id in
    record m { active = active; drained = if length active == 0 then true else m.drained }

-- Lease.Close
unfoldable pub close : Codec → Manager → String → ℕ → Option Error × Manager
close c m id now =
    let (e, m') = fail c m id (some "transfer handler ended without confirming completion") now in
    (e, if Dict.has m'.active id then release m' id else m')
