-- ===== src/Transfer/Prepare/Issue.antt =====
-- core/mcp/transfer/manager.go and record_bounds.go: issuing a credential and collecting what
-- has expired.
use xops_cli.Base.{
  Bool, Option, String, [], false, if◌then◌else◌, leb, ltb, negate, none, some, suc, true, zero, ℕ,
  ◌&&◌, ◌==◌, ◌||◌, ◌∷◌, nat_eq, string_eq, text_eq,
}
use xops_cli.Base.Int.{int_eq}
use Prim.Native.Char.{Char}
use xops_cli.Base.Dict
use xops_cli.Base.Dict.{Dict}
use xops_cli.Ports.{Error, Result, ok, err, invalid, store_unusable, record_too_large, binding_eq}
use xops_cli.Transfer.Record.{
  upload, direction_eq, ready, transferring, timed_out, unknown, state_eq, Spec, Record, Status,
  Codec, encode_record, status_of, temporary_path, max_record_bytes,
}
use xops_cli.Transfer.Manager.{
  Manager, RequestKey, request_key_eq, removed, call_store, next_outcome, save,
}

pub record Prepared : Type 0 where
  pub status : Status
  pub token : String

-- 9999-12-31T23:59:59.999999999Z
abbrev pub latest_time : ℕ
latest_time = 315537897599999999999

unfoldable pub spec_beq : Spec → Spec → Bool
spec_beq a b =
    a.request_id == b.request_id
    && a.request_digest == b.request_digest
    && a.requested_path == b.requested_path
    && a.scope == b.scope
    && a.direction == b.direction
    && a.node_id == b.node_id
    && a.target_id == b.target_id
    && a.remote_path == b.remote_path
    && a.size == b.size
    && a.sha256 == b.sha256
    && (if a.overwrite then b.overwrite else negate b.overwrite)
    && a.source_mod_time == b.source_mod_time

-- strings.Repeat of one character
unfoldable pub repeat_char : ℕ → Char → String
repeat_char zero c = ""
repeat_char (suc n) c = String.◌∷◌ c (repeat_char n c)

-- The record with every mutable field at its largest: a token is issued only if it fits.
unfoldable pub largest : Record → Record
unfolding repeat_char
largest r = record r {
  state = transferring;
  updated_at = latest_time;
  bytes = r.spec.size;
  sha256 = repeat_char 64 "f";
  temp_path =
      if r.spec.direction == upload then temporary_path r.spec.remote_path r.id else r.temp_path;
  error = repeat_char 4096 "e";
  warning = repeat_char 4096 "e";
  resolution = repeat_char 4096 "e";
  temp_owned = false;
  cleanup_pending = false;
  cancel_requested = false;
  resolved = false;
}

unfoldable pub validate_preparation_size : Codec → Record → Option Error
unfolding largest
validate_preparation_size c r = elim (encode_record c r) [
  | some e ↦ some e
  | none ↦ if ltb max_record_bytes (c.encoded_size (largest r)) then some record_too_large else none
]

-- `random` is the token, or none on a failure of the random source.
unfoldable pub issue : Codec → Manager → Record → Option String → ℕ → Result Prepared × Manager
issue c m r none now = (err invalid, m)
issue c m r (some token) now =
    let r' = record r { token_digest = c.token_digest token; updated_at = now } in
    elim (validate_preparation_size c r') [
      | some e ↦ (err e, m)
      | none ↦
          let (e, m') = save c m r' in
          elim e [
            | some x ↦ (err x, m')
            | none ↦ (ok (record { status = status_of r'; token = token }), m')
          ]
    ]

-- The end of a round of collect's loop: a record is removed unless it is current, or the evidence
-- of a cleanup or of an uncertain commit.
unfoldable pub discard_entry : ℕ → String → Record → Manager → Option Error × Manager
discard_entry now id r m =
    let called = call_store m (removed id) in
    let key : RequestKey = record { scope = r.spec.scope; id = r.spec.request_id } in
    if ltb now r.status_expires_at || r.cleanup_pending || (r.state == unknown && negate r.resolved)
    then (none, m)
    else if next_outcome m.store.outcomes
    then (
      none,
      record called { records = Dict.delete m.records id; requests = Dict.delete m.requests key },
    )
    else (some store_unusable, record called { store_failed = true })

-- One round: `now` is collect's one reading of the clock.
unfoldable pub collect_entry : Codec → ℕ → String → Record → Manager → Option Error × Manager
collect_entry c now id r m =
    let due = r.state == ready && leb r.start_before now in
    let current = if due then record r { state = timed_out; updated_at = now } else r in
    let (e, m') = if due then save c m current else (none, m) in
    let kept = discard_entry now id current m' in elim e [ some x ↦ (some x, m') | none ↦ kept ]

-- The loop over the records, in the order in which Go's range visits them.
unfoldable pub collect_entries : Codec → ℕ → Dict String Record → Manager → Option Error × Manager
collect_entries c now [] m = (none, m)
collect_entries c now ((id, r) ∷ es) m =
    let (e, m') = if Dict.has m.active id then (none, m) else collect_entry c now id r m in
    let rest = collect_entries c now es m' in elim e [ some x ↦ (some x, m') | none ↦ rest ]

unfoldable pub collect : Codec → Manager → ℕ → Option Error × Manager
collect c m now = collect_entries c now m.records m
