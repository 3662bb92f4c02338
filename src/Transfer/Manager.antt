-- ===== src/Transfer/Manager.antt =====
-- core/mcp/transfer/manager.go: the manager's state, its saves and lookups. A method that may
-- fail returns its result and the manager that it leaves, beside an error too. `Clock` gives the
-- successive readings of the clock within one call.
use xops_cli.Base.{
  ==_refl, ==→eq, Bool, Eq, List, Option, String, [], all, any, arith, codes, count, if◌then◌else◌,
  leb, ltb, map, negate, none, some, true, ℕ, ◌!=◌, ◌&&◌, ◌+◌, ◌-◌, ◌==◌, ◌^◌, ◌||◌, ◌↔◌, ◌∷◌, ◌≡◌,
  nat_eq, string_eq, text_eq,
}
use xops_cli.Base.Dict
use xops_cli.Base.Dict.{Dict}
use xops_cli.Ports.{Error, Result, ok, err, unauthorized, not_found, closed, store_unusable, is_hex}
use xops_cli.Transfer.Record.{
  upload, direction_eq, ready, timed_out, unknown, state_eq, Spec, Record, Status, Codec,
  encode_record, status_of,
}

pub record Limits : Type 0 where
  pub max_file_bytes : ℕ
  pub max_active : ℕ
  pub max_per_target : ℕ
  pub max_ready : ℕ
  pub max_records : ℕ
  pub start_window : ℕ
  pub retention : ℕ
  pub total_timeout : ℕ
  pub commit_timeout : ℕ

-- Limits.Validate: a negative limit is refused as zero is.
unfoldable pub valid_limits : Limits → Bool
valid_limits l =
    negate (
      l.max_file_bytes == 0
      || ltb (2 ^ 50) l.max_file_bytes
      || l.max_active == 0
      || ltb 1024 l.max_active
      || l.max_per_target == 0
      || l.max_ready == 0
      || l.max_records == 0
      || ltb 65536 l.max_records)
    && negate (ltb l.max_active l.max_per_target || ltb l.max_records l.max_ready)
    && negate (
        l.start_window == 0
        || l.total_timeout == 0
        || l.commit_timeout == 0
        || leb l.retention l.start_window
        || leb (l.retention - l.start_window) l.total_timeout
        || leb (l.retention - l.start_window - l.total_timeout) l.commit_timeout)

pub record RequestKey : Type 0 where
  pub scope : String
  pub id : String

unfoldable pub request_key_beq : RequestKey → RequestKey → Bool
request_key_beq a b = a.scope == b.scope && a.id == b.id

pub request_key_beq_iff : (a b : RequestKey) → (request_key_beq a b ≡ true) ↔ (a ≡ b)
unfolding request_key_beq
request_key_beq_iff a b = (
  λ h. ground (arith, ==→eq a.scope b.scope, ==→eq a.id b.id),
  λ h. rw h (ground (arith, ==_refl b.scope, ==_refl b.id)),
)

instance abbrev pub request_key_eq : Eq RequestKey
request_key_eq = record { beq = request_key_beq; beq_iff = request_key_beq_iff }

-- A running task: what its context and its request's context report, its deadline, and whether
-- the caller's cancellation still reaches it (until stopRequest).
pub record ActiveTask : Type 0 where
  pub ctx_err : Option Error
  pub request_err : Option Error
  pub deadline : ℕ
  pub commit_reserved : Bool
  pub linked : Bool

-- A call of the Store interface, and whether it succeeded.
pub data StoreCall : Type 0 where
  saved : Record → Bool → StoreCall
  removed : String → Bool → StoreCall

-- The outcomes that the store has ahead (success once they run out) and its calls, newest first.
pub record Store : Type 0 where
  pub outcomes : List Bool
  pub calls : List StoreCall

abbrev pub next_outcome : List Bool → Bool
next_outcome [] = true
next_outcome (b ∷ bs) = b

abbrev pub later_outcomes : List Bool → List Bool
later_outcomes [] = []
later_outcomes (b ∷ bs) = bs

pub record Manager : Type 0 where
  pub limits : Limits
  pub records : Dict String Record
  pub requests : Dict RequestKey String
  pub active : Dict String ActiveTask
  pub closed : Bool
  pub ctx_err : Option Error
  pub store_failed : Bool
  pub drained : Bool
  pub store : Store

abbrev pub Clock : Type 0
Clock = ℕ → ℕ

unfoldable pub mutation_allowed : Manager → Option Error
mutation_allowed m = if m.closed then some closed else elim m.ctx_err [
  | some e ↦ some closed
  | none ↦ if m.store_failed then some store_unusable else none
]

-- Store.Save and Store.Remove
abbrev pub call_store : Manager → (Bool → StoreCall) → Manager
call_store m call = record m {
  store = record {
    outcomes = later_outcomes m.store.outcomes;
    calls = call (next_outcome m.store.outcomes) ∷ m.store.calls;
  };
}

unfoldable pub save : Codec → Manager → Record → Option Error × Manager
save c m r = elim (encode_record c r) [
  | some e ↦ (some e, m)
  | none ↦
      let called = call_store m (saved r) in
      if next_outcome m.store.outcomes
      then (none, record called { records = Dict.put m.records r.id r })
      else (some store_unusable, record called { store_failed = true })
]

unfoldable pub ready_count : Dict String Record → ℕ
ready_count records = count (λ e. e.1.state == ready) records

-- An upload to a destination whose last commit is uncertain
unfoldable pub blocks : Spec → Record → Bool
blocks spec r =
    r.state == unknown
    && negate r.resolved
    && r.spec.target_id == spec.target_id
    && r.spec.remote_path == spec.remote_path

unfoldable pub path_blocked : Dict String Record → Spec → Bool
path_blocked records spec = spec.direction == upload && any (λ e. blocks spec e.1) records

lower_hex : ℕ → ℕ
lower_hex c = if leb b'A' c && leb c b'F' then c + 32 else c

-- The recorded hex decodes to the bytes of this digest, which is in lower case.
unfoldable pub same_digest : String → String → Bool
unfolding lower_hex
same_digest recorded digest =
    all is_hex (codes recorded) && map lower_hex (codes recorded) == codes digest

-- An unknown task and a bad credential have the same error.
unfoldable pub authenticate : Codec → Manager → String → String → ℕ → Result Record
authenticate c m id token now = elim (Dict.get m.records id) [
  | none ↦ err unauthorized
  | some r ↦
      if same_digest r.token_digest (c.token_digest token) && ltb now r.status_expires_at
      then ok r
      else err unauthorized
]

unfoldable pub current_status : Record → ℕ → Status
current_status r now =
    if r.state == ready && leb r.start_before now
    then status_of (record r { state = timed_out })
    else status_of r

unfoldable pub authenticate_status : Codec → Manager → String → String → Clock → Result Status
authenticate_status c m id token clock = elim (authenticate c m id token (clock 0)) [
  | err e ↦ err e
  | ok r ↦ ok (current_status r (clock 1))
]

unfoldable pub lookup : Manager → String → String → ℕ → Result Status
lookup m scope id now = elim (Dict.get m.records id) [
  | none ↦ err not_found
  | some r ↦ if r.spec.scope != scope then err not_found else ok (current_status r now)
]
