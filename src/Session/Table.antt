-- ===== src/Session/Table.antt =====
-- core/mcp/session/manager.go: the manager's table of sessions, and its sections under the lock.
use xops_cli.Base.{
  ==_refl, ==→eq, Bool, Eq, Option, String, [], arith, count, false, if◌then◌else◌, leb, length,
  none, some, suc, true, zero, ℕ, ◌!=◌, ◌&&◌, ◌*◌, ◌+◌, ◌-◌, ◌==◌, ◌||◌, ◌↔◌, ◌∷◌, ◌≡◌, nat_eq,
  string_eq,
}
use xops_cli.Base.Dict.{Dict, delete, get, put}

pub record Key : Type 0 where
  pub scope : String
  pub node_id : String
  pub session_name : String

unfoldable pub key_beq : Key → Key → Bool
key_beq a b = a.scope == b.scope && a.node_id == b.node_id && a.session_name == b.session_name

pub key_beq_iff : (a b : Key) → (key_beq a b ≡ true) ↔ (a ≡ b)
unfolding key_beq
key_beq_iff a b = (
  λ h. ground (
    arith,
    ==→eq a.scope b.scope,
    ==→eq a.node_id b.node_id,
    ==→eq a.session_name b.session_name,
  ),
  λ h. rw h (ground (arith, ==_refl b.scope, ==_refl b.node_id, ==_refl b.session_name)),
)

instance abbrev pub key_eq : Eq Key
key_eq = record { beq = key_beq; beq_iff = key_beq_iff }

-- managedSession, with a number that is its identity; its times in nanoseconds; whether its reader
-- has ended, and whether a command is in flight
pub record Session : Type 0 where
  pub id : ℕ
  pub generation : String
  pub created_at : ℕ
  pub last_active : ℕ
  pub is_closed : Bool
  pub is_busy : Bool

pub record DialCall : Type 0 where
  pub id : ℕ
  pub generation : String

pub record Manager : Type 0 where
  pub idle_ttl : ℕ
  pub max_sessions : ℕ
  pub max_total_sessions : ℕ
  pub closed : Bool
  pub sessions : Dict Key Session
  pub pending : Dict String ℕ
  pub inflight : Dict Key DialCall

pub data Error : Type 0 where
  manager_closed too_many_sessions : Error

abbrev default_idle_ttl : ℕ
default_idle_ttl = 30 * 60 * 1000000000

abbrev max_session_lifetime : ℕ
max_session_lifetime = 12 * 60 * 60 * 1000000000

-- NewManager, where a time to live that is not positive is 0
unfoldable pub new_manager : ℕ → Manager
new_manager idle_ttl = record {
  idle_ttl = if idle_ttl == 0 then default_idle_ttl else idle_ttl;
  max_sessions = 16;
  max_total_sessions = 64;
  closed = false;
  sessions = [];
  pending = [];
  inflight = [];
}

-- A session that exists has a time at which it was made.
unfoldable pub is_expired : Session → ℕ → ℕ → Bool
is_expired s now idle_ttl =
    let ttl = if s.is_busy then idle_ttl * 2 else idle_ttl in
    s.is_closed || leb (s.last_active + ttl) now || leb (s.created_at + max_session_lifetime) now

abbrev pub total : Dict String ℕ → ℕ
total [] = 0
total ((scope, n) ∷ rest) = n + total rest

-- m.pending[scope]
abbrev pub pending_of : Dict String ℕ → String → ℕ
pending_of pending scope = elim (get pending scope) [ none ↦ 0 | some n ↦ n ]

abbrev pub in_scope : String → Key × Session → Bool
in_scope scope (k, s) = k.scope == scope

-- checkCapacityLocked: `none` is success.
unfoldable pub check_capacity : Manager → String → Option Error
check_capacity m scope =
    if m.closed
    then some manager_closed
    else if leb m.max_total_sessions (length m.sessions + total m.pending)
    then some too_many_sessions
    else if leb m.max_sessions (pending_of m.pending scope + count (in_scope scope) m.sessions)
    then some too_many_sessions
    else none

-- takeReusableLocked: the session to reuse or the stale one that is taken out
pub data Taken : Type 0 where
  nothing : Taken
  reuse stale : Session → Taken

unfoldable pub take_reusable : Manager → Key → String → ℕ → Taken × Manager
unfolding is_expired
take_reusable m key generation now = elim (get m.sessions key) [
  | none ↦ (nothing, m)
  | some s ↦
      if s.is_closed || s.generation != generation || is_expired s now m.idle_ttl
      then (stale s, record m { sessions = delete m.sessions key })
      else (reuse s, m)
]

-- What one turn of findOrReserveSlot's loop comes to: an error, a session, a stale one before the
-- next turn, a call to wait for, or a call whose dial is the caller's
pub data Slot : Type 0 where
  fails : Error → Slot
  reuses retries : Session → Slot
  waits reserves : DialCall → Slot

unfoldable pub reserve_slot : Manager → Key → String → ℕ → Slot × Manager
unfolding check_capacity
reserve_slot m key generation id = elim (check_capacity m key.scope) [
  | some e ↦ (fails e, m)
  | none ↦
      let call : DialCall = record { id = id; generation = generation } in
      (
        reserves call,
        record m {
          pending = put m.pending key.scope (pending_of m.pending key.scope + 1);
          inflight = put m.inflight key call;
        },
      )
]

-- Where the key has no session
unfoldable pub join_or_reserve : Manager → Key → String → ℕ → Slot × Manager
unfolding reserve_slot
join_or_reserve m key generation id = elim (get m.inflight key) [
  | none ↦ reserve_slot m key generation id
  | some call ↦
      if call.generation == generation then (waits call, m) else reserve_slot m key generation id
]

unfoldable pub find_slot : Manager → Key → String → ℕ → ℕ → Slot × Manager
unfolding take_reusable join_or_reserve
find_slot m key generation now id =
    if m.closed
    then (fails manager_closed, m)
    else let (taken, m') = take_reusable m key generation now in
      elim taken [
        | stale s ↦ (retries s, m')
        | reuse s ↦ (reuses s, m')
        | nothing ↦ join_or_reserve m' key generation id
      ]

-- releaseSlotLocked
unfoldable pub release_slot : Dict String ℕ → String → Dict String ℕ
release_slot pending scope =
    let n = pending_of pending scope in
    if leb n 1 then delete pending scope else put pending scope (n - 1)

-- delete(m.inflight, key), where the call is still the key's
unfoldable pub forget_call : Dict Key DialCall → Key → DialCall → Dict Key DialCall
forget_call inflight key call = elim (get inflight key) [
  | none ↦ inflight
  | some c ↦ if c.id == call.id then delete inflight key else inflight
]

-- finishReservedDialLocked, but for what the waiting callers are told
unfoldable pub finish_dial : Manager → Key → DialCall → Manager
unfolding release_slot forget_call
finish_dial m key call = record m {
  pending = release_slot m.pending key.scope;
  inflight = forget_call m.inflight key call;
}

-- The session that getOrCreate makes for a call; its reader may have ended already.
unfoldable pub new_session : ℕ → String → ℕ → Bool → Session
new_session id generation now is_closed = record {
  id = id;
  generation = generation;
  created_at = now;
  last_active = now;
  is_closed = is_closed;
  is_busy = false;
}

pub data Published : Type 0 where
  refused : Error → Published
  kept stored : Session → Published

unfoldable pub store_session : Manager → Key → DialCall → Session → Manager
unfolding finish_dial
store_session m key call s = record (finish_dial m key call) { sessions = put m.sessions key s }

unfoldable pub publish_session : Manager → Key → String → DialCall → Session → Published × Manager
unfolding finish_dial store_session check_capacity
publish_session m key generation call s =
    if m.closed
    then (refused manager_closed, finish_dial m key call)
    else elim (get m.sessions key) [
      | some raced ↦
          if raced.generation == generation && (if raced.is_closed then false else true)
          then (kept raced, finish_dial m key call)
          else (stored s, store_session m key call s)
      | none ↦
          elim (check_capacity (record m { pending = release_slot m.pending key.scope })
            key.scope) [
              | some e ↦ (refused e, finish_dial m key call)
              | none ↦ (stored s, store_session m key call s)
            ]
    ]

unfoldable pub remove_session : Manager → Key → ℕ → Manager
remove_session m key id = elim (get m.sessions key) [
  | none ↦ m
  | some s ↦ if s.id == id then record m { sessions = delete m.sessions key } else m
]

unfoldable pub without_expired : ℕ → ℕ → Dict Key Session → Dict Key Session
unfolding is_expired
without_expired idle_ttl now [] = []
without_expired idle_ttl now ((k, s) ∷ rest) =
    let left = without_expired idle_ttl now rest in
    if is_expired s now idle_ttl then left else (k, s) ∷ left

-- SweepIdle
unfoldable pub sweep_idle : Manager → ℕ → Manager
unfolding without_expired
sweep_idle m now = record m { sessions = without_expired m.idle_ttl now m.sessions }

-- findOrReserveSlot, but for the wait for another caller's dial (Waits.after_wait), where no other caller comes
-- between its turns and its clock stands still. The fuel is the number of turns.
unfoldable pub find_or_reserve : ℕ → Bool → Manager → Key → String → ℕ → ℕ → Option (Slot × Manager)
unfolding find_slot sweep_idle
find_or_reserve zero swept m key generation now id = none
find_or_reserve (suc fuel) swept m key generation now id =
    let (slot, m') = find_slot m key generation now id in
    elim slot [
      | retries s ↦ find_or_reserve fuel swept m' key generation now id
      | reuses s ↦ some (reuses s, m')
      | waits call ↦ some (waits call, m')
      | reserves call ↦ some (reserves call, m')
      | fails e ↦ elim e [
        | manager_closed ↦ some (fails manager_closed, m')
        | too_many_sessions ↦
            if swept
            then some (fails too_many_sessions, m')
            else find_or_reserve fuel true (sweep_idle m' now) key generation now id
      ]
    ]

-- Shutdown, up to the closing of the sessions that it takes out
unfoldable pub shutdown : Manager → Manager
shutdown m = record m { closed = true; sessions = [] }
