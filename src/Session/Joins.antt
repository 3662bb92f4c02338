-- ===== src/Session/Joins.antt =====
-- core/mcp/session/manager.go: one turn of findOrReserveSlot for a key that has no session.
use xops_cli.Base.{
  Bool-cases, Option, Option-cases, String, [], arith, false, inl, inr, none, ap, refl, some, true,
  ℕ, ◌==◌, ◌≡◌, ◌∷◌, ==→eq, string_eq, nat_eq,
}
use xops_cli.Base.Dict.{Dict, get}
use xops_cli.Session.Table.{
  DialCall, Error, Key, Manager, Session, Slot, check_capacity, fails, find_slot, is_expired,
  join_or_reserve, key_eq, manager_closed, reserve_slot, reserves, reuses, take_reusable,
  too_many_sessions, waits, without_expired,
}

-- What a caller may come to. It is only refused for the limits when no session is left that has
-- expired.
pub data IsFinal (key : Key) (generation : String) (now : ℕ) : Slot → Manager → Type 0 where
  closed : {m : Manager} → m.closed ≡ true → IsFinal key generation now (fails manager_closed) m
  full :
      {m : Manager}
      → check_capacity m key.scope ≡ some too_many_sessions
      → without_expired m.idle_ttl now m.sessions ≡ m.sessions
      → IsFinal key generation now (fails too_many_sessions) m
  reused :
      {m : Manager} (s : Session)
      → get m.sessions key ≡ some s
      → s.generation ≡ generation
      → is_expired s now m.idle_ttl ≡ false
      → IsFinal key generation now (reuses s) m
  waiting :
      {m : Manager} (call : DialCall)
      → get m.inflight key ≡ some call
      → call.generation ≡ generation
      → IsFinal key generation now (waits call) m
  reserved : {m : Manager} (call : DialCall) → IsFinal key generation now (reserves call) m

pub record Ends (key : Key) (generation : String) (now : ℕ) (result : Option (Slot × Manager))
    : Type 0 where
  pub slot : Slot
  pub after : Manager
  pub returns : result ≡ some (slot, after)
  pub final : IsFinal key generation now slot after

-- What a caller comes to whose key has no session
pub data Joins (m : Manager) (key : Key) (generation : String) : Slot × Manager → Type 0 where
  waits_for :
      (call : DialCall)
      → get m.inflight key ≡ some call
      → call.generation ≡ generation
      → Joins m key generation (waits call, m)
  has_slot : (call : DialCall) (after : Manager) → Joins m key generation (reserves call, after)
  refused : (e : Error) → check_capacity m key.scope ≡ some e → Joins m key generation (fails e, m)

reserve-Joins :
    (m : Manager) (key : Key) (generation : String) (id : ℕ)
    → Joins m key generation (reserve_slot m key generation id)
unfolding reserve_slot
reserve-Joins m key generation id = elim (Option-cases (check_capacity m key.scope)) [
  | inr (e, c) ↦ simp (reserve_slot, c) (refused e c)
  | inl c ↦ simp (reserve_slot, c) (has_slot _ _)
]

pub join-Joins :
    (m : Manager) (key : Key) (generation : String) (id : ℕ)
    → Joins m key generation (join_or_reserve m key generation id)
unfolding join_or_reserve
join-Joins m key generation id = elim (Option-cases (get m.inflight key)) [
  | inl i ↦ simp (join_or_reserve, i) (reserve-Joins m key generation id)
  | inr (call, i) ↦ elim (Bool-cases (call.generation == generation)) [
    | inl k ↦ simp (join_or_reserve, i, k) (waits_for call i (==→eq call.generation generation k))
    | inr k ↦ simp (join_or_reserve, i, k) (reserve-Joins m key generation id)
  ]
]

pub open-too_many :
    (m : Manager) (scope : String) (e : Error)
    → m.closed ≡ false
    → check_capacity m scope ≡ some e
    → e ≡ too_many_sessions
unfolding check_capacity
open-too_many m scope e o c = ground (arith, o, c)

pub absent-find :
    (m : Manager) (key : Key) (generation : String) (now id : ℕ)
    → m.closed ≡ false
    → get m.sessions key ≡ none
    → find_slot m key generation now id ≡ join_or_reserve m key generation id
unfolding find_slot take_reusable
absent-find m key generation now id o g = ground (arith, o, g)

pub get-without_expired :
    (ttl now : ℕ) (d : Dict Key Session) (key : Key)
    → get d key ≡ none
    → get (without_expired ttl now d) key ≡ none
unfolding without_expired get
get-without_expired ttl now [] key g = refl
get-without_expired ttl now ((k, s) ∷ d) key g =
    ground (arith, g, get-without_expired ttl now d key)

pub without_expired-twice :
    (ttl now : ℕ) (d : Dict Key Session)
    → without_expired ttl now (without_expired ttl now d) ≡ without_expired ttl now d
unfolding without_expired
without_expired-twice ttl now [] = refl
without_expired-twice ttl now ((k, s) ∷ d) = elim (Bool-cases (is_expired s now ttl)) [
  | inl e ↦ simp (without_expired, e) (without_expired-twice ttl now d)
  | inr e ↦ simp (without_expired, e) (ap (◌∷◌ (k, s)) (without_expired-twice ttl now d))
]
