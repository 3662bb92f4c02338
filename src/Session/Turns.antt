-- ===== src/Session/Turns.antt =====
-- core/mcp/session/manager.go: the turns of findOrReserveSlot.
use xops_cli.Base.{
  Bool-cases, Option-cases, String, arith, false, inl, inr, none, ap, some, subst, suc, sym, true,
  ℕ, ◌!=◌, ◌||◌, ◌≡◌, ◌∙◌, ==→eq, string_eq, nat_eq,
}
use xops_cli.Base.Dict.{delete, get, get-delete}
use xops_cli.Session.Table.{
  Key, Manager, Session, Slot, fails, find_or_reserve, find_slot, is_expired, join_or_reserve,
  key_eq, manager_closed, reserves, retries, reuses, sweep_idle, take_reusable, too_many_sessions,
  waits, without_expired,
}
use xops_cli.Session.Joins.{
  closed, full, reused, waiting, reserved, Ends, Joins, waits_for, has_slot, refused, join-Joins,
  open-too_many, absent-find, get-without_expired, without_expired-twice,
}

module _ (key : Key) (generation : String) (now id : ℕ) where
  swept-Ends :
      (fuel : ℕ) (m : Manager) (r : Slot × Manager)
      → m.closed ≡ false
      → without_expired m.idle_ttl now m.sessions ≡ m.sessions
      → find_slot m key generation now id ≡ r
      → Joins m key generation r
      → Ends key generation now (find_or_reserve (suc fuel) true m key generation now id)
  unfolding find_or_reserve
  swept-Ends fuel m r o w f (waits_for call i k) = record {
    slot = waits call;
    after = m;
    returns = ground (arith, f);
    final = waiting call i k;
  }
  swept-Ends fuel m r o w f (has_slot call after) = record {
    slot = reserves call;
    after = after;
    returns = ground (arith, f);
    final = reserved call;
  }
  swept-Ends fuel m r o w f (refused e c) =
      let t = open-too_many m key.scope e o c in
      record {
        slot = fails too_many_sessions;
        after = m;
        returns = ground (arith, f, t);
        final = full (c ∙ ap some t) w;
      }

  sweeps-again :
      (fuel : ℕ) (m : Manager)
      → find_slot m key generation now id ≡ (fails too_many_sessions, m)
      → find_or_reserve (suc (suc fuel)) false m key generation now id
        ≡ find_or_reserve (suc fuel) true (sweep_idle m now) key generation now id
  unfolding find_or_reserve
  sweeps-again fuel m h = ground (arith, h)

  absent-Ends :
      (fuel : ℕ) (m : Manager) (r : Slot × Manager)
      → m.closed ≡ false
      → get m.sessions key ≡ none
      → find_slot m key generation now id ≡ r
      → Joins m key generation r
      → Ends key generation now (find_or_reserve (suc (suc fuel)) false m key generation now id)
  unfolding find_or_reserve sweep_idle
  absent-Ends fuel m r o g f (waits_for call i k) = record {
    slot = waits call;
    after = m;
    returns = ground (arith, f);
    final = waiting call i k;
  }
  absent-Ends fuel m r o g f (has_slot call after) = record {
    slot = reserves call;
    after = after;
    returns = ground (arith, f);
    final = reserved call;
  }
  absent-Ends fuel m r o g f (refused e c) =
      let t = open-too_many m key.scope e o c in
      let swept = sweep_idle m now in
      let gone = get-without_expired m.idle_ttl now m.sessions key g in
      let last =
        swept-Ends fuel swept (join_or_reserve swept key generation id) o
          (without_expired-twice m.idle_ttl now m.sessions)
          (absent-find swept key generation now id o gone) (join-Joins swept key generation id) in
      subst (Ends key generation now) (sym (sweeps-again fuel m (f ∙ ap (λ x. (fails x, m)) t)))
        last

  retries-once :
      (fuel : ℕ) (m after : Manager) (s : Session)
      → find_slot m key generation now id ≡ (retries s, after)
      → find_or_reserve (suc fuel) false m key generation now id
        ≡ find_or_reserve fuel false after key generation now id
  unfolding find_or_reserve
  retries-once fuel m after s h = ground (arith, h)

  Ends-closed :
      (m : Manager)
      → m.closed ≡ true
      → Ends key generation now (find_or_reserve 3 false m key generation now id)
  unfolding find_or_reserve find_slot
  Ends-closed m c = record {
    slot = fails manager_closed;
    after = m;
    returns = ground (arith, c);
    final = closed c;
  }

  reuses-at-once :
      (m : Manager) (s : Session)
      → find_slot m key generation now id ≡ (reuses s, m)
      → find_or_reserve 3 false m key generation now id ≡ some (reuses s, m)
  unfolding find_or_reserve
  reuses-at-once m s h = ground (arith, h)

  stored-Ends :
      (m : Manager) (s : Session)
      → m.closed ≡ false
      → get m.sessions key ≡ some s
      → Ends key generation now (find_or_reserve 3 false m key generation now id)
  unfolding find_slot take_reusable
  stored-Ends m s o g =
      elim (Bool-cases (s.is_closed || s.generation != generation || is_expired s now m.idle_ttl)) [
        | inl k ↦
            let left : Manager = record m { sessions = delete m.sessions key } in
            let f : find_slot m key generation now id ≡ (retries s, left) =
              ground (arith, o, g, k) in
            let gone : get left.sessions key ≡ none =
              ground (arith, get-delete m.sessions key key, key_eq.beq_iff key key) in
            let last =
              absent-Ends 0 left (join_or_reserve left key generation id) o gone
                (absent-find left key generation now id o gone)
                (join-Joins left key generation id) in
            subst (Ends key generation now) (sym (retries-once 2 m left s f)) last
        | inr k ↦
            let f : find_slot m key generation now id ≡ (reuses s, m) = ground (arith, o, g, k) in
            record {
              slot = reuses s;
              after = m;
              returns = reuses-at-once m s f;
              final =
                  reused s g (ground (arith, k, ==→eq s.generation generation)) (ground (arith, k));
            }
      ]

-- findOrReserveSlot comes to an end, in three turns at most where no other caller comes between.
-- It gives a session under the key that has not expired, another caller's dial to wait for or a
-- slot for a dial of its own; or the manager is shut down; or the limits are reached though no
-- session is left that has expired.
pub find_or_reserve-Ends :
    (m : Manager) (key : Key) (generation : String) (now id : ℕ)
    → Ends key generation now (find_or_reserve 3 false m key generation now id)
find_or_reserve-Ends m key generation now id = elim (Bool-cases m.closed) [
  | inl c ↦ Ends-closed key generation now id m c
  | inr o ↦ elim (Option-cases (get m.sessions key)) [
    | inr (s, g) ↦ stored-Ends key generation now id m s o g
    | inl g ↦
        absent-Ends key generation now id 1 m (join_or_reserve m key generation id) o g
          (absent-find m key generation now id o g) (join-Joins m key generation id)
  ]
]
