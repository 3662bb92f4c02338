-- ===== src/Session/Slots.antt =====
-- core/mcp/session/manager.go: the limits on sessions, counted with the dials under way.
use xops_cli.Base.{
  Bool-cases, List, Option-cases, String, [], arith, count, inl, inr, length, length-map, map, none,
  refl, subst, sym, true, ℕ, ◌+◌, ◌<◌, ◌==◌, ◌!=◌, ◌||◌, ◌≡◌, ◌∷◌, ==→eq, string_eq, nat_eq,
}
use xops_cli.Base.Dict.{delete, get, get-put, length-delete-le, no_keys, put-IsUnique}
use xops_cli.Session.Table.{
  Key, Manager, Session, Slot, check_capacity, fails, find_slot, manager_closed, retries, reuses,
  in_scope, is_expired, join_or_reserve, key_eq, new_manager, new_session, pending_of,
  remove_session, reserve_slot, shutdown, sweep_idle, take_reusable, total, without_expired,
}
use xops_cli.Session.Steps.{
  Dial, Op, World, end_session, ending, failing, find_dial, finding, more_dials, publishing,
  removing, run, shutting, start, step, sweeping, with_sessions, work_session, working,
}
use xops_cli.Session.Counts.{
  count-map, length-without_expired, scope-delete, scope-without_expired, total-put,
}
use xops_cli.Session.Dials.{Fits, fewer-Fits, finish-Fits, publish-Fits}

capacity-room :
    (m : Manager) (scope : String)
    → check_capacity m scope ≡ none
    → (length m.sessions + total m.pending < m.max_total_sessions)
      × (pending_of m.pending scope + count (in_scope scope) m.sessions < m.max_sessions)
unfolding check_capacity
capacity-room m scope c = (ground (arith, c), ground (arith, c))

reserve-Fits :
    (m : Manager) (dials : List Dial) (key : Key) (generation : String) (id : ℕ)
    → Fits m dials
    → Fits
        (reserve_slot m key generation id).1
        (more_dials (reserve_slot m key generation id).0 key dials)
unfolding reserve_slot
reserve-Fits m dials key generation id f = elim (Option-cases (check_capacity m key.scope)) [
  | inr (e, c) ↦ simp (reserve_slot, c) f
  | inl c ↦
      let (room, scope_room) = capacity-room m key.scope c in
      let n = pending_of m.pending key.scope + 1 in
      simp (reserve_slot, c)
        (record {
          total_limit = f.total_limit;
          scope_limit = f.scope_limit;
          unique = put-IsUnique m.pending key.scope n f.unique;
          total_same = omega (arith, total-put m.pending key.scope n, f.total_same);
          scope_same = λ scope. elim (Bool-cases (key.scope == scope)) [
            | inl e ↦ ground (
              arith,
              e,
              ==→eq key.scope scope e,
              get-put m.pending key.scope n scope,
              f.scope_same scope,
            )
            | inr e ↦ ground (arith, e, get-put m.pending key.scope n scope, f.scope_same scope)
          ];
          total_few = omega (arith, room, f.total_same, f.total_limit, f.total_few);
          scope_few = λ scope. elim (Bool-cases (key.scope == scope)) [
            | inl e ↦
                let same = ==→eq key.scope scope e in
                let room' =
                  subst
                    (λ x. pending_of m.pending x + count (in_scope x) m.sessions < m.max_sessions)
                    same scope_room in
                ground (arith, e, room', f.scope_same scope, f.scope_limit)
            | inr e ↦ ground (arith, e, f.scope_few scope)
          ];
        })
]

join-Fits :
    (m : Manager) (dials : List Dial) (key : Key) (generation : String) (id : ℕ)
    → Fits m dials
    → Fits
        (join_or_reserve m key generation id).1
        (more_dials (join_or_reserve m key generation id).0 key dials)
unfolding join_or_reserve
join-Fits m dials key generation id f = elim (Option-cases (get m.inflight key)) [
  | inl i ↦ simp (join_or_reserve, i) (reserve-Fits m dials key generation id f)
  | inr (call, i) ↦ elim (Bool-cases (call.generation == generation)) [
    | inl k ↦ simp (join_or_reserve, i, k) f
    | inr k ↦ simp (join_or_reserve, i, k) (reserve-Fits m dials key generation id f)
  ]
]

find-Fits :
    (m : Manager) (dials : List Dial) (key : Key) (generation : String) (now id : ℕ)
    → Fits m dials
    → Fits
        (find_slot m key generation now id).1
        (more_dials (find_slot m key generation now id).0 key dials)
unfolding find_slot take_reusable
find-Fits m dials key generation now id f =
    let goal = λ (x : Slot × Manager). Fits x.1 (more_dials x.0 key dials) in
    elim (Bool-cases m.closed) [
      | inl c ↦
          let e : find_slot m key generation now id ≡ (fails manager_closed, m) =
            ground (arith, c) in
          subst goal (sym e) f
      | inr c ↦ elim (Option-cases (get m.sessions key)) [
        | inr (s, g) ↦
            elim (Bool-cases
              (s.is_closed || s.generation != generation || is_expired s now m.idle_ttl)) [
                | inl k ↦
                    let left : Manager = record m { sessions = delete m.sessions key } in
                    let e : find_slot m key generation now id ≡ (retries s, left) =
                      ground (arith, c, g, k) in
                    subst goal (sym e) (
                      fewer-Fits m dials (delete m.sessions key) m.closed f
                        (length-delete-le m.sessions key) (scope-delete m.sessions key))
                | inr k ↦
                    let e : find_slot m key generation now id ≡ (reuses s, m) =
                      ground (arith, c, g, k) in
                    subst goal (sym e) f
              ]
        | inl g ↦
            let e : find_slot m key generation now id ≡ join_or_reserve m key generation id =
              ground (arith, c, g) in
            subst goal (sym e) (join-Fits m dials key generation id f)
      ]
    ]

remove-Fits :
    (m : Manager) (dials : List Dial) (key : Key) (id : ℕ)
    → Fits m dials
    → Fits (remove_session m key id) dials
unfolding remove_session
remove-Fits m dials key id f = elim (Option-cases (get m.sessions key)) [
  | inl g ↦ simp (remove_session, g) f
  | inr (s, g) ↦ elim (Bool-cases (s.id == id)) [
    | inl k ↦
        simp (remove_session, g, k)
          (fewer-Fits m dials (delete m.sessions key) m.closed f (length-delete-le m.sessions key)
            (scope-delete m.sessions key))
    | inr k ↦ simp (remove_session, g, k) f
  ]
]

map-Fits :
    (m : Manager) (dials : List Dial) (g : Key × Session → Key × Session)
    → Fits m dials
    → ((scope : String) (x : Key × Session) → in_scope scope (g x) ≡ in_scope scope x)
    → Fits (with_sessions m (map g m.sessions)) dials
map-Fits m dials g f same =
    fewer-Fits m dials (map g m.sessions) m.closed f (omega (arith, length-map g m.sessions))
      (λ scope. omega (arith, count-map (in_scope scope) g m.sessions (same scope)))

step-Fits :
    (op : Op) (w : World) → Fits w.manager w.dials → Fits (step op w).manager (step op w).dials
unfolding step sweep_idle shutdown
step-Fits (finding key generation now) w f =
    find-Fits w.manager w.dials key generation now w.next_id f
step-Fits (failing id) w f = elim (Option-cases (find_dial w.dials id)) [
  | inl n ↦ simp (step, n) f
  | inr (dial, n) ↦ simp (step, n) (finish-Fits w.manager w.dials id dial f n)
]
step-Fits (publishing id session_id now is_closed) w f =
    elim (Option-cases (find_dial w.dials id)) [
      | inl n ↦ simp (step, n) f
      | inr (dial, n) ↦
          simp (step, n)
            (publish-Fits w.manager w.dials id dial dial.call.generation
              (new_session session_id dial.call.generation now is_closed) f n)
    ]
step-Fits (removing key id) w f = remove-Fits w.manager w.dials key id f
step-Fits (sweeping now) w f =
    fewer-Fits w.manager w.dials (without_expired w.manager.idle_ttl now w.manager.sessions)
      w.manager.closed f (length-without_expired w.manager.idle_ttl now w.manager.sessions)
      (scope-without_expired w.manager.idle_ttl now w.manager.sessions)
step-Fits shutting w f = fewer-Fits w.manager w.dials [] true f (omega arith) (λ scope. omega arith)
step-Fits (ending id) w f = map-Fits w.manager w.dials (end_session id) f (λ scope x. refl)
step-Fits (working id busy now) w f =
    map-Fits w.manager w.dials (work_session id busy now) f (λ scope x. refl)

run-Fits :
    (ops : List Op) (w : World)
    → Fits w.manager w.dials
    → Fits (run ops w).manager (run ops w).dials
unfolding run
run-Fits [] w f = f
run-Fits (op ∷ ops) w f = run-Fits ops (step op w) (step-Fits op w f)

-- At any point there are no more than 64 sessions, those counted whose dial is under way, and no
-- more than 16 in one scope. The slots that are taken in a scope are those of its dials under way:
-- none is lost when a dial fails, when its session is refused and when another session is there.
pub new_manager-Fits :
    (idle_ttl : ℕ) (ops : List Op)
    → Fits
        (run ops (start (new_manager idle_ttl))).manager
        (run ops (start (new_manager idle_ttl))).dials
unfolding new_manager start get
new_manager-Fits idle_ttl ops = run-Fits ops (start (new_manager idle_ttl)) (record {
  total_limit = refl;
  scope_limit = refl;
  unique = no_keys;
  total_same = refl;
  scope_same = λ scope. refl;
  total_few = omega arith;
  scope_few = λ scope. omega arith;
})
