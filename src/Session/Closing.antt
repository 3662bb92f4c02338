-- ===== src/Session/Closing.antt =====
-- core/mcp/session/manager.go: a manager after its Shutdown.
use xops_cli.Base.{
  Bool, false, List, Option-cases, String, [], ap, arith, inl, inr, map, none, refl, subst, sym,
  true, ℕ, ◌≡◌, ◌∷◌, string_eq, nat_eq,
}
use xops_cli.Base.Dict.{get}
use xops_cli.Session.Table.{
  DialCall, Key, Manager, Session, fails, find_slot, finish_dial, key_eq, manager_closed,
  new_session, publish_session, refused, remove_session, shutdown, sweep_idle, without_expired,
}
use xops_cli.Session.Waits.{after_wait, of_manager, published_end, stops}
use xops_cli.Session.Steps.{
  Op, World, end_session, ending, failing, find_dial, finding, publishing, removing, run, shutting,
  step, sweeping, work_session, working,
}

-- Shut down, and with no session
pub record IsShut (m : Manager) : Type 0 where
  pub shut : m.closed ≡ true
  pub no_sessions : m.sessions ≡ []

find-shut :
    (m : Manager) (key : Key) (generation : String) (now id : ℕ)
    → m.closed ≡ true
    → find_slot m key generation now id ≡ (fails manager_closed, m)
unfolding find_slot
find-shut m key generation now id c = ground (arith, c)

publish-shut :
    (m : Manager) (key : Key) (generation : String) (call : DialCall) (s : Session)
    → m.closed ≡ true
    → publish_session m key generation call s ≡ (refused manager_closed, finish_dial m key call)
unfolding publish_session
publish-shut m key generation call s c = ground (arith, c)

remove-shut : (m : Manager) (key : Key) (id : ℕ) → m.sessions ≡ [] → remove_session m key id ≡ m
unfolding remove_session get
remove-shut m key id n =
    let e : get m.sessions key ≡ none = ground (arith, n) in simp (remove_session, e) refl

step-IsShut : (op : Op) (w : World) → IsShut w.manager → IsShut (step op w).manager
unfolding step sweep_idle shutdown without_expired finish_dial
step-IsShut (finding key generation now) w s =
    subst (λ x. IsShut x.1) (sym (find-shut w.manager key generation now w.next_id s.shut)) s
step-IsShut (failing id) w s = elim (Option-cases (find_dial w.dials id)) [
  | inl n ↦ simp (step, n) s
  | inr (dial, n) ↦ simp (step, n) (record { shut = s.shut; no_sessions = s.no_sessions })
]
step-IsShut (publishing id session_id now is_closed) w s =
    elim (Option-cases (find_dial w.dials id)) [
      | inl n ↦ simp (step, n) s
      | inr (dial, n) ↦
          simp (step, n)
            (subst (λ x. IsShut x.1)
              (sym (
                publish-shut w.manager dial.key dial.call.generation dial.call
                  (new_session session_id dial.call.generation now is_closed) s.shut))
              (record { shut = s.shut; no_sessions = s.no_sessions }))
    ]
step-IsShut (removing key id) w s =
    subst IsShut (sym (remove-shut w.manager key id s.no_sessions)) s
step-IsShut (sweeping now) w s = record {
  shut = s.shut;
  no_sessions = ap (without_expired w.manager.idle_ttl now) s.no_sessions;
}
step-IsShut shutting w s = record { shut = refl; no_sessions = refl }
step-IsShut (ending id) w s = record {
  shut = s.shut;
  no_sessions = ap (map (end_session id)) s.no_sessions;
}
step-IsShut (working id busy now) w s = record {
  shut = s.shut;
  no_sessions = ap (map (work_session id busy now)) s.no_sessions;
}

run-IsShut : (ops : List Op) (w : World) → IsShut w.manager → IsShut (run ops w).manager
unfolding run
run-IsShut [] w s = s
run-IsShut (op ∷ ops) w s = run-IsShut ops (step op w) (step-IsShut op w s)

publish-waits :
    (m : Manager) (key : Key) (generation : String) (call : DialCall) (s : Session) (is_done : Bool)
    → m.closed ≡ true
    → after_wait false is_done (published_end (publish_session m key generation call s).0)
      ≡ stops (of_manager manager_closed)
unfolding after_wait published_end
publish-waits m key generation call s is_done c =
    subst (λ x. after_wait false is_done (published_end (x.0)) ≡ stops (of_manager manager_closed))
      (sym (publish-shut m key generation call s c)) refl

-- After a shutdown, whatever comes next, the end of dials that were under way included, the
-- manager's table stays empty, a caller that looks for a session or a slot is refused, so is every
-- session that has been made by a dial, and those that have waited for that dial, unless their own
-- contexts have ended the wait, are told that the manager is closed. A caller that waits for a dial
-- whose session was published before the shutdown is not among these.
pub shutdown-IsShut :
    (w : World) (ops : List Op) (key : Key) (generation : String) (now id : ℕ) (call : DialCall)
    (s : Session) (is_done : Bool)
    → IsShut (run ops (step shutting w)).manager
      × ((find_slot (run ops (step shutting w)).manager key generation now id).0
          ≡ fails manager_closed)
      × ((publish_session (run ops (step shutting w)).manager key generation call s).0
          ≡ refused manager_closed)
      × (after_wait false is_done (
            published_end
              (publish_session (run ops (step shutting w)).manager key generation call s).0)
          ≡ stops (of_manager manager_closed))
unfolding step shutdown
shutdown-IsShut w ops key generation now id call s is_done =
    let after = run ops (step shutting w) in
    let shut = run-IsShut ops (step shutting w) (record { shut = refl; no_sessions = refl }) in
    (
      shut,
      ap (λ x. x.0) (find-shut after.manager key generation now id shut.shut),
      ap (λ x. x.0) (publish-shut after.manager key generation call s shut.shut),
      publish-waits after.manager key generation call s is_done shut.shut,
    )
