-- ===== src/Session/Checks.antt =====
-- core/mcp/session/manager.go: a manager with two scopes in use.
use xops_cli.Base.{List, [], false, true, ◌≡◌, ◌∷◌}
use xops_cli.Session.Table.{
  DialCall, Key, Manager, fails, find_or_reserve, find_slot, manager_closed, new_manager,
  new_session, publish_session, refused,
}
use xops_cli.Session.Waits.{after_wait, of_manager, published_end, stops}
use xops_cli.Session.Steps.{
  Op, ending, failing, finding, publishing, run, shutting, start, step, working,
}
use xops_cli.Session.Dials.{Fits}
use xops_cli.Session.Slots.{new_manager-Fits}
use xops_cli.Session.Joins.{Ends}
use xops_cli.Session.Turns.{find_or_reserve-Ends}
use xops_cli.Session.Closing.{IsShut, shutdown-IsShut}

abbrev shell : Key
shell = record { scope = "agent"; node_id = "web"; session_name = "main" }

abbrev other_shell : Key
other_shell = record { scope = "agent"; node_id = "web"; session_name = "logs" }

-- Two dials, one of which fails; the other's session is used and ends.
abbrev calls : List Op
calls =
    finding shell "g1" 10
    ∷ finding other_shell "g1" 11
    ∷ publishing 0 100 12 false
    ∷ failing 1
    ∷ working 100 true 13
    ∷ ending 100
    ∷ finding shell "g2" 14
    ∷ []

new_manager-Fits_example :
    Fits (run calls (start (new_manager 0))).manager (run calls (start (new_manager 0))).dials
new_manager-Fits_example = new_manager-Fits 0 calls

abbrev used : Manager
used = (run calls (start (new_manager 0))).manager

find_or_reserve-Ends_example : Ends shell "g1" 20 (find_or_reserve 3 false used shell "g1" 20 7)
find_or_reserve-Ends_example = find_or_reserve-Ends used shell "g1" 20 7

abbrev call : DialCall
call = record { id = 2; generation = "g2" }

shutdown-IsShut_example :
    IsShut (run calls (step shutting (start (new_manager 0)))).manager
    × ((find_slot (run calls (step shutting (start (new_manager 0)))).manager shell "g2" 30 8).0
        ≡ fails manager_closed)
    × ((publish_session
          (run calls (step shutting (start (new_manager 0)))).manager
          shell
          "g2"
          call
          (new_session 101 "g2" 30 false)).0
        ≡ refused manager_closed)
    × (after_wait false true (
          published_end
            (publish_session
              (run calls (step shutting (start (new_manager 0)))).manager
              shell
              "g2"
              call
              (new_session 101 "g2" 30 false)).0)
        ≡ stops (of_manager manager_closed))
shutdown-IsShut_example =
    shutdown-IsShut (start (new_manager 0)) calls shell "g2" 30 8 call
      (new_session 101 "g2" 30 false) true
