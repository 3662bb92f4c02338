-- ===== src/Session/Steps.antt =====
-- core/mcp/session/manager.go: sequences of the sections that hold the manager's lock.
use xops_cli.Base.{
  Bool, List, Option, String, [], if◌then◌else◌, map, true, none, some, ℕ, ◌+◌, ◌==◌, ◌∷◌, nat_eq,
  string_eq,
}
use xops_cli.Base.Dict.{Dict}
use xops_cli.Session.Table.{
  DialCall, Key, Manager, Session, Slot, find_slot, finish_dial, new_session, key_eq,
  publish_session, remove_session, reserves, shutdown, sweep_idle, fails, reuses, retries, waits,
}

-- A dial under way: the caller that has the slot, for its key and generation
pub record Dial : Type 0 where
  pub key : Key
  pub call : DialCall

-- The manager, the dials under way, and the next number of a call
pub record World : Type 0 where
  pub manager : Manager
  pub dials : List Dial
  pub next_id : ℕ

-- The turns of findOrReserveSlot at a time; the end of a dial that fails, and of one that has made
-- a session (its number and time, and whether its reader has ended), by the number of its call; the removal of a session by its number; the reaper;
-- Shutdown; and what sessions do by themselves: their reader ends, a command begins or ends, a
-- caller is served at a time
pub data Op : Type 0 where
  finding : Key → String → ℕ → Op
  failing : ℕ → Op
  publishing : ℕ → ℕ → ℕ → Bool → Op
  removing : Key → ℕ → Op
  sweeping : ℕ → Op
  shutting : Op
  ending : ℕ → Op
  working : ℕ → Bool → ℕ → Op

unfoldable pub find_dial : List Dial → ℕ → Option Dial
find_dial [] id = none
find_dial (dial ∷ dials) id = if dial.call.id == id then some dial else find_dial dials id

unfoldable pub without_dial : List Dial → ℕ → List Dial
without_dial [] id = []
without_dial (dial ∷ dials) id = if dial.call.id == id then dials else dial ∷ without_dial dials id

abbrev pub end_session : ℕ → Key × Session → Key × Session
end_session id (k, s) = (k, if s.id == id then record s { is_closed = true } else s)

abbrev pub work_session : ℕ → Bool → ℕ → Key × Session → Key × Session
work_session id busy now (k, s) =
    (k, if s.id == id then record s { is_busy = busy; last_active = now } else s)

abbrev pub with_sessions : Manager → Dict Key Session → Manager
with_sessions m sessions = record m { sessions = sessions }

-- The dials after a turn
abbrev pub more_dials : Slot → Key → List Dial → List Dial
more_dials (reserves call) key dials = record { key = key; call = call } ∷ dials
more_dials (fails e) key dials = dials
more_dials (reuses s) key dials = dials
more_dials (retries s) key dials = dials
more_dials (waits call) key dials = dials

unfoldable pub step : Op → World → World
unfolding find_dial without_dial
step (finding key generation now) w =
    let (slot, m) = find_slot w.manager key generation now w.next_id in
    record { manager = m; dials = more_dials slot key w.dials; next_id = w.next_id + 1 }
step (failing id) w = elim (find_dial w.dials id) [
  | none ↦ w
  | some dial ↦ record w {
    manager = finish_dial w.manager dial.key dial.call;
    dials = without_dial w.dials id;
  }
]
step (publishing id session_id now is_closed) w = elim (find_dial w.dials id) [
  | none ↦ w
  | some dial ↦ record w {
    manager =
        (publish_session w.manager dial.key dial.call.generation dial.call
          (new_session session_id dial.call.generation now is_closed)).1;
    dials = without_dial w.dials id;
  }
]
step (removing key id) w = record w { manager = remove_session w.manager key id }
step (sweeping now) w = record w { manager = sweep_idle w.manager now }
step shutting w = record w { manager = shutdown w.manager }
step (ending id) w = record w {
  manager = with_sessions w.manager (map (end_session id) w.manager.sessions);
}
step (working id busy now) w = record w {
  manager = with_sessions w.manager (map (work_session id busy now) w.manager.sessions);
}

unfoldable pub run : List Op → World → World
unfolding step
run [] w = w
run (op ∷ ops) w = run ops (step op w)

unfoldable pub start : Manager → World
start m = record { manager = m; dials = []; next_id = 0 }
