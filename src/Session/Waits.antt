-- ===== src/Session/Waits.antt =====
-- core/mcp/session/manager.go: a caller that waits for another caller's dial.
use xops_cli.Base.{Bool, Option, false, if◌then◌else◌, none, some}
use xops_cli.Session.Table.{Error, Published, Session, kept, refused, stored}

-- The errors of a wait: the manager's, one of the dial, or that of the caller's context
pub data WaitError : Type 0 where
  of_manager : Error → WaitError
  of_dial of_context : WaitError

-- What the end of a dial leaves for those that wait: the call's session and error, and whether the
-- context of the caller that dialled was done
pub record DialEnd : Type 0 where
  pub made : Option Session
  pub failed : Option WaitError
  pub leader_canceled : Bool

-- A session, an error, or another turn of the search
pub data Waited : Type 0 where
  gives : Session → Waited
  stops : WaitError → Waited
  looks_again : Waited

-- The dial has ended with publishSession.
unfoldable pub published_end : Published → DialEnd
published_end (refused e) = record {
  made = none;
  failed = some (of_manager e);
  leader_canceled = false;
}
published_end (kept s) = record { made = some s; failed = none; leader_canceled = false }
published_end (stored s) = record { made = some s; failed = none; leader_canceled = false }

-- The wait of findOrReserveSlot, where the context ends it first or not, and is done or not when
-- it is asked
unfoldable pub after_wait : Bool → Bool → DialEnd → Waited
after_wait gives_up is_done end = if gives_up then stops of_context else elim end.failed [
  | some e ↦
      if end.leader_canceled then if is_done then stops of_context else looks_again else stops e
  | none ↦ elim end.made [
    | none ↦ looks_again
    | some s ↦ if s.is_closed then looks_again else gives s
  ]
]
