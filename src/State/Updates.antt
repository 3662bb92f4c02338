-- ===== src/State/Updates.antt =====
-- core/mcp/state/update.go: the publication of a new inventory.
use xops_cli.Base.{
  Bool, List, Option, String, [], any, contains, false, if◌then◌else◌, length, ltb, map, negate,
  none, some, true, ℕ, ◌+◌, ◌!=◌, ◌&&◌, ◌==◌, ◌||◌, ◌∷◌, string_eq, nat_eq,
}
use xops_cli.Base.Dict.{Dict}
use xops_cli.Guardrail.Risk.{Platform}
use xops_cli.Ports.{
  Context, ConnectionPlan, Error, Hashes, OperationSnapshot, Result, Target, phase_eq, canceled,
  closed, commit, conflict, err, identity_reuse, invalid, join_errors, ok, persistence_unknown,
  update_state,
}
use xops_cli.State.Views.{hop_ids, include, uses_any, validate_snapshot}
use xops_cli.State.Changes.{Change, DeepEqual, calculate_change}
use xops_cli.State.Coordinator.{
  Coordinator, Registration, Update, UpdatePhase, prepared, persisting, committed, publishing,
  publication_failed,
}

-- A target of the candidate has a deleted identity, or is active and goes through one.
unfoldable pub reuses_identity : List String → String × Target → Bool
unfolding hop_ids
reuses_identity deleted (id, target) =
    contains deleted id || (negate target.disabled && uses_any deleted target)

-- validateRetainedIdentities: `none` is success.
unfoldable pub retained_identities : List String → Dict String Target → Option Error
unfolding reuses_identity
retained_identities deleted targets =
    if any (reuses_identity deleted) targets then some identity_reuse else none

unfoldable pub reserve : Coordinator → OperationSnapshot → Change → ℕ × Coordinator
reserve c next change = (
  c.next_id,
  record c {
    pending = some (record {
      id = c.next_id;
      next = next;
      change = change;
      phase = prepared;
      published = false;
      cancels = [];
    });
    next_id = c.next_id + 1;
  },
)

-- BeginUpdate once the slot is its own; the last argument is the context's error at the end.
unfoldable pub begin_reserved :
    Hashes
    → DeepEqual
    → Coordinator
    → String
    → OperationSnapshot
    → Option Error
    → Result ℕ × Coordinator
unfolding retained_identities reserve
begin_reserved h d c expected next late =
    if c.is_closed
    then (err closed, c)
    else if c.view.revision != expected
    then (err conflict, c)
    else elim (calculate_change h d c.view next) [
      | err e ↦ (err e, c)
      | ok change ↦ elim late [
        | some e ↦ (err e, c)
        | none ↦ elim (retained_identities c.deleted next.targets) [
          | some e ↦ (err e, c)
          | none ↦ let (id, after) = reserve c next change in (ok id, after)
        ]
      ]
    ]

-- The tests of BeginUpdate before it waits: `none` is success.
unfoldable pub begin_tests :
    Platform → Hashes → Option Context → Coordinator → String → OperationSnapshot → Option Error
begin_tests p h none c expected next = some invalid
begin_tests p h (some ctx) c expected next = elim ctx.err [
  | some e ↦ some e
  | none ↦ elim ctx.deadline [
    | none ↦ some invalid
    | some deadline ↦ elim (validate_snapshot p h next) [
      | some e ↦ some e
      | none ↦
          if next.domain_id != c.domain || next.revision == expected then some conflict else none
    ]
  ]
]

-- BeginUpdate. `given_up` is the error, of the context or of a closed coordinator, with which its
-- wait for the slot ends, if it ends so. While another update holds the slot and the wait has not
-- ended there is no result.
unfoldable pub begin_update :
    Platform
    → Hashes
    → DeepEqual
    → Option Context
    → Option Error
    → Option Error
    → Coordinator
    → String
    → OperationSnapshot
    → Option (Result ℕ) × Coordinator
unfolding begin_tests begin_reserved
begin_update p h d ctx given_up late c expected next = elim (begin_tests p h ctx c expected next) [
  | some e ↦ (some (err e), c)
  | none ↦ elim given_up [
    | some e ↦ (some (err e), c)
    | none ↦ elim c.pending [
      | some u ↦ (none, c)
      | none ↦ let (result, after) = begin_reserved h d c expected next late in (some result, after)
    ]
  ]
]

-- validLocked: the update, if it is the one that is pending
unfoldable pub valid_update : Coordinator → ℕ → Result Update
valid_update c id = if c.is_closed then err closed else elim c.pending [
  | none ↦ err update_state
  | some u ↦ if u.id == id then ok u else err update_state
]

abbrev pub with_phase : Coordinator → Update → UpdatePhase → Coordinator
with_phase c u phase = record c { pending = some (record u { phase = phase }) }

-- finishLocked
abbrev pub finish_update : Coordinator → Coordinator
finish_update c = record c { pending = none }

abbrev pub unwritten : UpdatePhase → Bool
unwritten prepared = true
unwritten persisting = true
unwritten _ = false

abbrev pub is_publishable : UpdatePhase → Bool
is_publishable committed = true
is_publishable publication_failed = true
is_publishable _ = false

abbrev pub is_publishing : UpdatePhase → Bool
is_publishing publishing = true
is_publishing _ = false

-- The methods of Update return `none` for success.
unfoldable pub begin_persistence : Coordinator → ℕ → Option Error × Coordinator
unfolding valid_update
begin_persistence c id = elim (valid_update c id) [
  | err e ↦ (some e, c)
  | ok u ↦ elim u.phase [
    | prepared ↦ (none, with_phase c u persisting)
    | _ ↦ (some update_state, c)
  ]
]

unfoldable pub confirm_commit : Coordinator → ℕ → Option Error × Coordinator
unfolding valid_update
confirm_commit c id = elim (valid_update c id) [
  | err e ↦ (some e, c)
  | ok u ↦ if unwritten u.phase then (none, with_phase c u committed) else (some update_state, c)
]

unfoldable pub abort : Coordinator → ℕ → Option Error × Coordinator
unfolding valid_update
abort c id = elim (valid_update c id) [
  | err e ↦ (some e, c)
  | ok u ↦ elim u.phase [ prepared ↦ (none, finish_update c) | _ ↦ (some persistence_unknown, c) ]
]

unfoldable pub confirm_rollback : Coordinator → ℕ → Option Error × Coordinator
unfolding valid_update
confirm_rollback c id = elim (valid_update c id) [
  | err e ↦ (some e, c)
  | ok u ↦ if unwritten u.phase then (none, finish_update c) else (some persistence_unknown, c)
]

unfoldable pub revokes : Change → Registration → Bool
revokes change entry = change.policy || any (contains change.revoke) entry.dependencies

-- A cancellation of the operation's context, where it has not ended before
abbrev pub end_context : Error → Registration → Registration
end_context e entry = elim entry.context [
  | none ↦ record entry { context = some e }
  | some old ↦ entry
]

-- The operations that the change revokes, but for commits: the loop that collects their cancels
unfoldable pub collected : Change → List Registration → List ℕ
unfolding revokes
collected change [] = []
collected change (entry ∷ rest) =
    let later = collected change rest in
    if entry.phase != commit && revokes change entry then entry.id ∷ later else later

unfoldable pub cancel_entry : List ℕ → Registration → Registration
cancel_entry cancels entry = if contains cancels entry.id then end_context canceled entry else entry

unfoldable pub include_each : List String → List String → List String
include_each set [] = set
include_each set (x ∷ xs) = include_each (include set x) xs

unfoldable pub activate : Coordinator → Update → Coordinator
unfolding include_each
activate c u = record c { view = u.next; deleted = include_each c.deleted u.change.removed }

-- Publish up to where it lets go of the lock: it gives the old plans, and what it is to cancel next
-- is kept with the update
unfoldable pub publish_start :
    Option Context → Bool → Coordinator → ℕ → Result (List ConnectionPlan) × Coordinator
unfolding valid_update activate collected
publish_start none can_retire c id = (err invalid, c)
publish_start (some ctx) can_retire c id = elim ctx.err [
  | some e ↦ (err e, c)
  | none ↦ elim ctx.deadline [
    | none ↦ (err invalid, c)
    | some deadline ↦ elim (valid_update c id) [
      | err e ↦ (err e, c)
      | ok u ↦
          let live = if u.published then c else activate c u in
          let cancels = if u.published then [] else collected u.change c.active in
          if is_publishable u.phase
          then if ltb 0 (length u.change.retired) && negate can_retire then (err invalid, c) else (
            ok u.change.retired,
            with_phase live (record u { published = true; cancels = cancels }) publishing,
          )
          else (err update_state, c)
    ]
  ]
]

-- The loop of Publish that cancels what it has collected, without the lock. A context that is
-- cancelled before the others has ended on its own before.
unfoldable pub publish_cancel : Coordinator → ℕ → Coordinator
unfolding cancel_entry
publish_cancel c id = elim c.pending [
  | none ↦ c
  | some u ↦
      if u.id == id
      then record c {
        active = map (cancel_entry u.cancels) c.active;
        pending = some (record u { cancels = [] });
      }
      else c
]

-- Publish after the retirement, whose error or the context's is given; it only runs where its
-- first part has succeeded, and after the cancels.
unfoldable pub publish_end : Option Error → Coordinator → ℕ → Option Error × Coordinator
publish_end failed c id = elim c.pending [
  | none ↦ (some update_state, c)
  | some u ↦
      if u.id == id && is_publishing u.phase && length u.cancels == 0
      then if c.is_closed
        then (
          some (elim failed [ none ↦ closed | some e ↦ join_errors e (some closed) ]),
          with_phase c u publication_failed,
        )
        else elim failed [
          | some e ↦ (some e, with_phase c u publication_failed)
          | none ↦ (none, finish_update c)
        ]
      else (some update_state, c)
]
