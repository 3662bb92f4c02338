-- ===== src/State/Coordinator.antt =====
-- core/mcp/state/coordinator.go: the coordinator, and the admission of operations.
use xops_cli.Base.{
  Bool, List, Option, String, [], any, contains, false, if◌then◌else◌, leb, length, negate, none,
  some, true, ℕ, ◌+◌, ◌!=◌, ◌&&◌, ◌==◌, ◌||◌, ◌∷◌, string_eq, nat_eq,
}
use xops_cli.Guardrail.Risk.{Platform}
use xops_cli.Ports.{
  Binding, Context, Error, Hashes, OperationSnapshot, Phase, Result, binding_eq, phase_eq, capacity,
  closed, commit, err, invalid, join_errors, node_disabled, ok, purpose, stale_binding,
  transfer_start, updating, validate_binding, Admission, Previous, check_context, new_permit,
}
use xops_cli.State.Views.{dependencies, disabled, select_view, selectors_for, validate_snapshot}
use xops_cli.State.Changes.{Change}

pub data UpdatePhase : Type 0 where
  prepared persisting committed publishing publication_failed : UpdatePhase

-- An update that holds the slot, with a number that is its identity, and the numbers of the
-- registrations whose contexts Publish has collected to cancel and has not cancelled yet. One that
-- is finished holds the slot no longer.
pub record Update : Type 0 where
  pub id : ℕ
  pub next : OperationSnapshot
  pub change : Change
  pub phase : UpdatePhase
  pub published : Bool
  pub cancels : List ℕ

-- An admitted operation: its number, what it was admitted for, and what its context reports
pub record Registration : Type 0 where
  pub id : ℕ
  pub operation_id : String
  pub binding : Binding
  pub phase : Phase
  pub dependencies : List String
  pub context : Option Error

-- The channel of updates is full exactly while an update is pending. The next number is given to
-- an update or to a registration.
pub record Coordinator : Type 0 where
  pub view : OperationSnapshot
  pub domain : String
  pub is_closed : Bool
  pub pending : Option Update
  pub active : List Registration
  pub deleted : List String
  pub max_active : ℕ
  pub next_id : ℕ

-- New, where a limit below 0 is given as none
unfoldable pub new_coordinator :
    Platform → Hashes → OperationSnapshot → Option ℕ → Result Coordinator
new_coordinator p h initial max_active = elim (validate_snapshot p h initial) [
  | some e ↦ err e
  | none ↦ elim max_active [
    | none ↦ err invalid
    | some n ↦ ok (record {
      view = initial;
      domain = initial.domain_id;
      is_closed = false;
      pending = none;
      active = [];
      deleted = [];
      max_active = if n == 0 then 1024 else n;
      next_id = 0;
    })
  ]
]

unfoldable pub find_registration : List Registration → ℕ → Option Registration
find_registration [] id = none
find_registration (r ∷ rest) id = if r.id == id then some r else find_registration rest id

unfoldable pub remove_registration : List Registration → ℕ → List Registration
remove_registration [] id = []
remove_registration (r ∷ rest) id =
    let left = remove_registration rest id in if r.id == id then left else r ∷ left

unfoldable pub release : Coordinator → ℕ → Coordinator
release c id = record c { active = remove_registration c.active id }

-- blockedLocked
unfoldable pub is_blocked_by : Update → OperationSnapshot → Bool
is_blocked_by u view = u.change.policy || any (contains u.change.affected) (dependencies view)

unfoldable pub blocked : Coordinator → OperationSnapshot → Bool
unfolding is_blocked_by
blocked c view = elim c.pending [ none ↦ false | some u ↦ is_blocked_by u view ]

unfoldable pub handed_over : Registration → Admission → Previous → Result (Option Registration)
handed_over entry admission previous = elim entry.context [
  | some e ↦ err e
  | none ↦
      if entry.phase != transfer_start
        || entry.operation_id != admission.operation_id
        || entry.binding != admission.binding
        || previous.binding != admission.binding
      then err stale_binding
      else ok (some entry)
]

-- previousLocked
unfoldable pub previous_registration : Coordinator → Admission → Result (Option Registration)
unfolding handed_over find_registration
previous_registration c admission = elim admission.previous [
  | none ↦ ok none
  | some previous ↦
      if previous.is_nil || admission.phase != commit || previous.phase != transfer_start
      then err purpose
      else elim previous.entry [
        | none ↦ err purpose
        | some id ↦ elim (find_registration c.active id) [
          | none ↦ err purpose
          | some entry ↦
              if negate previous.own_context
              then err purpose
              else handed_over entry admission previous
        ]
      ]
]

-- The slots that are left when the earlier phase's has been given up
abbrev pub without_previous : Coordinator → Option Registration → List Registration
without_previous c none = c.active
without_previous c (some entry) = remove_registration c.active entry.id

unfoldable pub register :
    Coordinator → Admission → OperationSnapshot → Option Registration → ℕ × Coordinator
register c admission current previous = (
  c.next_id,
  record c {
    active =
        record {
          id = c.next_id;
          operation_id = admission.operation_id;
          binding = admission.binding;
          phase = admission.phase;
          dependencies = dependencies current;
          context = none;
        }
        ∷ without_previous c previous;
    next_id = c.next_id + 1;
  },
)

-- What is tested of the current view of the admission's nodes: `none` is success.
abbrev pub is_none {ℓ} : {A : Type ℓ} → Option A → Bool
is_none none = true
is_none (some a) = false

unfoldable pub refuses_view :
    Hashes → Context → Coordinator → Admission → OperationSnapshot → Option Error
unfolding blocked
refuses_view h ctx c admission current =
    if blocked c current
    then some updating
    else elim (validate_binding h admission.binding current) [
      | some e ↦ some e
      | none ↦
          if any (λ t. disabled c.view (t.0)) current.targets
          then some node_disabled
          else new_permit h ctx admission
    ]

unfoldable pub enter_locked : Hashes → Context → Coordinator → Admission → Result ℕ × Coordinator
unfolding previous_registration register refuses_view
enter_locked h ctx c admission =
    if c.is_closed then (err closed, c) else elim (previous_registration c admission) [
      | err e ↦ (err e, c)
      | ok previous ↦
          if is_none previous && leb c.max_active (length c.active)
          then (err capacity, c)
          else elim (select_view c.view (selectors_for admission.snapshot)) [
            | err e ↦ (err (join_errors stale_binding (some e)), c)
            | ok current ↦ elim (refuses_view h ctx c admission current) [
              | some e ↦ (err e, c)
              | none ↦ let (id, after) = register c admission current previous in (ok id, after)
            ]
          ]
    ]

-- Enter gives the number of the registration. The earlier phase's registration is gone already
-- when it is released.
unfoldable pub enter : Hashes → Option Context → Coordinator → Admission → Result ℕ × Coordinator
unfolding enter_locked
enter h none c admission = (err invalid, c)
enter h (some ctx) c admission = elim ctx.err [
  | some e ↦ (err e, c)
  | none ↦ elim (validate_binding h admission.binding admission.snapshot) [
    | some e ↦ (err e, c)
    | none ↦ enter_locked h ctx c admission
  ]
]

unfoldable pub resolve_selectors :
    Option Context → Coordinator → List String → Result OperationSnapshot
unfolding blocked
resolve_selectors ctx c selectors = elim (check_context ctx) [
  | some e ↦ err e
  | none ↦ if c.is_closed then err closed else elim (select_view c.view selectors) [
    | err e ↦ err e
    | ok view ↦ if blocked c view then err updating else ok view
  ]
]

-- Close, with the releases of all registrations
unfoldable pub close_coordinator : Coordinator → Coordinator
close_coordinator c = if c.is_closed then c else record c { is_closed = true; active = [] }
