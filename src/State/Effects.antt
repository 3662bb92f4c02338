-- ===== src/State/Effects.antt =====
-- core/mcp/state: what a call may do to the coordinator.
use xops_cli.Base.{
  Bool-cases, In, List, Option, Option-cases, String, [], arith, false, inl, inr, leb, length, map,
  none, refl, some, true, ℕ, ◌<◌, ◌≤◌, ◌!=◌, ◌&&◌, ◌≡◌, ◌⊎◌, nat_eq, string_eq, subst,
}
use xops_cli.Guardrail.Risk.{Platform}
use xops_cli.Ports.{
  Admission, Context, Error, Hashes, OperationSnapshot, Result, err, ok, validate_binding,
}
use xops_cli.State.Views.{select_view, selectors_for}
use xops_cli.State.Changes.{Change, DeepEqual, calculate_change}
use xops_cli.State.Coordinator.{
  Coordinator, Registration, Update, UpdatePhase, prepared, persisting, committed, publishing,
  publication_failed, enter, enter_locked, is_none, previous_registration, refuses_view, register,
}
use xops_cli.State.Updates.{
  activate, cancel_entry, collected, begin_update, begin_reserved, begin_tests, is_publishable,
  is_publishing, unwritten, reserve, retained_identities, valid_update, with_phase, finish_update,
}

-- The moves of an update's phase that keep it pending
pub data MayMove : UpdatePhase → UpdatePhase → Type 0 where
  persists : MayMove prepared persisting
  commits : (phase : UpdatePhase) → unwritten phase ≡ true → MayMove phase committed
  fails : MayMove publishing publication_failed

pub data Effect (h : Hashes) (d : DeepEqual) (c : Coordinator) : Coordinator → Type 0 where
  same : Effect h d c c
  entered :
      (admission : Admission) (current : OperationSnapshot) (previous : Option Registration)
      → previous_registration c admission ≡ ok previous
      → (previous ≡ none → length c.active < c.max_active)
      → Effect h d c (register c admission current previous).1
  thinned :
      (active : List Registration)
      → length active ≤ length c.active
      → ((r : Registration) → In r active → r.context ≡ none → In r c.active)
      → Effect h d c (record c { active = active })
  reserved :
      (next : OperationSnapshot) (change : Change)
      → c.pending ≡ none
      → calculate_change h d c.view next ≡ ok change
      → retained_identities c.deleted next.targets ≡ none
      → Effect h d c (reserve c next change).1
  moved :
      (u : Update) (from to : UpdatePhase)
      → c.pending ≡ some u
      → u.phase ≡ from
      → MayMove from to
      → (is_publishing from ≡ true → u.cancels ≡ [])
      → Effect h d c (with_phase c u to)
  dropped :
      (u : Update) → c.pending ≡ some u → unwritten u.phase ≡ true → Effect h d c (finish_update c)
  finished :
      (u : Update)
      → c.pending ≡ some u
      → is_publishing u.phase ≡ true
      → u.cancels ≡ []
      → Effect h d c (finish_update c)
  stopped :
      (u : Update)
      → c.pending ≡ some u
      → Effect h d c (record c {
        active = map (cancel_entry u.cancels) c.active;
        pending = some (record u { cancels = [] });
      })
  activated :
      (u : Update)
      → c.pending ≡ some u
      → u.published ≡ false
      → is_publishable u.phase ≡ true
      → Effect h d c (
          with_phase
            (activate c u)
            (record u { published = true; cancels = collected u.change c.active })
            publishing)
  repeated :
      (u : Update)
      → c.pending ≡ some u
      → u.published ≡ true
      → is_publishable u.phase ≡ true
      → Effect h d c (with_phase c (record u { published = true; cancels = [] }) publishing)
  shut : Effect h d c (record c { is_closed = true; active = [] })

pub Result-cases {ℓ} :
    {A : Type ℓ} (r : Result A) → ((e : Error) × (r ≡ err e)) ⊎ ((a : A) × (r ≡ ok a))
Result-cases (ok a) = inr (a, refl)
Result-cases (err e) = inl (e, refl)

pub valid_update-pending :
    (c : Coordinator) (id : ℕ) (u : Update) → valid_update c id ≡ ok u → c.pending ≡ some u
unfolding valid_update
valid_update-pending c id u v = ground arith

module _ (p : Platform) (h : Hashes) (d : DeepEqual) (c : Coordinator) where
  view-Effect :
      (ctx : Context) (admission : Admission) (previous : Option Registration)
      (current : OperationSnapshot)
      → previous_registration c admission ≡ ok previous
      → (is_none previous && leb c.max_active (length c.active)) ≡ false
      → c.is_closed ≡ false
      → select_view c.view (selectors_for admission.snapshot) ≡ ok current
      → Effect h d c (enter_locked h ctx c admission).1
  unfolding enter_locked
  view-Effect ctx admission previous current f room o v =
      elim (Option-cases (refuses_view h ctx c admission current)) [
        | inr (e, r) ↦ simp (enter_locked, o, f, room, v, r) same
        | inl r ↦
            subst (Effect h d c) (ground (arith, o, f, room, v, r))
              (entered admission current previous f (λ n. ground (arith, n)))
      ]

  locked-Effect :
      (ctx : Context) (admission : Admission) → Effect h d c (enter_locked h ctx c admission).1
  unfolding enter_locked
  locked-Effect ctx admission = elim (Bool-cases c.is_closed) [
    | inl o ↦ simp (enter_locked, o) same
    | inr o ↦ elim (Result-cases (previous_registration c admission)) [
      | inl (e, f) ↦ simp (enter_locked, o, f) same
      | inr (previous, f) ↦
          elim (Bool-cases (is_none previous && leb c.max_active (length c.active))) [
            | inl full ↦ simp (enter_locked, o, f, full) same
            | inr room ↦
                elim (Result-cases (select_view c.view (selectors_for admission.snapshot))) [
                  | inl (e, v) ↦ simp (enter_locked, o, f, room, v) same
                  | inr (current, v) ↦ view-Effect ctx admission previous current f room o v
                ]
          ]
    ]
  ]

  pub enter-Effect :
      (ctx : Option Context) (admission : Admission) → Effect h d c (enter h ctx c admission).1
  unfolding enter
  enter-Effect none admission = same
  enter-Effect (some ctx) admission = elim (Option-cases ctx.err) [
    | inr (e, f) ↦ simp (enter, f) same
    | inl f ↦ elim (Option-cases (validate_binding h admission.binding admission.snapshot)) [
      | inr (e, v) ↦ simp (enter, f, v) same
      | inl v ↦ simp (enter, f, v) (locked-Effect ctx admission)
    ]
  ]

  reserved-Effect :
      (expected : String) (next : OperationSnapshot) (late : Option Error)
      → c.pending ≡ none
      → Effect h d c (begin_reserved h d c expected next late).1
  unfolding begin_reserved
  reserved-Effect expected next late free = elim (Bool-cases c.is_closed) [
    | inl o ↦ simp (begin_reserved, o) same
    | inr o ↦ elim (Bool-cases (c.view.revision != expected)) [
      | inl x ↦ simp (begin_reserved, o, x) same
      | inr x ↦ elim (Result-cases (calculate_change h d c.view next)) [
        | inl (e, k) ↦ simp (begin_reserved, o, x, k) same
        | inr (change, k) ↦ elim (Option-cases late) [
          | inr (e, l) ↦ simp (begin_reserved, o, x, k, l) same
          | inl l ↦ elim (Option-cases (retained_identities c.deleted next.targets)) [
            | inr (e, r) ↦ simp (begin_reserved, o, x, k, l, r) same
            | inl r ↦
                subst (Effect h d c) (ground (arith, o, x, k, l, r)) (reserved next change free k r)
          ]
        ]
      ]
    ]
  ]

  pub begin-Effect :
      (ctx : Option Context) (given_up late : Option Error) (expected : String)
      (next : OperationSnapshot)
      → Effect h d c (begin_update p h d ctx given_up late c expected next).1
  unfolding begin_update
  begin-Effect ctx given_up late expected next =
      elim (Option-cases (begin_tests p h ctx c expected next)) [
        | inr (e, t) ↦ simp (begin_update, t) same
        | inl t ↦ elim (Option-cases given_up) [
          | inr (e, g) ↦ simp (begin_update, t, g) same
          | inl g ↦ elim (Option-cases c.pending) [
            | inr (u, b) ↦ simp (begin_update, t, g, b) same
            | inl b ↦ simp (begin_update, t, g, b) (reserved-Effect expected next late b)
          ]
        ]
      ]
