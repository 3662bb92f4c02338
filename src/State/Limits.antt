-- ===== src/State/Limits.antt =====
-- core/mcp/state/coordinator.go: how many operations are admitted at a time.
use xops_cli.Base.{
  List, Option, Option-cases, [], ap, arith, inl, inr, length, length-map, none, refl, some, ℕ, ◌+◌,
  ◌<◌, ◌≤◌, ◌≡◌, ◌∙◌, ◌∷◌, nat_eq, string_eq,
}
use xops_cli.Guardrail.Risk.{Platform}
use xops_cli.Ports.{Admission, Hashes, OperationSnapshot, ok, phase_eq}
use xops_cli.State.Changes.{DeepEqual}
use xops_cli.State.Coordinator.{
  Coordinator, Registration, find_registration, previous_registration, handed_over, register,
  without_previous, new_coordinator,
}
use xops_cli.State.Updates.{activate, reserve, cancel_entry}
use xops_cli.State.History.{Op, step, run_ops}
use xops_cli.State.Registrations.{find_registration-id}
use xops_cli.State.Measures.{length-remove_found}
use xops_cli.State.Effects.{
  Effect, same, entered, thinned, reserved, moved, dropped, finished, activated, repeated, shut,
  stopped,
}
use xops_cli.State.Transitions.{step-Effect}

-- The limit is kept, and no more operations are active than it says.
pub record IsWithin (limit : ℕ) (c : Coordinator) : Type 0 where
  pub limit_same : c.max_active ≡ limit
  pub few : length c.active ≤ limit

previous_registration-found :
    (c : Coordinator) (admission : Admission) (entry : Registration)
    → previous_registration c admission ≡ ok (some entry)
    → (id : ℕ) × (find_registration c.active id ≡ some entry)
unfolding previous_registration handed_over
previous_registration-found c admission entry h = elim (Option-cases admission.previous) [
  | inl e ↦ absurd (ground (arith, e))
  | inr (previous, e) ↦ elim (Option-cases previous.entry) [
    | inl f ↦ absurd (ground (arith, e, f))
    | inr (id, f) ↦ elim (Option-cases (find_registration c.active id)) [
      | inl g ↦ absurd (ground (arith, e, f, g))
      | inr (found, g) ↦
          let same_entry : found ≡ entry = ground (arith, e, f, g) in (id, g ∙ ap some same_entry)
    ]
  ]
]

entered-few :
    (c : Coordinator) (admission : Admission) (previous : Option Registration)
    → previous_registration c admission ≡ ok previous
    → (previous ≡ none → length c.active < c.max_active)
    → length c.active ≤ c.max_active
    → length (without_previous c previous) + 1 ≤ c.max_active
entered-few c admission none f room few = omega (arith, room refl)
entered-few c admission (some entry) f room few =
    let (id, g) = previous_registration-found c admission entry f in
    let same_id = find_registration-id c.active id entry g in
    rw same_id (omega (arith, length-remove_found c.active id entry g))

effect-IsWithin :
    {h : Hashes} {d : DeepEqual} {c after : Coordinator} (limit : ℕ)
    → Effect h d c after
    → IsWithin limit c
    → IsWithin limit after
unfolding register reserve activate
effect-IsWithin limit same w = w
effect-IsWithin {c = c} limit (entered admission current previous f room) w = record {
  limit_same = w.limit_same;
  few = omega (
    arith,
    entered-few c admission previous f room (omega (arith, w.few, w.limit_same)),
    w.limit_same,
  );
}
effect-IsWithin limit (thinned active less kept) w = record {
  limit_same = w.limit_same;
  few = omega (arith, w.few);
}
effect-IsWithin limit (reserved next change b k r) w = record {
  limit_same = w.limit_same;
  few = w.few;
}
effect-IsWithin limit (moved u from to b e m y) w = record {
  limit_same = w.limit_same;
  few = w.few;
}
effect-IsWithin limit (dropped u b e) w = record { limit_same = w.limit_same; few = w.few }
effect-IsWithin limit (finished u b e n) w = record { limit_same = w.limit_same; few = w.few }
effect-IsWithin {c = c} limit (activated u b e k) w = record {
  limit_same = w.limit_same;
  few = w.few;
}
effect-IsWithin {c = c} limit (stopped u b) w = record {
  limit_same = w.limit_same;
  few = omega (arith, w.few, length-map (cancel_entry u.cancels) c.active);
}
effect-IsWithin limit (repeated u b e k) w = record { limit_same = w.limit_same; few = w.few }
effect-IsWithin limit shut w = record { limit_same = w.limit_same; few = omega arith }

module _ (p : Platform) (h : Hashes) (d : DeepEqual) where
  run-IsWithin :
      (ops : List Op) (c : Coordinator) (limit : ℕ)
      → IsWithin limit c
      → IsWithin limit (run_ops p h d ops c)
  unfolding run_ops
  run-IsWithin [] c limit w = w
  run-IsWithin (op ∷ ops) c limit w =
      run-IsWithin ops (step p h d op c) limit (effect-IsWithin limit (step-Effect p h d op c) w)

  pub new_coordinator-empty :
      (initial : OperationSnapshot) (max_active : Option ℕ) (c : Coordinator)
      → new_coordinator p h initial max_active ≡ ok c
      → (c.active ≡ []) × (c.deleted ≡ []) × (c.pending ≡ none)
  unfolding new_coordinator
  new_coordinator-empty initial max_active c k = ground arith

  -- Whatever is called on a new coordinator, no more operations are admitted at a time than the
  -- limit that it was made with, also where an operation's commit takes over its transfer's slot.
  pub new_coordinator-IsWithin :
      (initial : OperationSnapshot) (max_active : Option ℕ) (c : Coordinator) (ops : List Op)
      → new_coordinator p h initial max_active ≡ ok c
      → IsWithin c.max_active (run_ops p h d ops c)
  new_coordinator-IsWithin initial max_active c ops k = run-IsWithin ops c c.max_active (record {
    limit_same = refl;
    few = rw (new_coordinator-empty initial max_active c k).0 (omega arith);
  })
