-- ===== src/State/Admissions.antt =====
-- core/mcp/state/coordinator.go: what an admission has found, and what it leaves.
use xops_cli.Base.{
  Bool-cases, In, List, Option, Option-cases, String, any, arith, contains, false, here, there, inl,
  inr, leb, length, none, some, true, ◌&&◌, ◌≡◌, ◌∷◌, [], ==_refl, string_eq, ℕ,
}
use xops_cli.Base.Dict.{Dict}
use xops_cli.Ports.{Admission, Context, Hashes, OperationSnapshot, Target, ok, validate_binding}
use xops_cli.State.Views.{
  dependencies, disabled, hop_ids, include, include_all, select_view, selectors_for,
  target_dependencies,
}
use xops_cli.State.Coordinator.{
  Coordinator, Registration, blocked, enter, enter_locked, is_none, previous_registration,
  refuses_view, register,
}
use xops_cli.State.Effects.{Result-cases}
use xops_cli.State.Sets.{include-contains}

-- An admission has found its nodes in the view, enabled, and no pending update in its way, and it
-- has registered the operation.
pub record Admits (c : Coordinator) (admission : Admission) (id : ℕ) (after : Coordinator)
    : Type 0 where
  pub current : OperationSnapshot
  pub previous : Option Registration
  pub selected : select_view c.view (selectors_for admission.snapshot) ≡ ok current
  pub unblocked : blocked c current ≡ false
  pub enabled : any (λ t. disabled c.view (t.0)) current.targets ≡ false
  pub number : c.next_id ≡ id
  pub registered : (register c admission current previous).1 ≡ after

refuses_view-none :
    (h : Hashes) (ctx : Context) (c : Coordinator) (admission : Admission)
    (current : OperationSnapshot)
    → refuses_view h ctx c admission current ≡ none
    → (blocked c current ≡ false) × (any (λ t. disabled c.view (t.0)) current.targets ≡ false)
unfolding refuses_view
refuses_view-none h ctx c admission current r = elim (Bool-cases (blocked c current)) [
  | inl b ↦ absurd (ground (arith, b, r))
  | inr b ↦ elim (Option-cases (validate_binding h admission.binding current)) [
    | inr (e, v) ↦ absurd (ground (arith, b, v, r))
    | inl v ↦ elim (Bool-cases (any (λ t. disabled c.view (t.0)) current.targets)) [
      | inl d ↦ absurd (ground (arith, b, v, d, r))
      | inr d ↦ (b, d)
    ]
  ]
]

module _ (h : Hashes) (c : Coordinator) (admission : Admission) (id : ℕ) (after : Coordinator) where
  locked-Admits :
      (ctx : Context)
      → enter_locked h ctx c admission ≡ (ok id, after)
      → Admits c admission id after
  unfolding enter_locked register
  locked-Admits ctx k = elim (Bool-cases c.is_closed) [
    | inl o ↦ absurd (ground (arith, o, k))
    | inr o ↦ elim (Result-cases (previous_registration c admission)) [
      | inl (e, f) ↦ absurd (ground (arith, o, f, k))
      | inr (previous, f) ↦
          elim (Bool-cases (is_none previous && leb c.max_active (length c.active))) [
            | inl full ↦ absurd (ground (arith, o, f, full, k))
            | inr room ↦
                elim (Result-cases (select_view c.view (selectors_for admission.snapshot))) [
                  | inl (e, v) ↦ absurd (ground (arith, o, f, room, v, k))
                  | inr (current, v) ↦
                      elim (Option-cases (refuses_view h ctx c admission current)) [
                        | inr (e, r) ↦ absurd (ground (arith, o, f, room, v, r, k))
                        | inl r ↦
                            let (b, d) = refuses_view-none h ctx c admission current r in
                            record {
                              current = current;
                              previous = previous;
                              selected = v;
                              unblocked = b;
                              enabled = d;
                              number = ground (arith, o, f, room, v, r, k);
                              registered = ground (arith, o, f, room, v, r, k);
                            }
                      ]
                ]
          ]
    ]
  ]

  pub enter-Admits :
      (ctx : Option Context)
      → enter h ctx c admission ≡ (ok id, after)
      → Admits c admission id after
  unfolding enter
  enter-Admits none k = absurd (ground (arith, k))
  enter-Admits (some ctx) k = elim (Option-cases ctx.err) [
    | inr (e, f) ↦ absurd (ground (arith, f, k))
    | inl f ↦ elim (Option-cases (validate_binding h admission.binding admission.snapshot)) [
      | inr (e, v) ↦ absurd (ground (arith, f, v, k))
      | inl v ↦ locked-Admits ctx (ground (arith, f, v, k))
    ]
  ]

include_all-contains :
    (set xs : List String) (x : String)
    → contains set x ≡ true
    → contains (include_all set xs) x ≡ true
unfolding include_all
include_all-contains set [] x h = h
include_all-contains set (y ∷ ys) x h =
    include_all-contains (include set y) ys x (ground (arith, include-contains set y x, h))

target_dependencies-contains :
    (set : List String) (ts : Dict String Target) (x : String)
    → contains set x ≡ true
    → contains (target_dependencies set ts) x ≡ true
unfolding target_dependencies
target_dependencies-contains set [] x h = h
target_dependencies-contains set ((id, t) ∷ rest) x h =
    target_dependencies-contains (include_all (include set id) (hop_ids t)) rest x (
      include_all-contains (include set id) (hop_ids t) x
        (ground (arith, include-contains set id x, h)))

target-contains :
    (set : List String) (ts : Dict String Target) (id : String) (t : Target)
    → In (id, t) ts
    → contains (target_dependencies set ts) id ≡ true
unfolding target_dependencies
target-contains set [] id t m = elim m [ ]
target-contains set ((j, u) ∷ rest) id t here =
    target_dependencies-contains (include_all (include set j) (hop_ids u)) rest j (
      include_all-contains (include set j) (hop_ids u) j
        (ground (arith, include-contains set j j, ==_refl j)))
target-contains set ((j, u) ∷ rest) id t (there m) =
    target-contains (include_all (include set j) (hop_ids u)) rest id t m

-- A view depends on each of its targets.
pub dependencies-In :
    (view : OperationSnapshot) (id : String) (t : Target)
    → In (id, t) view.targets
    → contains (dependencies view) id ≡ true
unfolding dependencies
dependencies-In view id t m = target-contains [] view.targets id t m
