-- ===== src/State/Identities.antt =====
-- core/mcp/state/update.go: nodes that have been removed from the published inventory.
use xops_cli.Base.{
  Bool-cases, In, In-any-false, List, Option, String, [], any, any-false-In, arith, contains, false,
  inl, inr, none, some, subst, sym, true, ◌≡◌, ◌⊎◌, ◌∷◌, string_eq, ℕ,
}
use xops_cli.Base.Dict.{Dict, has}
use xops_cli.Guardrail.Risk.{Platform}
use xops_cli.Ports.{Hashes, OperationSnapshot, Target, ok}
use xops_cli.State.Views.{hop_ids, uses_any}
use xops_cli.State.Changes.{DeepEqual, calculate_change}
use xops_cli.State.Coordinator.{Coordinator, Update, new_coordinator, register}
use xops_cli.State.Updates.{activate, include_each, reserve, retained_identities, reuses_identity}
use xops_cli.State.History.{Op, run_ops, step}
use xops_cli.State.Effects.{
  Effect, activated, dropped, entered, finished, moved, repeated, reserved, same, shut, stopped,
  thinned,
}
use xops_cli.State.Transitions.{step-Effect}
use xops_cli.State.Limits.{new_coordinator-empty}
use xops_cli.State.Removals.{calculate_change-IsRemoval}
use xops_cli.State.Sets.{contains-In, has-In, include_each-contains, removal-fresh, nothing-reuses}

-- What is known of an update before its candidate is published
abbrev Awaits : Hashes → DeepEqual → OperationSnapshot → List String → Update → Type 0
Awaits h d view deleted u =
    u.published ≡ false
    → (calculate_change h d view u.next ≡ ok u.change)
      × (any (reuses_identity deleted) u.next.targets ≡ false)

-- No deleted node is in the view or is used by an active target of it.
pub record IsSound (h : Hashes) (d : DeepEqual) (c : Coordinator) : Type 0 where
  pub fresh : any (reuses_identity c.deleted) c.view.targets ≡ false
  pub waits : (u : Update) → c.pending ≡ some u → Awaits h d c.view c.deleted u

retained-none :
    (deleted : List String) (targets : Dict String Target)
    → retained_identities deleted targets ≡ none
    → any (reuses_identity deleted) targets ≡ false
unfolding retained_identities
retained-none deleted targets r = ground (arith, r)

some-inj : {u v : Update} → some u ≡ some v → u ≡ v
some-inj e = ground (arith, e)

pub effect-IsSound :
    {h : Hashes} {d : DeepEqual} {c after : Coordinator}
    → Effect h d c after
    → IsSound h d c
    → IsSound h d after
unfolding register reserve activate
effect-IsSound same s = s
effect-IsSound (entered admission current previous f room) s = record {
  fresh = s.fresh;
  waits = s.waits;
}
effect-IsSound (thinned active less kept) s = record { fresh = s.fresh; waits = s.waits }
effect-IsSound {h = h} {d = d} {c = c} (reserved next change b k r) s = record {
  fresh = s.fresh;
  waits = λ u e.
      subst (Awaits h d c.view c.deleted) (some-inj e)
        (λ n. (k, retained-none c.deleted next.targets r));
}
effect-IsSound {h = h} {d = d} {c = c} (moved u from to b e m y) s = record {
  fresh = s.fresh;
  waits = λ v e'. subst (Awaits h d c.view c.deleted) (some-inj e') (s.waits u b);
}
effect-IsSound (dropped u b e) s = record { fresh = s.fresh; waits = λ v e'. absurd (cc e') }
effect-IsSound (finished u b e n) s = record { fresh = s.fresh; waits = λ v e'. absurd (cc e') }
effect-IsSound {h = h} {d = d} {c = c} (activated u b e x) s =
    let (k, f) = s.waits u b e in
    let r = calculate_change-IsRemoval h d c.view u.next u.change k in
    record {
      fresh = removal-fresh c.deleted u.change.removed u.next.targets f r.unused r.gone;
      waits = λ v e'.
          subst (Awaits h d u.next (include_each c.deleted u.change.removed)) (some-inj e')
            (λ n. absurd (cc n));
    }
effect-IsSound {h = h} {d = d} {c = c} (stopped u b) s = record {
  fresh = s.fresh;
  waits = λ v e'. subst (Awaits h d c.view c.deleted) (some-inj e') (s.waits u b);
}
effect-IsSound {h = h} {d = d} {c = c} (repeated u b e x) s = record {
  fresh = s.fresh;
  waits = λ v e'. subst (Awaits h d c.view c.deleted) (some-inj e') (λ n. absurd (cc n));
}
effect-IsSound shut s = record { fresh = s.fresh; waits = s.waits }

-- A node of the view stays in it or is deleted, and one that is deleted stays so.
abbrev Tracked : String → Coordinator → Type 0
Tracked id c = (has c.view.targets id ≡ true) ⊎ (contains c.deleted id ≡ true)

effect-Tracked :
    {h : Hashes} {d : DeepEqual} {c after : Coordinator} (id : String)
    → IsSound h d c
    → Effect h d c after
    → (Tracked id c → Tracked id after)
      × (contains c.deleted id ≡ true → contains after.deleted id ≡ true)
unfolding register reserve activate
effect-Tracked id s same = (λ t. t, λ t. t)
effect-Tracked id s (entered admission current previous f room) = (λ t. t, λ t. t)
effect-Tracked id s (thinned active less kept) = (λ t. t, λ t. t)
effect-Tracked id s (reserved next change b k r) = (λ t. t, λ t. t)
effect-Tracked id s (moved u from to b e m y) = (λ t. t, λ t. t)
effect-Tracked id s (dropped u b e) = (λ t. t, λ t. t)
effect-Tracked id s (finished u b e n) = (λ t. t, λ t. t)
effect-Tracked {h = h} {d = d} {c = c} id s (activated u b e x) =
    let r = calculate_change-IsRemoval h d c.view u.next u.change (s.waits u b e).0 in
    let i = include_each-contains c.deleted u.change.removed id in
    (
      λ t. elim t [
        | inl v ↦ elim (Bool-cases (has u.next.targets id)) [
          | inl n ↦ inl n
          | inr n ↦ inr (ground (arith, i, r.found id v n))
        ]
        | inr k ↦ inr (ground (arith, i, k))
      ],
      λ k. ground (arith, i, k),
    )
effect-Tracked id s (stopped u b) = (λ t. t, λ t. t)
effect-Tracked id s (repeated u b e x) = (λ t. t, λ t. t)
effect-Tracked id s shut = (λ t. t, λ t. t)

-- The node is not in the inventory, and no active node of it goes through it.
pub record Gone (id : String) (view : OperationSnapshot) : Type 0 where
  pub absent : has view.targets id ≡ false
  pub unused :
      (j : String) (t : Target)
      → In (j, t) view.targets
      → t.disabled ≡ false
      → contains (hop_ids t) id ≡ false

deleted-Gone :
    {h : Hashes} {d : DeepEqual} (id : String) (c : Coordinator)
    → IsSound h d c
    → contains c.deleted id ≡ true
    → Gone id c.view
unfolding reuses_identity
deleted-Gone id c s k = record {
  absent = elim (Bool-cases (has c.view.targets id)) [
    | inl v ↦
        let (t, m) = has-In c.view.targets id v in
        absurd (ground (arith, k, any-false-In (reuses_identity c.deleted) s.fresh m))
    | inr v ↦ v
  ];
  unused = λ j t m b. elim (Bool-cases (contains (hop_ids t) id)) [
    | inl v ↦
        let f = any-false-In (reuses_identity c.deleted) s.fresh m in
        let g : uses_any c.deleted t ≡ false = ground (arith, b, f) in
        absurd (cc (any-false-In (contains c.deleted) g (contains-In (hop_ids t) id v), k))
    | inr v ↦ v
  ];
}

module _ (p : Platform) (h : Hashes) (d : DeepEqual) where
  pub run-IsSound :
      (ops : List Op) (c : Coordinator) → IsSound h d c → IsSound h d (run_ops p h d ops c)
  unfolding run_ops
  run-IsSound [] c s = s
  run-IsSound (op ∷ ops) c s =
      run-IsSound ops (step p h d op c) (effect-IsSound (step-Effect p h d op c) s)

  run-Tracked :
      (id : String) (ops : List Op) (c : Coordinator)
      → IsSound h d c
      → (Tracked id c → Tracked id (run_ops p h d ops c))
        × (contains c.deleted id ≡ true → contains (run_ops p h d ops c).deleted id ≡ true)
  unfolding run_ops
  run-Tracked id [] c s = (λ t. t, λ t. t)
  run-Tracked id (op ∷ ops) c s =
      let e = step-Effect p h d op c in
      let (f, g) = effect-Tracked id s e in
      let (k, l) = run-Tracked id ops (step p h d op c) (effect-IsSound e s) in
      (λ t. k (f t), λ t. l (g t))

pub new-IsSound :
    (h : Hashes) (d : DeepEqual) (c : Coordinator)
    → c.deleted ≡ []
    → c.pending ≡ none
    → IsSound h d c
new-IsSound h d c e n = record {
  fresh =
      subst (λ deleted. any (reuses_identity deleted) c.view.targets ≡ false) (sym e)
        (In-any-false (reuses_identity []) c.view.targets (λ t m. nothing-reuses (t.0) (t.1)));
  waits = λ u b. absurd (cc (n, b));
}

-- A node that has been published and later is not is never published again, and no active node
-- is published that goes through it: from a new coordinator on, if a node is in the view after
-- some calls and not after further ones, that holds after whatever calls come next.
pub removed-Gone :
    (p : Platform) (h : Hashes) (d : DeepEqual) (initial : OperationSnapshot)
    (max_active : Option ℕ) (c : Coordinator) (before during after : List Op) (id : String)
    → new_coordinator p h initial max_active ≡ ok c
    → has (run_ops p h d before c).view.targets id ≡ true
    → has (run_ops p h d during (run_ops p h d before c)).view.targets id ≡ false
    → Gone id (run_ops p h d after (run_ops p h d during (run_ops p h d before c))).view
removed-Gone p h d initial max_active c before during after id k v n =
    let (a, e, b) = new_coordinator-empty p h d initial max_active c k in
    let first = run_ops p h d before c in
    let second = run_ops p h d during first in
    let s1 = run-IsSound p h d before c (new-IsSound h d c e b) in
    let s2 = run-IsSound p h d during first s1 in
    let lost : contains second.deleted id ≡ true =
      elim ((run-Tracked p h d id during first s1).0 (inl v)) [
        | inl w ↦ absurd (cc (w, n))
        | inr w ↦ w
      ] in
    deleted-Gone id (run_ops p h d after second) (run-IsSound p h d after second s2)
      ((run-Tracked p h d id after second s2).1 lost)
