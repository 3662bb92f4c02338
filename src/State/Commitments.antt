-- ===== src/State/Commitments.antt =====
-- core/mcp/state/update.go: updates whose transaction is committed.
use xops_cli.Base.{
  List, [], ap, arith, false, inl, inr, none, refl, some, true, ℕ, ==→eq, ◌++◌, ◌≡◌, ◌∙◌, ◌⊎◌, ◌∷◌,
  nat_eq, string_eq, subst, sym,
}
use xops_cli.Guardrail.Risk.{Platform}
use xops_cli.Ports.{Hashes, OperationSnapshot, phase_eq}
use xops_cli.State.Changes.{DeepEqual}
use xops_cli.State.Coordinator.{
  Coordinator, Update, UpdatePhase, committed, publication_failed, register,
}
use xops_cli.State.Updates.{
  activate, is_publishing, unwritten, reserve, valid_update, confirm_commit,
}
use xops_cli.State.History.{Op, step, run_ops}
use xops_cli.State.Effects.{
  Effect, same, entered, thinned, reserved, moved, dropped, finished, activated, repeated, shut,
  stopped, MayMove, persists, commits, fails,
}
use xops_cli.State.Transitions.{step-Effect}

-- The update holds the slot, its transaction is committed, and if its candidate is published it is
-- the view.
pub record Holds (id : ℕ) (next : OperationSnapshot) (c : Coordinator) : Type 0 where
  pub update : Update
  pub held : c.pending ≡ some update
  pub id_same : update.id ≡ id
  pub next_same : update.next ≡ next
  pub written : unwritten update.phase ≡ false
  pub ready : is_publishing update.phase ≡ true → update.published ≡ true
  pub shown : update.published ≡ true → c.view ≡ next

move-target :
    {from to : UpdatePhase} → MayMove from to → unwritten from ≡ false → to ≡ publication_failed
move-target persists w = cc
move-target (commits phase e) w = cc (e, w)
move-target fails w = refl

same-update : (c : Coordinator) {u v : Update} → c.pending ≡ some u → c.pending ≡ some v → u ≡ v
same-update c e f = ground (arith, sym e ∙ f)

effect-Holds :
    {h : Hashes} {d : DeepEqual} {c after : Coordinator} (id : ℕ) (next : OperationSnapshot)
    → Effect h d c after
    → Holds id next c
    → Holds id next after ⊎ (c.view ≡ next)
unfolding register reserve activate
effect-Holds id next same k = inl k
effect-Holds id next (entered admission current previous f room) k = inl (record {
  update = k.update;
  held = k.held;
  id_same = k.id_same;
  next_same = k.next_same;
  written = k.written;
  ready = k.ready;
  shown = k.shown;
})
effect-Holds id next (thinned active less kept) k = inl (record {
  update = k.update;
  held = k.held;
  id_same = k.id_same;
  next_same = k.next_same;
  written = k.written;
  ready = k.ready;
  shown = k.shown;
})
effect-Holds id next (reserved next' change b x r) k = absurd (cc (k.held, b))
effect-Holds {c = c} id next (moved u from to b e m y) k =
    let s = same-update c k.held b in
    let w : unwritten from ≡ false =
      subst (λ x. unwritten x ≡ false) e (subst (λ v. unwritten v.phase ≡ false) s k.written) in
    let t = move-target m w in
    inl (record {
      update = record u { phase = to };
      held = refl;
      id_same = subst (λ v. v.id ≡ id) s k.id_same;
      next_same = subst (λ v. v.next ≡ next) s k.next_same;
      written = rw t refl;
      ready = λ v. cc (ap is_publishing t, v);
      shown = λ v. k.shown (subst (λ x. x.published ≡ true) (sym s) v);
    })
effect-Holds {c = c} id next (dropped u b e) k =
    let w = subst (λ v. unwritten v.phase ≡ false) (same-update c k.held b) k.written in
    absurd (cc (w, e))
effect-Holds {c = c} id next (finished u b e n) k =
    let s = same-update c k.held b in
    inr (k.shown (k.ready (subst (λ v. is_publishing v.phase ≡ true) (sym s) e)))
effect-Holds {c = c} id next (activated u b e x) k =
    let s = same-update c k.held b in
    inl (record {
      update = _;
      held = refl;
      id_same = subst (λ v. v.id ≡ id) s k.id_same;
      next_same = subst (λ v. v.next ≡ next) s k.next_same;
      written = refl;
      ready = λ y. refl;
      shown = λ y. subst (λ v. v.next ≡ next) s k.next_same;
    })
effect-Holds {c = c} id next (stopped u b) k =
    let s = same-update c k.held b in
    inl (record {
      update = record u { cancels = [] };
      held = refl;
      id_same = subst (λ v. v.id ≡ id) s k.id_same;
      next_same = subst (λ v. v.next ≡ next) s k.next_same;
      written = subst (λ v. unwritten v.phase ≡ false) s k.written;
      ready = λ y.
          subst (λ v. v.published ≡ true) s
            (k.ready (subst (λ v. is_publishing v.phase ≡ true) (sym s) y));
      shown = λ y. k.shown (subst (λ v. v.published ≡ true) (sym s) y);
    })
effect-Holds {c = c} id next (repeated u b e x) k =
    let s = same-update c k.held b in
    inl (record {
      update = _;
      held = refl;
      id_same = subst (λ v. v.id ≡ id) s k.id_same;
      next_same = subst (λ v. v.next ≡ next) s k.next_same;
      written = refl;
      ready = λ y. refl;
      shown = λ y. k.shown (subst (λ v. v.published ≡ true) (sym s) e);
    })
effect-Holds id next shut k = inl (record {
  update = k.update;
  held = k.held;
  id_same = k.id_same;
  next_same = k.next_same;
  written = k.written;
  ready = k.ready;
  shown = k.shown;
})

-- Somewhere along the calls the view is this one.
pub record Shown (p : Platform) (h : Hashes) (d : DeepEqual) (next : OperationSnapshot)
    (ops : List Op) (c : Coordinator) : Type 0 where
  pub before : List Op
  pub after : List Op
  pub split : ops ≡ before ++ after
  pub view_same : (run_ops p h d before c).view ≡ next

module _ (p : Platform) (h : Hashes) (d : DeepEqual) where
  later-Shown :
      (next : OperationSnapshot) (op : Op) (ops : List Op) (c : Coordinator)
      → Shown p h d next ops (step p h d op c)
      → Shown p h d next (op ∷ ops) c
  unfolding run_ops
  later-Shown next op ops c s = record {
    before = op ∷ s.before;
    after = s.after;
    split = ap (◌∷◌ op) s.split;
    view_same = s.view_same;
  }

  run-Holds :
      (id : ℕ) (next : OperationSnapshot) (ops : List Op) (c : Coordinator)
      → Holds id next c
      → Holds id next (run_ops p h d ops c) ⊎ Shown p h d next ops c
  unfolding run_ops
  run-Holds id next [] c k = inl k
  run-Holds id next (op ∷ ops) c k = elim (effect-Holds id next (step-Effect p h d op c) k) [
    | inr v ↦ inr (record { before = []; after = op ∷ ops; split = refl; view_same = v })
    | inl k' ↦ elim (run-Holds id next ops (step p h d op c) k') [
      | inl l ↦ inl l
      | inr s ↦ inr (later-Shown next op ops c s)
    ]
  ]

confirm_commit-Holds :
    (c after : Coordinator) (id : ℕ) (u : Update)
    → c.pending ≡ some u
    → u.published ≡ false
    → confirm_commit c id ≡ (none, after)
    → Holds id u.next after
unfolding confirm_commit valid_update
confirm_commit-Holds c after id u b n k = record {
  update = record u { phase = committed };
  held = ground (arith, b);
  id_same = ground (arith, b, ==→eq u.id id);
  next_same = refl;
  written = refl;
  ready = λ y. cc (y);
  shown = λ y. cc (n, y);
}

-- An update whose transaction is confirmed to be committed, before its candidate is published,
-- is not lost: after any further calls it still holds the slot, with its candidate, or its
-- candidate has become the view. It cannot be aborted or rolled back.
pub confirm_commit-kept :
    (p : Platform) (h : Hashes) (d : DeepEqual) (c after : Coordinator) (id : ℕ) (u : Update)
    (ops : List Op)
    → c.pending ≡ some u
    → u.published ≡ false
    → confirm_commit c id ≡ (none, after)
    → Holds id u.next (run_ops p h d ops after) ⊎ Shown p h d u.next ops after
confirm_commit-kept p h d c after id u ops b n k =
    run-Holds p h d id u.next ops after (confirm_commit-Holds c after id u b n k)
