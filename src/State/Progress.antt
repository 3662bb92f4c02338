-- ===== src/State/Progress.antt =====
-- core/mcp/state/update.go: how a pending update comes to an end.
use xops_cli.Base.{
  Bool, map, List, Option, [], ap, arith, false, if◌then◌else◌, none, refl, some, subst, sym, true,
  ℕ, ◌≡◌, ◌∷◌, ==_refl, nat_eq,
}
use xops_cli.Guardrail.Risk.{Platform}
use xops_cli.Ports.{Context, Hashes, OperationSnapshot, ok}
use xops_cli.State.Changes.{DeepEqual}
use xops_cli.State.Coordinator.{
  Coordinator, Update, UpdatePhase, committed, new_coordinator, persisting, prepared,
  publication_failed, publishing, register,
}
use xops_cli.State.Updates.{
  cancel_entry, collected, publish_cancel, activate, confirm_rollback, finish_update,
  is_publishable, is_publishing, publish_end, publish_start, reserve, unwritten, valid_update,
  with_phase,
}
use xops_cli.State.History.{
  cancelling, Op, publishing_update, retiring, rolling_back, run_ops, step,
}
use xops_cli.State.Effects.{
  Effect, activated, dropped, entered, finished, MayMove, commits, fails, moved, persists, repeated,
  reserved, same, stopped, shut, thinned,
}
use xops_cli.State.Transitions.{step-Effect}
use xops_cli.State.Limits.{new_coordinator-empty}

-- The calls that end an update in a phase: a rollback, the rest of a publication, or one that is
-- tried (again) and that retires the old connections without an error
abbrev pub ending_calls : Context → UpdatePhase → ℕ → List Op
ending_calls ctx prepared id = rolling_back id ∷ []
ending_calls ctx persisting id = rolling_back id ∷ []
ending_calls ctx publishing id = cancelling id ∷ retiring none id ∷ []
ending_calls ctx committed id =
    publishing_update (some ctx) true id ∷ cancelling id ∷ retiring none id ∷ []
ending_calls ctx publication_failed id =
    publishing_update (some ctx) true id ∷ cancelling id ∷ retiring none id ∷ []

-- An update that is published is the view, and one is while it is publishing.
abbrev Shows : OperationSnapshot → Update → Type 0
Shows view u =
    (u.published ≡ true → view ≡ u.next) × (is_publishing u.phase ≡ true → u.published ≡ true)

record IsShown (c : Coordinator) : Type 0 where
  shows : (u : Update) → c.pending ≡ some u → Shows c.view u

some-inj : {u v : Update} → some u ≡ some v → u ≡ v
some-inj e = ground (arith, e)

move-publishing : {from to : UpdatePhase} → MayMove from to → is_publishing to ≡ false
move-publishing persists = refl
move-publishing (commits phase e) = refl
move-publishing fails = refl

effect-IsShown :
    {h : Hashes} {d : DeepEqual} {c after : Coordinator}
    → Effect h d c after
    → IsShown c
    → IsShown after
unfolding register reserve activate
effect-IsShown same s = s
effect-IsShown (entered admission current previous f room) s = record { shows = s.shows }
effect-IsShown (thinned active less kept) s = record { shows = s.shows }
effect-IsShown {c = c} (reserved next change b k r) s = record {
  shows = λ v e. subst (Shows c.view) (some-inj e) (λ y. absurd (cc y), λ y. absurd (cc y));
}
effect-IsShown {c = c} (moved u from to b e m y) s = record {
  shows = λ v e'.
      subst (Shows c.view) (some-inj e') ((s.shows u b).0, λ y. absurd (cc (move-publishing m, y)));
}
effect-IsShown (dropped u b e) s = record { shows = λ v e'. absurd (cc e') }
effect-IsShown (finished u b e n) s = record { shows = λ v e'. absurd (cc e') }
effect-IsShown {c = c} (stopped u b) s = record {
  shows = λ v e'. subst (Shows c.view) (some-inj e') (s.shows u b);
}
effect-IsShown {c = c} (activated u b e k) s = record {
  shows = λ v e'. subst (Shows u.next) (some-inj e') (λ y. refl, λ y. refl);
}
effect-IsShown {c = c} (repeated u b e k) s = record {
  shows = λ v e'. subst (Shows c.view) (some-inj e') (λ y. (s.shows u b).0 e, λ y. refl);
}
effect-IsShown shut s = record { shows = s.shows }

publishing-written : (phase : UpdatePhase) → is_publishing phase ≡ true → unwritten phase ≡ false
publishing-written prepared w = cc w
publishing-written persisting w = cc w
publishing-written committed w = refl
publishing-written publishing w = refl
publishing-written publication_failed w = refl

publishable-written : (phase : UpdatePhase) → is_publishable phase ≡ true → unwritten phase ≡ false
publishable-written prepared w = cc w
publishable-written persisting w = cc w
publishable-written committed w = refl
publishable-written publishing w = refl
publishable-written publication_failed w = refl

valid-pending :
    (c : Coordinator) (u : Update)
    → c.is_closed ≡ false
    → c.pending ≡ some u
    → valid_update c u.id ≡ ok u
unfolding valid_update
valid-pending c u o b = ground (arith, o, b, ==_refl u.id)

-- The coordinator whose view is the candidate, by whether it has been published before
live-open :
    (c : Coordinator) (u : Update) (published : Bool)
    → c.is_closed ≡ false
    → (if published then c else activate c u).is_closed ≡ false
unfolding activate
live-open c u true o = o
live-open c u false o = o

live-view :
    (c : Coordinator) (u : Update) (published : Bool)
    → (published ≡ true → c.view ≡ u.next)
    → (if published then c else activate c u).view ≡ u.next
unfolding activate
live-view c u true s = s refl
live-view c u false s = refl

module _ (p : Platform) (h : Hashes) (d : DeepEqual) where
  run-IsShown : (ops : List Op) (c : Coordinator) → IsShown c → IsShown (run_ops p h d ops c)
  unfolding run_ops
  run-IsShown [] c s = s
  run-IsShown (op ∷ ops) c s =
      run-IsShown ops (step p h d op c) (effect-IsShown (step-Effect p h d op c) s)

  -- The slot is free, and the view is the one from before or the candidate.
  pub record Freed (u : Update) (view : OperationSnapshot) (c : Coordinator) : Type 0 where
    pub free : c.pending ≡ none
    pub view_same : c.view ≡ (if unwritten u.phase then view else u.next)

  rolled-back :
      (c : Coordinator) (u : Update)
      → c.is_closed ≡ false
      → c.pending ≡ some u
      → unwritten u.phase ≡ true
      → Freed u c.view (run_ops p h d (rolling_back u.id ∷ []) c)
  unfolding run_ops step confirm_rollback
  rolled-back c u o b w =
      let v = valid-pending c u o b in
      let e : (confirm_rollback c u.id).1 ≡ finish_update c = ground (arith, v, w) in
      subst (Freed u c.view) (sym e) (record { free = refl; view_same = rw w refl })

  retired :
      (c : Coordinator) (u : Update)
      → c.is_closed ≡ false
      → c.pending ≡ some u
      → is_publishing u.phase ≡ true
      → c.view ≡ u.next
      → Freed u c.view (run_ops p h d (cancelling u.id ∷ retiring none u.id ∷ []) c)
  unfolding run_ops step publish_cancel publish_end
  retired c u o b w shown =
      let live : Coordinator = record c {
        active = map (cancel_entry u.cancels) c.active;
        pending = some (record u { cancels = [] });
      } in
      let e : publish_cancel c u.id ≡ live = ground (arith, b, ==_refl u.id) in
      let f : (publish_end none live u.id).1 ≡ finish_update live =
        ground (arith, o, w, ==_refl u.id) in
      let written : unwritten u.phase ≡ false = publishing-written u.phase w in
      subst (λ x. Freed u c.view (publish_end none x u.id).1) (sym e)
        (subst (Freed u c.view) (sym f) (record { free = refl; view_same = rw written shown }))

  -- A publication that begins makes the candidate the view.
  begun :
      (ctx : Context) (deadline : ℕ) (c : Coordinator) (u : Update)
      → ctx.err ≡ none
      → ctx.deadline ≡ some deadline
      → c.is_closed ≡ false
      → c.pending ≡ some u
      → is_publishable u.phase ≡ true
      → (publish_start (some ctx) true c u.id).1
        ≡ with_phase
            (if u.published then c else activate c u)
            (record u {
              published = true;
              cancels = if u.published then [] else collected u.change c.active;
            })
            publishing
  unfolding publish_start
  begun ctx deadline c u e l o b w = let v = valid-pending c u o b in ground (arith, e, l, v, w)

  after-begun :
      (live c : Coordinator) (u : Update) (cancels : List ℕ)
      → live.is_closed ≡ false
      → live.view ≡ u.next
      → is_publishable u.phase ≡ true
      → Freed u c.view (
          run_ops p h d
            (cancelling u.id ∷ retiring none u.id ∷ [])
            (with_phase live (record u { published = true; cancels = cancels }) publishing))
  after-begun live c u cancels o shown w =
      let written = publishable-written u.phase w in
      let now : Update = record u { published = true; cancels = cancels; phase = publishing } in
      let r =
        retired (with_phase live (record u { published = true; cancels = cancels }) publishing) now
          o refl refl shown in
      record { free = r.free; view_same = rw written r.view_same }

  published_now :
      (ctx : Context) (deadline : ℕ) (c : Coordinator) (u : Update)
      → IsShown c
      → ctx.err ≡ none
      → ctx.deadline ≡ some deadline
      → c.is_closed ≡ false
      → c.pending ≡ some u
      → is_publishable u.phase ≡ true
      → Freed u c.view (
          run_ops p h d
            (publishing_update (some ctx) true u.id ∷ cancelling u.id ∷ retiring none u.id ∷ [])
            c)
  unfolding run_ops step activate
  published_now ctx deadline c u s e l o b w =
      let cancels = if u.published then [] else collected u.change c.active in
      let goal = λ (x : Coordinator).
        Freed u c.view (run_ops p h d (cancelling u.id ∷ retiring none u.id ∷ []) x) in
      subst goal (sym (begun ctx deadline c u e l o b w)) (
        after-begun (if u.published then c else activate c u) c u cancels
          (live-open c u u.published o) (live-view c u u.published (s.shows u b).0) w)

  phase-Freed :
      (ctx : Context) (deadline : ℕ) (c : Coordinator) (u : Update) (phase : UpdatePhase)
      → IsShown c
      → ctx.err ≡ none
      → ctx.deadline ≡ some deadline
      → c.is_closed ≡ false
      → c.pending ≡ some u
      → u.phase ≡ phase
      → Freed u c.view (run_ops p h d (ending_calls ctx phase u.id) c)
  phase-Freed ctx deadline c u prepared s e l o b q = rolled-back c u o b (ap unwritten q)
  phase-Freed ctx deadline c u persisting s e l o b q = rolled-back c u o b (ap unwritten q)
  phase-Freed ctx deadline c u publishing s e l o b q =
      let w = ap is_publishing q in retired c u o b w ((s.shows u b).0 ((s.shows u b).1 w))
  phase-Freed ctx deadline c u committed s e l o b q =
      published_now ctx deadline c u s e l o b (ap is_publishable q)
  phase-Freed ctx deadline c u publication_failed s e l o b q =
      published_now ctx deadline c u s e l o b (ap is_publishable q)

  -- An update that is pending can always be brought to an end: whatever has been called on the
  -- coordinator from when it was new, if it is open, the calls that belong to the update's phase,
  -- with a context that is live and has a deadline and a retirement that succeeds, free the slot.
  -- The view is then the one from before where the transaction was not known to be committed, and
  -- the candidate where it was, also after publications that have failed.
  pub ending_calls-Freed :
      (initial : OperationSnapshot) (max_active : Option ℕ) (new : Coordinator) (ops : List Op)
      (u : Update) (ctx : Context) (deadline : ℕ)
      → new_coordinator p h initial max_active ≡ ok new
      → (run_ops p h d ops new).is_closed ≡ false
      → (run_ops p h d ops new).pending ≡ some u
      → ctx.err ≡ none
      → ctx.deadline ≡ some deadline
      → Freed u
          (run_ops p h d ops new).view
          (run_ops p h d (ending_calls ctx u.phase u.id) (run_ops p h d ops new))
  ending_calls-Freed initial max_active new ops u ctx deadline k o b e l =
      let (_, _, n) = new_coordinator-empty p h d initial max_active new k in
      let s = run-IsShown ops new (record { shows = λ v q. absurd (cc (n, q)) }) in
      phase-Freed ctx deadline (run_ops p h d ops new) u u.phase s e l o b refl
