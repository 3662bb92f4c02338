-- ===== src/State/Following.antt =====
-- core/mcp/state: an operation that is followed from its admission on, through all calls.
use xops_cli.Base.{
  ap, map, refl, Bool-cases, ◌&&◌, ◌∙◌, ◌⊎◌, ◌≤◌, In, List, [], String, any, arith, contains, false,
  inl, inr, none, some, subst, sym, true, ◌!=◌, ◌<◌, ◌≡◌, ◌∷◌, nat_eq, string_eq, ℕ,
}
use xops_cli.Guardrail.Risk.{Platform}
use xops_cli.Ports.{Hashes, OperationSnapshot, Phase, commit, phase_eq}
use xops_cli.State.Changes.{DeepEqual}
use xops_cli.State.Coordinator.{
  Coordinator, Registration, Update, UpdatePhase, prepared, persisting, committed, publishing,
  publication_failed, register,
}
use xops_cli.State.Updates.{
  activate, cancel_entry, collected, is_publishable, is_publishing, reserve, revokes,
}
use xops_cli.State.History.{Op, run_ops, step}
use xops_cli.State.Effects.{
  Effect, stopped, activated, dropped, entered, finished, moved, repeated, reserved, same, shut,
  thinned,
}
use xops_cli.State.Transitions.{step-Effect, unwritten-publishing}
use xops_cli.State.Registrations.{cancel_entry-In, collected-contains}
use xops_cli.State.Identities.{IsSound, effect-IsSound}
use xops_cli.State.Numbers.{IsNumbered, effect-IsNumbered, register-In}
use xops_cli.State.Walks.{or-false}
use xops_cli.State.Standing.{Stands, Stands-trans, calculate_change-Stands}

publishable-settled :
    (phase : UpdatePhase) → is_publishable phase ≡ true → is_publishing phase ≡ false
publishable-settled prepared w = refl
publishable-settled persisting w = refl
publishable-settled committed w = refl
publishable-settled publishing w = cc w
publishable-settled publication_failed w = refl

-- The publication that revokes the operation is under way: its update is published, and Publish
-- is still to cancel the operation's context.
pub record IsRevoked (id : ℕ) (c : Coordinator) : Type 0 where
  pub update : Update
  pub held : c.pending ≡ some update
  pub listed : contains update.cancels id ≡ true

settled-IsRevoked :
    {A : Type 0} (id : ℕ) (c : Coordinator) (u : Update)
    → IsNumbered c
    → c.pending ≡ some u
    → is_publishing u.phase ≡ false
    → IsRevoked id c
    → A
settled-IsRevoked id c u k b n r =
    let same : r.update ≡ u = ground (arith, sym r.held ∙ b) in
    let free : contains u.cancels id ≡ false = rw (k.settled u b n) refl in
    absurd (cc (subst (λ v. contains v.cancels id ≡ true) same r.listed, free))

-- An operation's number is given, and while it is live it has its phase and its nodes, which stand
-- unless it is being revoked.
pub record Follows (id : ℕ) (phase : Phase) (nodes : List String) (old : OperationSnapshot)
    (c : Coordinator) : Type 0 where
  pub given : id < c.next_id
  pub standing :
      (r : Registration)
      → In r c.active
      → r.id ≡ id
      → r.context ≡ none
      → (r.phase ≡ phase) × (r.dependencies ≡ nodes) × (Stands nodes old c.view ⊎ IsRevoked id c)

-- From one state to the next
abbrev Carries : ℕ → List String → OperationSnapshot → Coordinator → Coordinator → Type 0
Carries id nodes old c after =
    Stands nodes old c.view ⊎ IsRevoked id c → Stands nodes old after.view ⊎ IsRevoked id after

-- The states around a call that changes no registration
abbrev Alike : Coordinator → Coordinator → Type 0
Alike c after = (after.active ≡ c.active) × (c.next_id ≤ after.next_id)

reserved-Carries :
    {c after : Coordinator} (id : ℕ) (nodes : List String) (old : OperationSnapshot)
    → c.pending ≡ none
    → after.view ≡ c.view
    → Carries id nodes old c after
reserved-Carries id nodes old b w (inl s) = inl (subst (Stands nodes old) (sym w) s)
reserved-Carries id nodes old b w (inr r) = absurd (cc (b, r.held))

finished-Carries :
    {c after : Coordinator} (id : ℕ) (nodes : List String) (old : OperationSnapshot) (u : Update)
    → c.pending ≡ some u
    → u.cancels ≡ []
    → after.view ≡ c.view
    → Carries id nodes old c after
finished-Carries id nodes old u b n w (inl s) = inl (subst (Stands nodes old) (sym w) s)
finished-Carries id nodes old u b n w (inr r) =
    let same : r.update ≡ u = ground (arith, sym r.held ∙ b) in
    let none_left : r.update.cancels ≡ [] = ap (λ v. v.cancels) same ∙ n in
    absurd (cc (subst (λ y. contains y id ≡ true) none_left r.listed))

module _ (id : ℕ) (phase : Phase) (nodes : List String) (old : OperationSnapshot) where
  same-Follows :
      {c after : Coordinator}
      → Alike c after
      → Carries id nodes old c after
      → Follows id phase nodes old c
      → Follows id phase nodes old after
  same-Follows (e, l) g f = record {
    given = omega (arith, f.given, l);
    standing = λ r m i n. let (p, q, t) = f.standing r (subst (In r) e m) i n in (p, q, g t);
  }

  -- The pending update stays, with what it is to cancel.
  keeps-Carries :
      {c after : Coordinator} (u v : Update)
      → c.pending ≡ some u
      → after.pending ≡ some v
      → u.cancels ≡ v.cancels
      → after.view ≡ c.view
      → Carries id nodes old c after
  keeps-Carries u v b b' e w (inl s) = inl (subst (Stands nodes old) (sym w) s)
  keeps-Carries u v b b' e w (inr r) =
      let same : r.update ≡ u = ground (arith, sym r.held ∙ b) in
      inr (record {
        update = v;
        held = b';
        listed = subst (λ y. contains y id ≡ true) (ap (λ y. y.cancels) same ∙ e) r.listed;
      })

  -- An update goes while there is nothing left to cancel.
  settled-Carries :
      {c after : Coordinator} (u : Update)
      → IsNumbered c
      → c.pending ≡ some u
      → is_publishing u.phase ≡ false
      → after.view ≡ c.view
      → Carries id nodes old c after
  settled-Carries u k b n w (inl s) = inl (subst (Stands nodes old) (sym w) s)
  settled-Carries {c = c} u k b n w (inr r) = settled-IsRevoked id c u k b n r

  stop-Follows :
      (c : Coordinator) (u : Update)
      → c.pending ≡ some u
      → Follows id phase nodes old c
      → Follows id phase nodes old (record c {
        active = map (cancel_entry u.cancels) c.active;
        pending = some (record u { cancels = [] });
      })
  stop-Follows c u b f = record {
    given = f.given;
    standing = λ r m i n.
        let (l, o) = cancel_entry-In u.cancels c.active m n in
        let (p, q, t) = f.standing r l i n in
        (
          p,
          q,
          elim t [
            | inl v ↦ inl v
            | inr v ↦
                let same : v.update ≡ u = ground (arith, sym v.held ∙ b) in
                absurd (
                  cc (
                    subst (λ z. contains z.cancels id ≡ true) same v.listed,
                    subst (λ z. contains u.cancels z ≡ false) i o,
                  ))
          ],
        );
  }

module _ {h : Hashes} {d : DeepEqual} (id : ℕ) (phase : Phase) (nodes : List String)
    (old : OperationSnapshot) (x : (phase != commit) ≡ true) where
  publish-Follows :
      (c after : Coordinator) (u : Update)
      → IsSound h d c
      → IsNumbered c
      → c.pending ≡ some u
      → u.published ≡ false
      → is_publishing u.phase ≡ false
      → Alike c after
      → after.view ≡ u.next
      → after.pending
        ≡ some (record u {
          published = true;
          cancels = collected u.change c.active;
          phase = publishing;
        })
      → Follows id phase nodes old c
      → Follows id phase nodes old after
  unfolding revokes
  publish-Follows c after u s k b e y (l, g) w b' f = record {
    given = omega (arith, f.given, g);
    standing = λ r m i n.
        let m' = subst (In r) l m in
        let (p, q, t) = f.standing r m' i n in
        (
          p,
          q,
          elim t [
            | inr v ↦ settled-IsRevoked id c u k b y v
            | inl v ↦ elim (Bool-cases (revokes u.change r)) [
              | inl o ↦
                  let both : (r.phase != commit && revokes u.change r) ≡ true =
                    ground (arith, o, subst (λ z. (z != commit) ≡ true) (sym p) x) in
                  inr (record {
                    update = _;
                    held = b';
                    listed =
                        subst (λ z. contains (collected u.change c.active) z ≡ true) i
                          (collected-contains u.change c.active m' both);
                  })
              | inr o ↦
                  let (same_policy, free) =
                    or-false u.change.policy (any (contains u.change.revoke) r.dependencies) o in
                  inl (
                    subst (Stands nodes old) (sym w) (
                      Stands-trans nodes old c.view u.next v (
                        calculate_change-Stands h d c.view u.next u.change nodes (s.waits u b e).0
                          same_policy
                          (subst (λ z. any (contains u.change.revoke) z ≡ false) q free))))
            ]
          ],
        );
  }

  effect-Follows :
      {c after : Coordinator}
      → Effect h d c after
      → IsSound h d c
      → IsNumbered c
      → Follows id phase nodes old c
      → Follows id phase nodes old after
  unfolding register reserve activate
  effect-Follows same s k f = f
  effect-Follows {c = c} (entered admission current previous g room) s k f = record {
    given = omega (arith, f.given);
    standing = λ r m i n. elim (register-In c admission current previous m) [
      | inl (j, y, q) ↦ absurd (omega (arith, f.given, i, j))
      | inr l ↦
          let (p, q, t) = f.standing r l i n in
          (
            p,
            q,
            elim t [
              | inl v ↦ inl v
              | inr v ↦ inr (record { update = v.update; held = v.held; listed = v.listed })
            ],
          )
    ];
  }
  effect-Follows (thinned active less kept) s k f = record {
    given = f.given;
    standing = λ r m i n.
        let (p, q, t) = f.standing r (kept r m n) i n in
        (
          p,
          q,
          elim t [
            | inl v ↦ inl v
            | inr v ↦ inr (record { update = v.update; held = v.held; listed = v.listed })
          ],
        );
  }
  effect-Follows (reserved next change b v r) s k f =
      same-Follows id phase nodes old (refl, omega arith) (reserved-Carries id nodes old b refl) f
  effect-Follows (moved u from to b e m y) s k f =
      same-Follows id phase nodes old (refl, omega arith)
        (keeps-Carries id phase nodes old u (record u { phase = to }) b refl refl refl) f
  effect-Follows (dropped u b e) s k f =
      same-Follows id phase nodes old (refl, omega arith)
        (settled-Carries id phase nodes old u k b (unwritten-publishing u.phase e) refl) f
  effect-Follows (finished u b e n) s k f =
      same-Follows id phase nodes old (refl, omega arith) (finished-Carries id nodes old u b n refl)
        f
  effect-Follows {c = c} (stopped u b) s k f =
      let g = stop-Follows id phase nodes old c u b f in
      record { given = g.given; standing = g.standing }
  effect-Follows {c = c} (activated u b e y) s k f =
      publish-Follows c _ u s k b e (publishable-settled u.phase y) (refl, omega arith) refl refl f
  effect-Follows (repeated u b e y) s k f =
      same-Follows id phase nodes old (refl, omega arith)
        (settled-Carries id phase nodes old u k b (publishable-settled u.phase y) refl) f
  effect-Follows shut s k f = record { given = f.given; standing = λ r m. elim m [ ] }

  pub run-Follows :
      (p : Platform) (ops : List Op) (c : Coordinator)
      → IsSound h d c
      → IsNumbered c
      → Follows id phase nodes old c
      → Follows id phase nodes old (run_ops p h d ops c)
  unfolding run_ops
  run-Follows p [] c s k f = f
  run-Follows p (op ∷ ops) c s k f =
      let e = step-Effect p h d op c in
      run-Follows p ops (step p h d op c) (effect-IsSound e s) (effect-IsNumbered e k)
        (effect-Follows e s k f)
