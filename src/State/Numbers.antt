-- ===== src/State/Numbers.antt =====
-- core/mcp/state/coordinator.go: the numbers of registrations, which are given once.
use xops_cli.Base.{
  ap, true, false, Bool-cases, ◌∙◌, In, List, Option, [], arith, here, there, inl, inr, none, refl,
  some, subst, ◌<◌, ◌⊎◌, ◌≡◌, ◌∷◌,
}
use xops_cli.Guardrail.Risk.{Platform}
use xops_cli.Ports.{Admission, Hashes, OperationSnapshot}
use xops_cli.State.Views.{dependencies}
use xops_cli.State.Changes.{DeepEqual}
use xops_cli.State.Coordinator.{
  Coordinator, Registration, Update, UpdatePhase, register, without_previous,
}
use xops_cli.State.Updates.{activate, is_publishing, reserve}
use xops_cli.State.History.{Op, run_ops, step}
use xops_cli.State.Effects.{
  Effect, MayMove, stopped, activated, dropped, entered, finished, moved, repeated, reserved, same,
  shut, thinned,
}
use xops_cli.State.Transitions.{step-Effect}
use xops_cli.State.Registrations.{remove_registration-In, cancel_entry-In}

previous-In :
    (c : Coordinator) (previous : Option Registration) {r : Registration}
    → In r (without_previous c previous)
    → In r c.active
previous-In c none m = m
previous-In c (some entry) m = remove_registration-In c.active entry.id m

pub register-In :
    (c : Coordinator) (admission : Admission) (current : OperationSnapshot)
    (previous : Option Registration) {r : Registration}
    → In r (register c admission current previous).1.active
    → ((r.id ≡ c.next_id) × (r.phase ≡ admission.phase) × (r.dependencies ≡ dependencies current))
      ⊎ In r c.active
unfolding register
register-In c admission current previous here = inl (refl, refl, refl)
register-In c admission current previous (there m) = inr (previous-In c previous m)

-- The live registrations have numbers that have been given, and nothing is left to cancel but
-- while an update is publishing.
pub record IsNumbered (c : Coordinator) : Type 0 where
  pub numbered : (r : Registration) → In r c.active → r.context ≡ none → r.id < c.next_id
  pub settled : (u : Update) → c.pending ≡ some u → is_publishing u.phase ≡ false → u.cancels ≡ []

some-inj : {u v : Update} → some u ≡ some v → u ≡ v
some-inj e = ground (arith, e)

abbrev Settled : Update → Type 0
Settled u = is_publishing u.phase ≡ false → u.cancels ≡ []

move-Settled :
    {from to : UpdatePhase} (u : Update)
    → MayMove from to
    → u.phase ≡ from
    → (is_publishing from ≡ true → u.cancels ≡ [])
    → Settled u
    → Settled (record u { phase = to })
move-Settled {from} u m e y s n = elim (Bool-cases (is_publishing from)) [
  | inl p ↦ y p
  | inr p ↦ s (ap is_publishing e ∙ p)
]

pub new-IsNumbered : (c : Coordinator) → c.active ≡ [] → c.pending ≡ none → IsNumbered c
new-IsNumbered c e f = record {
  numbered = λ r m. elim (subst (In r) e m) [ ];
  settled = λ u b. absurd (cc (f, b));
}

pub effect-IsNumbered :
    {h : Hashes} {d : DeepEqual} {c after : Coordinator}
    → Effect h d c after
    → IsNumbered c
    → IsNumbered after
unfolding register reserve activate
effect-IsNumbered same k = k
effect-IsNumbered {c = c} (entered admission current previous f room) k = record {
  numbered = λ r m n. elim (register-In c admission current previous m) [
    | inl (i, p, q) ↦ omega (arith, i)
    | inr l ↦ omega (arith, k.numbered r l n)
  ];
  settled = k.settled;
}
effect-IsNumbered (thinned active less kept) k = record {
  numbered = λ r m n. k.numbered r (kept r m n) n;
  settled = k.settled;
}
effect-IsNumbered (reserved next change b v r) k = record {
  numbered = λ s m n. omega (arith, k.numbered s m n);
  settled = λ u e. subst Settled (some-inj e) (λ n. refl);
}
effect-IsNumbered (moved u from to b e m y) k = record {
  numbered = k.numbered;
  settled = λ v f. subst Settled (some-inj f) (move-Settled u m e y (k.settled u b));
}
effect-IsNumbered (dropped u b e) k = record {
  numbered = k.numbered;
  settled = λ v f. absurd (cc f);
}
effect-IsNumbered (finished u b e n) k = record {
  numbered = k.numbered;
  settled = λ v f. absurd (cc f);
}
effect-IsNumbered {c = c} (stopped u b) k = record {
  numbered = λ r m n. k.numbered r (cancel_entry-In u.cancels c.active m n).0 n;
  settled = λ v f. subst Settled (some-inj f) (λ n. refl);
}
effect-IsNumbered (activated u b e v) k = record {
  numbered = k.numbered;
  settled = λ w f. subst Settled (some-inj f) (λ n. absurd (cc n));
}
effect-IsNumbered (repeated u b e v) k = record {
  numbered = k.numbered;
  settled = λ w f. subst Settled (some-inj f) (λ n. refl);
}
effect-IsNumbered shut k = record { numbered = λ r m. elim m [ ]; settled = k.settled }

module _ (p : Platform) (h : Hashes) (d : DeepEqual) where
  pub run-IsNumbered :
      (ops : List Op) (c : Coordinator) → IsNumbered c → IsNumbered (run_ops p h d ops c)
  unfolding run_ops
  run-IsNumbered [] c k = k
  run-IsNumbered (op ∷ ops) c k =
      run-IsNumbered ops (step p h d op c) (effect-IsNumbered (step-Effect p h d op c) k)
