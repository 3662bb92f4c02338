-- ===== src/State/Walks.antt =====
-- core/mcp/state/change.go: what follows from the comparison of each target (calculateChange).
use xops_cli.Base.{
  Bool, Bool-cases, In, List, Option-cases, String, [], arith, contains, false, here, inl, inr,
  negate, refl, subst, there, true, ◌||◌, ◌≡◌, ◌∙◌, ◌∷◌, string_eq,
}
use xops_cli.Base.Dict.{Dict, get}
use xops_cli.Ports.{Hashes, OperationSnapshot, Target, ok}
use xops_cli.State.Views.{include}
use xops_cli.State.Changes.{
  Change, DeepEqual, calculate_change, compare_plans, compare_target, compare_targets,
  complete_change, depends_on_removed, expand_affected, expand_both, policy_changed,
}
use xops_cli.State.Effects.{Result-cases}
use xops_cli.State.Closure.{Within, expand_affected-IsClosure}
use xops_cli.State.Sets.{include-contains}

pub include-Within : (set : List String) (id : String) → Within set (include set id)
include-Within set id x h = ground (arith, include-contains set id x, h)

pub or-false : (a b : Bool) → (a || b) ≡ false → (a ≡ false) × (b ≡ false)
or-false true b h = cc h
or-false false b h = (refl, h)

pub negate-false : (a : Bool) → negate a ≡ false → a ≡ true
negate-false true h = refl
negate-false false h = cc h

pub Within-out :
    (set next : List String) (x : String)
    → Within set next
    → contains next x ≡ false
    → contains set x ≡ false
Within-out set next x w c = elim (Bool-cases (contains set x)) [
  | inl i ↦ absurd (cc (w x i, c))
  | inr o ↦ o
]

pub expanded-Within :
    (old next : OperationSnapshot) (set : List String) → Within set (expand_both old next set)
unfolding expand_both
expanded-Within old next set x c =
    (expand_affected-IsClosure next (expand_affected old set)).contained x
      ((expand_affected-IsClosure old set).contained x c)

-- The change that the comparison starts with
abbrev pub no_change : DeepEqual → OperationSnapshot → OperationSnapshot → Change
no_change d old next = record {
  affected = [];
  revoke = [];
  removed = [];
  retired = [];
  policy = policy_changed d old next;
}

-- Where the comparison is done without an error
record Completed (h : Hashes) (d : DeepEqual) (old next : OperationSnapshot) (change : Change)
    : Type 0 where
  pub compared : Change
  pub walked : compare_targets h d old.targets next.targets (no_change d old next) ≡ ok compared
  pub completed : complete_change h d old next compared ≡ change

calculate_change-Completed :
    (h : Hashes) (d : DeepEqual) (old next : OperationSnapshot) (change : Change)
    → calculate_change h d old next ≡ ok change
    → Completed h d old next change
unfolding calculate_change
calculate_change-Completed h d old next change k =
    elim (Result-cases (compare_targets h d old.targets next.targets (no_change d old next))) [
      | inl (e, f) ↦ absurd (ground (arith, f, k))
      | inr (mid, f) ↦ elim (Bool-cases (depends_on_removed mid.removed next.targets)) [
        | inl g ↦ absurd (ground (arith, f, g, k))
        | inr g ↦ record { compared = mid; walked = f; completed = ground (arith, f, g, k) }
      ]
    ]

-- A set of the change, and what holds of each target that it does not have
module _ (h : Hashes) (d : DeepEqual) (set : Change → List String)
    (Kept : Target → Dict String Target → String → Type 0) where
  -- What the comparison of one target gives
  abbrev pub Keeps : Type 0
  Keeps =
      (id : String) (t : Target) (next : Dict String Target) (change change' : Change)
      → compare_target h d id t (get next id) change ≡ ok change'
      → Within (set change) (set change') × (contains (set change') id ≡ false → Kept t next id)

  cons-Kept :
      (id : String) (t : Target) (rest next : Dict String Target) (out : List String)
      → (contains out id ≡ false → Kept t next id)
      → ((j : String) (u : Target) → In (j, u) rest → contains out j ≡ false → Kept u next j)
      → (j : String) (u : Target) → In (j, u) ((id, t) ∷ rest)
      → contains out j ≡ false
      → Kept u next j
  cons-Kept id t rest next out f g j u here c = f c
  cons-Kept id t rest next out f g j u (there m) c = g j u m c

  targets-Kept :
      Keeps
      → (old next : Dict String Target) (change change' : Change)
      → compare_targets h d old next change ≡ ok change'
      → Within (set change) (set change')
        × ((id : String) (t : Target)
            → In (id, t) old
            → contains (set change') id ≡ false
            → Kept t next id)
  unfolding compare_targets
  targets-Kept keeps [] next change change' k =
      let e : change ≡ change' = ground (arith, k) in
      (subst (λ s. Within (set change) (set s)) e (λ x c. c), λ id t m. elim m [ ])
  targets-Kept keeps ((id, t) ∷ rest) next change change' k =
      elim (Result-cases (compare_target h d id t (get next id) change)) [
        | inl (e, f) ↦ absurd (ground (arith, f, k))
        | inr (mid, f) ↦
            let (w, g) = keeps id t next change mid f in
            let (v, l) = targets-Kept keeps rest next mid change' (ground (arith, f, k)) in
            (
              λ x c. v x (w x c),
              cons-Kept id t rest next (set change')
                  (λ c. g (Within-out (set mid) (set change') id v c)) l,
            )
      ]

  -- What a change leaves out of a set, it has found kept.
  pub calculate_change-Kept :
      Keeps
      → (old next : OperationSnapshot) (change : Change)
      → ((mid : Change) → Within (set mid) (set (complete_change h d old next mid)))
      → calculate_change h d old next ≡ ok change
      → (id : String) (t : Target) → In (id, t) old.targets
      → contains (set change) id ≡ false
      → Kept t next.targets id
  calculate_change-Kept keeps old next change grows k id t m c =
      let r = calculate_change-Completed h d old next change k in
      let (w, l) =
        targets-Kept keeps old.targets next.targets (no_change d old next) r.compared r.walked in
      l id t m (
        Within-out (set r.compared) (set change) id
          (subst (λ s. Within (set r.compared) (set s)) r.completed (grows r.compared)) c)

target-policy :
    (h : Hashes) (d : DeepEqual) (id : String) (t : Target) (next : Dict String Target)
    (change change' : Change)
    → compare_target h d id t (get next id) change ≡ ok change'
    → change'.policy ≡ change.policy
unfolding compare_target compare_plans
target-policy h d id t next change change' k = elim (Option-cases (get next id)) [
  | inl n ↦ ground (arith, n, k)
  | inr (u, n) ↦ elim (Result-cases (h.connection_key t.plan)) [
    | inl (e, f) ↦ absurd (ground (arith, n, f, k))
    | inr (a, f) ↦ elim (Result-cases (h.connection_key u.plan)) [
      | inl (e, g) ↦ absurd (ground (arith, n, f, g, k))
      | inr (b, g) ↦ ground (arith, n, f, g, k)
    ]
  ]
]

targets-policy :
    (h : Hashes) (d : DeepEqual) (old next : Dict String Target) (change change' : Change)
    → compare_targets h d old next change ≡ ok change'
    → change'.policy ≡ change.policy
unfolding compare_targets
targets-policy h d [] next change change' k = ground (arith, k)
targets-policy h d ((id, t) ∷ rest) next change change' k =
    elim (Result-cases (compare_target h d id t (get next id) change)) [
      | inl (e, f) ↦ absurd (ground (arith, f, k))
      | inr (mid, f) ↦
          targets-policy h d rest next mid change' (ground (arith, f, k))
          ∙ target-policy h d id t next change mid f
    ]

-- The change says whether the policy has changed.
pub calculate_change-policy :
    (h : Hashes) (d : DeepEqual) (old next : OperationSnapshot) (change : Change)
    → calculate_change h d old next ≡ ok change
    → change.policy ≡ policy_changed d old next
unfolding complete_change
calculate_change-policy h d old next change k =
    let r = calculate_change-Completed h d old next change k in
    subst (λ s. s.policy ≡ policy_changed d old next) r.completed
      (targets-policy h d old.targets next.targets (no_change d old next) r.compared r.walked)
