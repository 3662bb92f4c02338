-- ===== src/State/Standing.antt =====
-- core/mcp/state/update.go: what a publication that revokes no operation on some nodes leaves.
use xops_cli.Base.{
  Bool, Bool-cases, In, List, Option-cases, String, any, any-false-In, arith, contains, false, here,
  there, refl, [], ◌∷◌, inl, inr, negate, none, some, true, ◌==◌, ◌||◌, ◌≡◌, ◌∙◌, ==→eq, ==_refl,
  string_eq, subst, sym,
}
use xops_cli.Base.Dict.{Dict, get}
use xops_cli.Ports.{Hashes, OperationSnapshot, Target, ok}
use xops_cli.State.Views.{include}
use xops_cli.State.Changes.{
  Change, DeepEqual, authentication_changed, calculate_change, compare_plans, compare_target,
  complete_change, policy_changed,
}
use xops_cli.State.Effects.{Result-cases}
use xops_cli.State.Closure.{Within}
use xops_cli.State.Sets.{contains-In, include-contains}
use xops_cli.State.Walks.{
  calculate_change-Kept, calculate_change-policy, expanded-Within, include-Within, or-false,
}

-- The inventory has the node, and it is not disabled.
abbrev pub is_enabled : Dict String Target → String → Bool
is_enabled targets id = elim (get targets id) [ none ↦ false | some t ↦ negate t.disabled ]

-- The second view has the policy's revision of the first, and those of the nodes that the first
-- has enabled are enabled.
pub record Stands (nodes : List String) (old now : OperationSnapshot) : Type 0 where
  pub same_policy : old.policy_revision ≡ now.policy_revision
  pub still_enabled :
      (id : String)
      → contains nodes id ≡ true
      → is_enabled old.targets id ≡ true
      → is_enabled now.targets id ≡ true

pub Stands-refl : (nodes : List String) (view : OperationSnapshot) → Stands nodes view view
Stands-refl nodes view = record { same_policy = refl; still_enabled = λ id i e. e }

pub Stands-trans :
    (nodes : List String) (old mid now : OperationSnapshot)
    → Stands nodes old mid
    → Stands nodes mid now
    → Stands nodes old now
Stands-trans nodes old mid now s t = record {
  same_policy = s.same_policy ∙ t.same_policy;
  still_enabled = λ id i e. t.still_enabled id i (s.still_enabled id i e);
}

get-In : (m : Dict String Target) (k : String) (t : Target) → get m k ≡ some t → In (k, t) m
unfolding get
get-In [] k t h = absurd (ground (arith, h))
get-In ((j, u) ∷ m) k t h = elim (Bool-cases (j == k)) [
  | inl e ↦
      let same : u ≡ t = ground (arith, e, h) in
      subst (λ x. In (x, t) ((j, u) ∷ m)) (==→eq j k e)
        (subst (λ x. In (j, x) ((j, u) ∷ m)) same here)
  | inr e ↦ there (get-In m k t (rw e at h))
]

module _ (h : Hashes) (d : DeepEqual) where
  plans-revoke :
      (id : String) (t u : Target) (a b : String) (change : Change)
      → Within change.revoke (compare_plans h d id t u a b change).revoke
        × (contains (compare_plans h d id t u a b change).revoke id ≡ false
            → negate u.disabled ≡ true)
  unfolding compare_plans
  plans-revoke id t u a b change =
      elim (Bool-cases (u.disabled || authentication_changed t.plan u.plan)) [
        | inl e ↦ (
          simp (compare_plans, e) (include-Within change.revoke id),
          λ c. absurd (ground (arith, rw e at c, include-contains change.revoke id id, ==_refl id)),
        )
        | inr e ↦ (
          simp (compare_plans, e) (λ x c. c),
          λ c. ground (arith, (or-false u.disabled (authentication_changed t.plan u.plan) e).0),
        )
      ]

  target-revoke :
      (id : String) (t : Target) (next : Dict String Target) (change change' : Change)
      → compare_target h d id t (get next id) change ≡ ok change'
      → Within change.revoke change'.revoke
        × (contains change'.revoke id ≡ false → is_enabled next id ≡ true)
  unfolding compare_target
  target-revoke id t next change change' k = elim (Option-cases (get next id)) [
    | inl n ↦
        let e : include change.revoke id ≡ change'.revoke = ground (arith, n, k) in
        (
          subst (Within change.revoke) e (include-Within change.revoke id),
          λ c. absurd (
              ground (
                arith,
                subst (λ s. contains s id ≡ false) (sym e) c,
                include-contains change.revoke id id,
                ==_refl id,
              )),
        )
    | inr (u, y) ↦ elim (Result-cases (h.connection_key t.plan)) [
      | inl (e, f) ↦ absurd (ground (arith, y, f, k))
      | inr (a, f) ↦ elim (Result-cases (h.connection_key u.plan)) [
        | inl (e, g) ↦ absurd (ground (arith, y, f, g, k))
        | inr (b, g) ↦
            let e : compare_plans h d id t u a b change ≡ change' = ground (arith, y, f, g, k) in
            let (w, l) = plans-revoke id t u a b change in
            (
              subst (λ s. Within change.revoke s.revoke) e w,
              λ c. rw (is_enabled, y) (l (subst (λ s. contains s.revoke id ≡ false) (sym e) c)),
            )
      ]
    ]
  ]

  complete-revoke :
      (old next : OperationSnapshot) (change : Change)
      → Within change.revoke (complete_change h d old next change).revoke
  unfolding complete_change
  complete-revoke old next change = expanded-Within old next change.revoke

  -- A change that revokes nothing on the nodes leaves them enabled, and the policy as it was.
  pub calculate_change-Stands :
      (old next : OperationSnapshot) (change : Change) (nodes : List String)
      → calculate_change h d old next ≡ ok change
      → change.policy ≡ false
      → any (contains change.revoke) nodes ≡ false
      → Stands nodes old next
  unfolding policy_changed
  calculate_change-Stands old next change nodes k p r =
      let changed = sym (calculate_change-policy h d old next change k) ∙ p in
      record {
        same_policy = ground (arith, changed, ==→eq old.policy_revision next.policy_revision);
        still_enabled = λ id i e. elim (Option-cases (get old.targets id)) [
          | inl n ↦ absurd (ground (arith, e, n))
          | inr (t, y) ↦
              calculate_change-Kept h d (λ s. s.revoke) (λ u targets j. is_enabled targets j ≡ true)
                target-revoke old next change (complete-revoke old next) k id t
                (get-In old.targets id t y)
                (any-false-In (contains change.revoke) r (contains-In nodes id i))
        ];
      }
