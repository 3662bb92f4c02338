-- ===== src/State/Comparisons.antt =====
-- core/mcp/state/change.go: what a change leaves as it was.
use xops_cli.Base.{
  Bool, Bool-cases, In, List, Option-cases, String, [], arith, contains, false, inl, inr, negate,
  if◌then◌else◌, some, ap, subst, sym, true, ◌!=◌, ◌++◌, ◌==◌, ◌||◌, ◌≡◌, ◌∙◌, ◌∷◌, ==→eq, ==_refl,
  string_eq,
}
use xops_cli.Base.Dict.{Dict, get, has}
use xops_cli.Ports.{Hashes, OperationSnapshot, Target, ok}
use xops_cli.State.Views.{include}
use xops_cli.State.Changes.{
  Change, DeepEqual, added_targets, calculate_change, compare_plans, compare_target,
  complete_change, moved_aliases, policy_changed, same_disabled, include_text, text_at,
}
use xops_cli.State.Effects.{Result-cases}
use xops_cli.State.Closure.{Within}
use xops_cli.State.Walks.{
  calculate_change-Kept, calculate_change-policy, expanded-Within, include-Within, negate-false,
  or-false,
}
use xops_cli.State.Sets.{include-contains}

-- The candidate has the target with the same connection, versions and state.
pub record Unchanged (h : Hashes) (t : Target) (next : Dict String Target) (id : String)
    : Type 0 where
  pub updated : Target
  pub found : get next id ≡ some updated
  pub same_connection : h.connection_key t.plan ≡ h.connection_key updated.plan
  pub same_version : t.version ≡ updated.version
  pub same_execution : t.execution_version ≡ updated.execution_version
  pub same_state : t.disabled ≡ updated.disabled

same_disabled-eq : (a b : Bool) → same_disabled a b ≡ true → a ≡ b
unfolding same_disabled
same_disabled-eq true b h = ground (arith, h)
same_disabled-eq false b h = ground (arith, h)

ne-false : (a b : String) → (a != b) ≡ false → a ≡ b
ne-false a b h = ground (arith, h, ==→eq a b)

abbrev has_changed : Target → Target → String → String → Bool
has_changed t u a b =
    a != b
    || t.version != u.version
    || t.execution_version != u.execution_version
    || negate (same_disabled t.disabled u.disabled)

module _ (h : Hashes) (d : DeepEqual) where
  plans-Within :
      (id : String) (t u : Target) (a b : String) (change : Change)
      → Within change.affected (compare_plans h d id t u a b change).affected
  unfolding compare_plans
  plans-Within id t u a b change x c = elim (Bool-cases (has_changed t u a b)) [
    | inl e ↦ simp (compare_plans, e) (include-Within change.affected id x c)
    | inr e ↦ simp (compare_plans, e) c
  ]

  plans-Unchanged :
      (id : String) (t u : Target) (a b : String) (change : Change) (next : Dict String Target)
      → get next id ≡ some u
      → h.connection_key t.plan ≡ ok a
      → h.connection_key u.plan ≡ ok b
      → contains (compare_plans h d id t u a b change).affected id ≡ false
      → Unchanged h t next id
  unfolding compare_plans
  plans-Unchanged id t u a b change next f k l c = elim (Bool-cases (has_changed t u a b)) [
    | inl e ↦
        let g : contains (include change.affected id) id ≡ false = simp (compare_plans, e) at c in
        absurd (ground (arith, g, include-contains change.affected id id, ==_refl id))
    | inr e ↦
        let changed_version = t.version != u.version in
        let changed_execution = t.execution_version != u.execution_version in
        let (e1, o) =
          or-false (a != b || changed_version || changed_execution)
            (negate (same_disabled t.disabled u.disabled)) e in
        let (e2, r) = or-false (a != b || changed_version) changed_execution e1 in
        let (p, q) = or-false (a != b) changed_version e2 in
        record {
          updated = u;
          found = f;
          same_connection = k ∙ ap ok (ne-false a b p) ∙ sym l;
          same_version = ne-false t.version u.version q;
          same_execution = ne-false t.execution_version u.execution_version r;
          same_state =
              same_disabled-eq t.disabled u.disabled
                (negate-false (same_disabled t.disabled u.disabled) o);
        }
  ]

  target-Compared :
      (id : String) (t : Target) (next : Dict String Target) (change change' : Change)
      → compare_target h d id t (get next id) change ≡ ok change'
      → Within change.affected change'.affected
        × (contains change'.affected id ≡ false → Unchanged h t next id)
  unfolding compare_target
  target-Compared id t next change change' k = elim (Option-cases (get next id)) [
    | inl n ↦
        let e : include change.affected id ≡ change'.affected = ground (arith, n, k) in
        (
          subst (Within change.affected) e (include-Within change.affected id),
          λ c. absurd (
              ground (
                arith,
                subst (λ s. contains s id ≡ false) (sym e) c,
                include-contains change.affected id id,
                ==_refl id,
              )),
        )
    | inr (u, y) ↦ elim (Result-cases (h.connection_key t.plan)) [
      | inl (e, f) ↦ absurd (ground (arith, y, f, k))
      | inr (a, f) ↦ elim (Result-cases (h.connection_key u.plan)) [
        | inl (e, g) ↦ absurd (ground (arith, y, f, g, k))
        | inr (b, g) ↦
            let e : compare_plans h d id t u a b change ≡ change' = ground (arith, y, f, g, k) in
            (
              subst (λ s. Within change.affected s.affected) e (plans-Within id t u a b change),
              λ c.
                  plans-Unchanged id t u a b change next y f g
                    (subst (λ s. contains s.affected id ≡ false) (sym e) c),
            )
      ]
    ]
  ]

added-Within :
    (old next : Dict String Target) (set : List String) → Within set (added_targets old next set)
unfolding added_targets
added-Within old [] set x c = c
added-Within old ((id, t) ∷ rest) set x c = elim (Bool-cases (has old id)) [
  | inl e ↦ simp (added_targets, e) (added-Within old rest set x c)
  | inr e ↦
      simp (added_targets, e) (added-Within old rest (include set id) x (include-Within set id x c))
]

text-Within : (set : List String) (id : String) → Within set (include_text set id)
unfolding include_text
text-Within set id x c = ground (arith, include-Within set id x c, c)

either-Within :
    (b : Bool) (set next : List String) → Within set next → Within set (if b then set else next)
either-Within true set next w x c = c
either-Within false set next w x c = w x c

moved-Within :
    (old next aliases : Dict String String) (set : List String)
    → Within set (moved_aliases old next aliases set)
unfolding moved_aliases
moved-Within old next [] set x c = c
moved-Within old next ((alias, id) ∷ rest) set x c =
    let before = text_at old alias in
    let after = text_at next alias in
    let more = include_text (include_text set before) after in
    moved-Within old next rest (if before == after then set else more) x (
      either-Within (before == after) set more
        (λ y i. text-Within (include_text set before) after y (text-Within set before y i)) x c)

complete-Within :
    (h : Hashes) (d : DeepEqual) (old next : OperationSnapshot) (change : Change)
    → Within change.affected (complete_change h d old next change).affected
unfolding complete_change
complete-Within h d old next change x c =
    let connections = added_targets old.targets next.targets change.affected in
    let aliases = old.selectors ++ next.selectors in
    expanded-Within old next (moved_aliases old.selectors next.selectors aliases connections) x (
      moved-Within old.selectors next.selectors aliases connections x
        (added-Within old.targets next.targets change.affected x c))

-- A change leaves the policy as it was, unless it says so, and the nodes that it does not affect.
pub calculate_change-Unchanged :
    (h : Hashes) (d : DeepEqual) (old next : OperationSnapshot) (change : Change)
    → calculate_change h d old next ≡ ok change
    → (change.policy ≡ policy_changed d old next)
      × ((id : String) (t : Target)
          → In (id, t) old.targets
          → contains change.affected id ≡ false
          → Unchanged h t next.targets id)
calculate_change-Unchanged h d old next change k = (
  calculate_change-policy h d old next change k,
  calculate_change-Kept h d (λ s. s.affected) (Unchanged h) (target-Compared h d) old next change
      (complete-Within h d old next) k,
)
