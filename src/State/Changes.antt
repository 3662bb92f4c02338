-- ===== src/State/Changes.antt =====
-- core/mcp/state/change.go: what a publication changes.
use xops_cli.Base.{
  Bool, List, Option, String, [], any, contains, false, if◌then◌else◌, length, negate, none, some,
  suc, true, ℕ, zero, ◌!=◌, ◌&&◌, ◌++◌, ◌==◌, ◌||◌, ◌∷◌, string_eq, nat_eq,
}
use xops_cli.Base.Dict.{Dict, get, put, has}
use xops_cli.Guardrail.Policy.{Config}
use xops_cli.Ports.{
  ConnectionConfig, ConnectionPlan, Hashes, OperationSnapshot, Result, Target, err, invalid, ok,
}
use xops_cli.State.Views.{include, hop_ids, uses_any}

pub record Change : Type 0 where
  pub affected : List String
  pub revoke : List String
  pub removed : List String
  pub retired : List ConnectionPlan
  pub policy : Bool

unfoldable pub same_disabled : Bool → Bool → Bool
same_disabled true b = b
same_disabled false b = negate b

-- reflect.DeepEqual on the two types for which it is called
pub record DeepEqual : Type 0 where
  pub same_config : Config → Config → Bool
  pub same_plan : ConnectionPlan → ConnectionPlan → Bool

latest_hops : Dict String ConnectionConfig → List ConnectionConfig → Dict String ConnectionConfig
latest_hops seen [] = seen
latest_hops seen (hop ∷ hops) = latest_hops (put seen hop.node_id hop) hops

unfoldable pub credentials_differ : ConnectionConfig → ConnectionConfig → Bool
credentials_differ a b =
    a.auth_type != b.auth_type
    || a.auth_update_token != b.auth_update_token
    || a.sudo_update_token != b.sudo_update_token
    || a.key_ref != b.key_ref
    || a.key_path != b.key_path
    || a.trust_version != b.trust_version

unfoldable pub authentication_changed : ConnectionPlan → ConnectionPlan → Bool
unfolding latest_hops credentials_differ
authentication_changed old next =
    any
      (λ hop. elim (get (latest_hops [] old.hops) hop.node_id) [
        | none ↦ false
        | some before ↦ credentials_differ before hop
      ])
      next.hops

-- One round of the loop: the set, and whether it has changed. A target that has joined the set is
-- seen by those after it.
unfoldable pub expand_round : Bool → List String → Dict String Target → List String × Bool
unfolding hop_ids
expand_round changed set [] = (set, changed)
expand_round changed set ((id, target) ∷ rest) =
    let joins = negate (contains set id) && uses_any set target in
    expand_round (changed || joins) (if joins then id ∷ set else set) rest

-- The fuel is the number of rounds.
unfoldable pub expand_rounds : ℕ → Dict String Target → List String → List String
unfolding expand_round
expand_rounds zero targets set = set
expand_rounds (suc fuel) targets set =
    let (next, changed) = expand_round false set targets in
    let later = expand_rounds fuel targets next in if changed then later else next

unfoldable pub expand_affected : OperationSnapshot → List String → List String
unfolding expand_rounds
expand_affected view set = expand_rounds (suc (length view.targets)) view.targets set

unfoldable pub expand_both : OperationSnapshot → OperationSnapshot → List String → List String
expand_both old next set = expand_affected next (expand_affected old set)

module _ (h : Hashes) (d : DeepEqual) where
  unfoldable pub contains_plan : List ConnectionPlan → ConnectionPlan → Bool
  contains_plan plans plan = any (λ candidate. d.same_plan candidate plan) plans

  unfoldable pub compare_plans : String → Target → Target → String → String → Change → Change
  unfolding same_disabled authentication_changed
  compare_plans id target updated old_key new_key change =
      let differs =
        old_key != new_key
        || target.version != updated.version
        || target.execution_version != updated.execution_version
        || negate (same_disabled target.disabled updated.disabled) in
      let revokes = updated.disabled || authentication_changed target.plan updated.plan in
      record change {
        affected = if differs then include change.affected id else change.affected;
        retired = if differs then change.retired ++ target.plan ∷ [] else change.retired;
        revoke = if revokes then include change.revoke id else change.revoke;
      }

  unfoldable pub compare_target : String → Target → Option Target → Change → Result Change
  unfolding compare_plans
  compare_target id target none change = ok (record change {
    affected = include change.affected id;
    revoke = include change.revoke id;
    removed = change.removed ++ id ∷ [];
    retired = change.retired ++ target.plan ∷ [];
  })
  compare_target id target (some updated) change = elim (h.connection_key target.plan) [
    | err e ↦ err e
    | ok old_key ↦ elim (h.connection_key updated.plan) [
      | err e ↦ err e
      | ok new_key ↦ ok (compare_plans id target updated old_key new_key change)
    ]
  ]

  unfoldable pub compare_targets : Dict String Target → Dict String Target → Change → Result Change
  unfolding compare_target
  compare_targets [] next change = ok change
  compare_targets ((id, target) ∷ rest) next change =
      elim (compare_target id target (get next id) change) [
        | err e ↦ err e
        | ok change' ↦ compare_targets rest next change'
      ]

unfoldable pub added_targets : Dict String Target → Dict String Target → List String → List String
added_targets old [] set = set
added_targets old ((id, target) ∷ rest) set =
    added_targets old rest (if has old id then set else include set id)

-- The value under a key, or the empty text
abbrev pub text_at : Dict String String → String → String
text_at m k = elim (get m k) [ none ↦ "" | some v ↦ v ]

unfoldable pub include_text : List String → String → List String
include_text set x = if x == "" then set else include set x

-- The targets of the aliases that no longer stand for the same one
unfoldable pub moved_aliases :
    Dict String String → Dict String String → Dict String String → List String → List String
unfolding include_text
moved_aliases old next [] set = set
moved_aliases old next ((alias, id) ∷ rest) set =
    let before = text_at old alias in
    let after = text_at next alias in
    moved_aliases old next rest
      (if before == after then set else include_text (include_text set before) after)

-- An active node still goes through a node that is removed.
unfoldable pub depends_on_removed : List String → Dict String Target → Bool
unfolding hop_ids
depends_on_removed removed targets =
    any (λ t. negate (t.1).disabled && uses_any removed (t.1)) targets

unfoldable pub retire_targets :
    Hashes
    → DeepEqual
    → List String
    → Dict String Target
    → List ConnectionPlan
    → List ConnectionPlan
unfolding contains_plan
retire_targets h d connections [] plans = plans
retire_targets h d connections ((id, target) ∷ rest) plans = retire_targets h d connections rest (
    if contains connections id && negate (contains_plan h d plans target.plan)
    then plans ++ target.plan ∷ []
    else plans)

unfoldable pub policy_changed : DeepEqual → OperationSnapshot → OperationSnapshot → Bool
policy_changed d old next =
    old.policy_revision != next.policy_revision
    || negate (
        d.same_config (record old.policy { audit_log = "" })
          (record next.policy { audit_log = "" }))

-- What calculateChange makes of the comparison of the targets. The aliases are those of both
-- snapshots; one that both have is looked at twice, which changes nothing.
unfoldable pub complete_change :
    Hashes → DeepEqual → OperationSnapshot → OperationSnapshot → Change → Change
unfolding added_targets moved_aliases expand_both retire_targets
complete_change h d old next change =
    let connections = added_targets old.targets next.targets change.affected in
    let moved =
      moved_aliases old.selectors next.selectors (old.selectors ++ next.selectors) connections in
    record change {
      affected = expand_both old next moved;
      revoke = expand_both old next change.revoke;
      retired = retire_targets h d (expand_both old next connections) old.targets change.retired;
    }

unfoldable pub calculate_change :
    Hashes → DeepEqual → OperationSnapshot → OperationSnapshot → Result Change
unfolding compare_targets policy_changed depends_on_removed complete_change
calculate_change h d old next =
    elim (compare_targets h d old.targets next.targets (record {
      affected = [];
      revoke = [];
      removed = [];
      retired = [];
      policy = policy_changed d old next;
    })) [
      | err e ↦ err e
      | ok change ↦
          if depends_on_removed change.removed next.targets
          then err invalid
          else ok (complete_change h d old next change)
    ]
