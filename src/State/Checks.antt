-- ===== src/State/Checks.antt =====
-- The theorems of State at a coordinator with a node behind a jump host.
use xops_cli.Base.{List, [], false, none, refl, some, true, string_eq, ◌⊎◌, ◌∷◌}
use xops_cli.Guardrail.Policy.{validate_config, validate_globs}
use xops_cli.Ports.{
  binding_beq, decodes_to, digest, is_hex, last_hop, names_node, new_permit, phase_beq, resolve,
  selected_id, validate_binding,
}
use xops_cli.Base.Dict.{get, has, put}
use xops_cli.State.Example.{
  platform, hashes, same_values, web_host, first_view, second_view, live, new, web_admission,
  jump_admission,
}
use xops_cli.State.Progress.{Freed, ending_calls, ending_calls-Freed}
use xops_cli.State.Views.{
  dependencies, disabled, endpoint, hop_ids, same_hop, select_view, selectors_for, valid_selector,
  validate_snapshot,
}
use xops_cli.State.Changes.{
  Change, added_targets, authentication_changed, calculate_change, compare_plans, compare_target,
  compare_targets, complete_change, contains_plan, credentials_differ, depends_on_removed,
  expand_affected, expand_both, expand_round, expand_rounds, include_text, moved_aliases,
  policy_changed, retire_targets, same_disabled,
}
use xops_cli.State.Coordinator.{
  Coordinator, Update, blocked, enter, enter_locked, is_blocked_by, new_coordinator, persisting,
  prepared, previous_registration, refuses_view, register,
}
use xops_cli.State.Updates.{
  activate, begin_reserved, begin_tests, begin_update, confirm_commit, include_each, publish_start,
  reserve, retained_identities, reuses_identity, valid_update,
}
use xops_cli.State.History.{
  Op, cancelling, aborting, beginning, closing, confirming, entering, persisting_update,
  publishing_update, retiring, rolling_back, run_ops, step,
}
use xops_cli.State.Limits.{IsWithin, new_coordinator-IsWithin}
use xops_cli.State.Closure.{IsClosure, expand_affected-IsClosure}
use xops_cli.State.Identities.{Gone, removed-Gone}
use xops_cli.State.Exclusion.{Leaves, enter-Leaves}
use xops_cli.State.Commitments.{Holds, Shown, confirm_commit-kept}

abbrev publication : List Op
publication =
    entering (some live) web_admission
    ∷ beginning (some live) none none "1" second_view
    ∷ persisting_update 1
    ∷ confirming 1
    ∷ publishing_update (some live) true 1
    ∷ cancelling 1
    ∷ retiring none 1
    ∷ entering (some live) web_admission
    ∷ []

new_coordinator-IsWithin_example : IsWithin 2 (run_ops platform hashes same_values publication new)
unfolding new_coordinator validate_snapshot validate_config digest names_node last_hop get put
    same_hop endpoint
new_coordinator-IsWithin_example =
    new_coordinator-IsWithin platform hashes same_values first_view (some 2) new publication refl

abbrev removal : Change
removal = record {
  affected = "web" ∷ [];
  revoke = "web" ∷ [];
  removed = "web" ∷ [];
  retired = [];
  policy = false;
}

abbrev pending_update : Update
pending_update = record {
  id = 7;
  next = second_view;
  change = removal;
  phase = persisting;
  published = false;
  cancels = [];
}

abbrev persisting_coordinator : Coordinator
persisting_coordinator = record new { pending = some pending_update; next_id = 8 }

abbrev confirmed : Coordinator
confirmed = (confirm_commit persisting_coordinator 7).1

confirm_commit-kept_example :
    Holds 7 second_view
      (run_ops platform hashes same_values (aborting 7 ∷ rolling_back 7 ∷ closing ∷ []) confirmed)
    ⊎ Shown platform hashes same_values second_view
        (aborting 7 ∷ rolling_back 7 ∷ closing ∷ [])
        confirmed
unfolding confirm_commit valid_update
confirm_commit-kept_example =
    confirm_commit-kept platform hashes same_values persisting_coordinator confirmed 7
      pending_update (aborting 7 ∷ rolling_back 7 ∷ closing ∷ []) refl refl refl

expand_affected-IsClosure_example :
    IsClosure first_view.targets ("jump" ∷ []) (expand_affected first_view ("jump" ∷ []))
expand_affected-IsClosure_example = expand_affected-IsClosure first_view ("jump" ∷ [])

abbrev publishing_web_removal : List Op
publishing_web_removal =
    beginning (some live) none none "1" second_view
    ∷ confirming 0
    ∷ publishing_update (some live) true 0
    ∷ []

removed-Gone_example :
    Gone "web"
      (run_ops platform hashes same_values
        (retiring none 0 ∷ entering (some live) web_admission ∷ [])
        (run_ops platform hashes same_values publishing_web_removal new)).view
unfolding new_coordinator validate_snapshot validate_config validate_globs digest names_node
    last_hop get put has same_hop endpoint hop_ids valid_selector run_ops step begin_update
    begin_tests begin_reserved reserve retained_identities reuses_identity calculate_change
    added_targets compare_target compare_targets compare_plans authentication_changed
    credentials_differ same_disabled complete_change contains_plan depends_on_removed
    expand_affected expand_both expand_round expand_rounds include_text moved_aliases policy_changed
    retire_targets confirm_commit valid_update publish_start activate include_each
removed-Gone_example =
    removed-Gone platform hashes same_values first_view (some 2) new [] publishing_web_removal
      (retiring none 0 ∷ entering (some live) web_admission ∷ []) "web" refl refl refl

abbrev begun : Coordinator
begun =
    run_ops platform hashes same_values (beginning (some live) none none "1" second_view ∷ []) new

abbrev reserved_update : Update
reserved_update = record {
  id = 0;
  next = second_view;
  change = record {
    affected = "web" ∷ [];
    revoke = "web" ∷ [];
    removed = "web" ∷ [];
    retired = (web_host.1).plan ∷ [];
    policy = false;
  };
  phase = prepared;
  published = false;
  cancels = [];
}

enter-Leaves_example : Leaves hashes same_values begun second_view jump_admission
unfolding new_coordinator validate_snapshot validate_config validate_globs digest names_node
    last_hop get put has same_hop endpoint hop_ids valid_selector run_ops step begin_update
    begin_tests begin_reserved reserve retained_identities reuses_identity calculate_change
    added_targets compare_target compare_targets compare_plans authentication_changed
    credentials_differ same_disabled complete_change contains_plan depends_on_removed
    expand_affected expand_both expand_round expand_rounds include_text moved_aliases policy_changed
    retire_targets enter enter_locked previous_registration refuses_view register blocked
    is_blocked_by dependencies disabled select_view selectors_for resolve selected_id
    validate_binding binding_beq phase_beq new_permit decodes_to is_hex
enter-Leaves_example =
    enter-Leaves platform hashes same_values first_view (some 2) new begun
      (enter hashes (some live) begun jump_admission).1
      (beginning (some live) none none "1" second_view ∷ []) reserved_update (some live)
      jump_admission 1 refl refl refl refl refl

ending_calls-Freed_example :
    Freed platform hashes same_values reserved_update begun.view
      (run_ops platform hashes same_values (ending_calls live prepared 0) begun)
unfolding new_coordinator validate_snapshot validate_config validate_globs digest names_node
    last_hop get put has same_hop endpoint hop_ids valid_selector run_ops step begin_update
    begin_tests begin_reserved reserve retained_identities reuses_identity calculate_change
    added_targets compare_target compare_targets compare_plans authentication_changed
    credentials_differ same_disabled complete_change contains_plan depends_on_removed
    expand_affected expand_both expand_round expand_rounds include_text moved_aliases policy_changed
    retire_targets enter enter_locked previous_registration refuses_view register blocked
    is_blocked_by dependencies disabled select_view selectors_for resolve selected_id
    validate_binding binding_beq phase_beq new_permit decodes_to is_hex
ending_calls-Freed_example =
    ending_calls-Freed platform hashes same_values first_view (some 2) new
      (beginning (some live) none none "1" second_view ∷ []) reserved_update live 60 refl refl refl
      refl refl

abbrev publishing_under_jump : List Op
publishing_under_jump =
    beginning (some live) none none "1" second_view
    ∷ confirming 1
    ∷ publishing_update (some live) true 1
    ∷ cancelling 1
    ∷ []

abbrev admitted : Coordinator
admitted = (enter hashes (some live) new jump_admission).1
