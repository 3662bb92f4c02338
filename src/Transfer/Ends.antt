-- ===== src/Transfer/Ends.antt =====
-- The theorems on commits, cancellations and restarts, at one task of one service.
use xops_cli.Transfer.Manager.{request_key_beq, valid_limits}
use xops_cli.Transfer.Control.{
  empty_manager, is_reserved, new_manager, recover_record, recover_records, recovered,
  save_recovered,
}
use xops_cli.Transfer.Commit.{
  commit_admission, commit_writable, completion, is_committable, settle, write_commit,
}
use xops_cli.Ports.{
  err, bind, binding_beq, decodes_to, digest, is_hex, last_hop, names_node, phase_beq, resolve,
  selected_id, validate_binding,
}
use xops_cli.Transfer.Lease.{
  has_capacity, is_unbound, new_active_task, on_target, refuses_claim, same_destination, start_task,
}
use xops_cli.Transfer.Manager.{blocks, mutation_allowed, path_blocked, save}
use xops_cli.Transfer.Record.{
  check_permit, direction_beq, encode_record, has_nul, is_drive_root, path_dir, state_beq,
  temporary_path, valid_body, valid_hex, valid_remote_path, validate_authorization,
  validate_identity, validate_progress, validate_record, validate_spec, validate_state,
  validate_temporary,
}
use xops_cli.Base.Int.{int_beq}
use xops_cli.Base.{
  !=→ne, [], arith, has_prefix, none, path_clean, refl, some, text_beq, trim_right, true, ◌∷◌, ◌≡◌,
  ◌≢◌, nat_eq, string_eq, text_eq,
}
use xops_cli.Base.Dict
use xops_cli.Base.Dict.{Dict}
use xops_cli.Ports.{Error, ok, err}
use xops_cli.Transfer.Record.{upload, ready, verifying, committing, unknown, Record}
use xops_cli.Transfer.Manager.{Manager, ActiveTask, same_digest, authenticate}
use xops_cli.Transfer.Lease.{claim}
use xops_cli.Transfer.Commit.{task_of, complete, begin_commit, reserve_commit}
use xops_cli.Transfer.Commits.{Commits, begin_commit-Commits, claim-blocked}
use xops_cli.Transfer.Restart.{is_settled, new_manager-settled}
use xops_cli.Transfer.Example.{
  idle, spec, codec, limits, spec, task, staged, bound, store, service, busy_with, caller, clock,
  permit, task_id, other_id,
}

staged-begin_commit :
    (begin_commit codec (busy_with (staged verifying)) task_id none clock).0 ≡ none
unfolding begin_commit commit_admission write_commit commit_writable authenticate same_digest
    valid_hex mutation_allowed refuses_claim is_unbound start_task save encode_record
    validate_record valid_body validate_spec validate_identity has_nul valid_remote_path
    is_drive_root path_clean validate_temporary temporary_path path_dir validate_progress
    validate_state path_blocked blocks has_capacity same_destination on_target new_active_task
    state_beq direction_beq text_beq int_beq task_of is_committable check_permit
    validate_authorization bind digest validate_binding decodes_to is_hex resolve selected_id
    last_hop names_node binding_beq phase_beq Dict.get Dict.put Dict.has is_reserved has_prefix
    trim_right
staged-begin_commit = refl

begin_commit-Commits_example :
    (r : Record) × (a : ActiveTask) × (task_of (busy_with (staged verifying)) task_id ≡ some (r, a))
    × Commits codec
        (busy_with (staged verifying))
        task_id
        none
        clock
        r
        (begin_commit codec (busy_with (staged verifying)) task_id none clock).1
begin_commit-Commits_example =
    begin_commit-Commits codec (busy_with (staged verifying)) task_id none clock staged-begin_commit

abbrev blocked : Manager
blocked =
    service ((other_id, record (staged unknown) { id = other_id }) ∷ (task_id, task ready) ∷ []) []

claim-blocked_example :
    (e : Error) × ((claim codec blocked caller task_id "secret" upload none clock).0 ≡ err e)
unfolding Dict.get
claim-blocked_example =
    claim-blocked codec blocked caller task_id "secret" none clock other_id
      (record (staged unknown) { id = other_id }) (task ready) refl refl refl refl refl refl

bound-reserve_commit : (reserve_commit codec (busy_with bound) task_id permit 2).0 ≡ none
unfolding reserve_commit authenticate same_digest valid_hex mutation_allowed refuses_claim
    is_unbound start_task save encode_record validate_record valid_body validate_spec
    validate_identity has_nul valid_remote_path is_drive_root path_clean validate_temporary
    temporary_path path_dir validate_progress validate_state path_blocked blocks has_capacity
    same_destination on_target new_active_task state_beq direction_beq text_beq int_beq task_of
    is_committable check_permit validate_authorization bind digest validate_binding decodes_to
    is_hex resolve selected_id last_hop names_node binding_beq phase_beq Dict.get Dict.put Dict.has
    is_reserved has_prefix trim_right
bound-reserve_commit = refl

abbrev reserved : Manager
reserved = (reserve_commit codec (busy_with bound) task_id permit 2).1

staged-complete : (complete codec (busy_with (staged committing)) task_id 2).0 ≡ none
unfolding complete completion settle authenticate same_digest valid_hex mutation_allowed
    refuses_claim is_unbound start_task save encode_record validate_record valid_body validate_spec
    validate_identity has_nul valid_remote_path is_drive_root path_clean validate_temporary
    temporary_path path_dir validate_progress validate_state path_blocked blocks has_capacity
    same_destination on_target new_active_task state_beq direction_beq text_beq int_beq task_of
    is_committable check_permit validate_authorization bind digest validate_binding decodes_to
    is_hex resolve selected_id last_hop names_node binding_beq phase_beq Dict.get Dict.put Dict.has
    is_reserved has_prefix trim_right
staged-complete = refl

abbrev restarted : Manager
restarted = (recover_records codec (empty_manager limits store) (staged committing ∷ []) clock).1

restart : new_manager codec caller limits store (some (staged committing ∷ [])) clock ≡ ok restarted
unfolding new_manager valid_limits recover_records empty_manager recover_record save_recovered
    recovered request_key_beq authenticate same_digest valid_hex mutation_allowed refuses_claim
    is_unbound start_task save encode_record validate_record valid_body validate_spec
    validate_identity has_nul valid_remote_path is_drive_root path_clean validate_temporary
    temporary_path path_dir validate_progress validate_state path_blocked blocks has_capacity
    same_destination on_target new_active_task state_beq direction_beq text_beq int_beq task_of
    is_committable check_permit validate_authorization bind digest validate_binding decodes_to
    is_hex resolve selected_id last_hop names_node binding_beq phase_beq Dict.get Dict.put Dict.has
    is_reserved has_prefix trim_right
restart = refl

restart-get : Dict.get restarted.records task_id ≡ some (recovered (staged committing) 2)
unfolding recover_records empty_manager recover_record save_recovered recovered request_key_beq
    authenticate same_digest valid_hex mutation_allowed refuses_claim is_unbound start_task save
    encode_record validate_record valid_body validate_spec validate_identity has_nul
    valid_remote_path is_drive_root path_clean validate_temporary temporary_path path_dir
    validate_progress validate_state path_blocked blocks has_capacity same_destination on_target
    new_active_task state_beq direction_beq text_beq int_beq task_of is_committable check_permit
    validate_authorization bind digest validate_binding decodes_to is_hex resolve selected_id
    last_hop names_node binding_beq phase_beq Dict.get Dict.put Dict.has is_reserved has_prefix
    trim_right
restart-get = refl

new_manager-settled_example : is_settled (recovered (staged committing) 2).state ≡ true
new_manager-settled_example =
    new_manager-settled codec caller limits store (some (staged committing ∷ [])) clock restarted
      task_id (recovered (staged committing) 2) restart restart-get

other_scope : (r : Record) → Dict.get idle.records task_id ≡ some r → r.spec.scope ≢ "stranger"
unfolding Dict.get
other_scope r h e = !=→ne spec.scope "stranger" refl (ground (arith, h, e))
