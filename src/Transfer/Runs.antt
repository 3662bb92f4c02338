-- ===== src/Transfer/Runs.antt =====
-- The theorems on claims, histories and verifications, at one task of one service.
use xops_cli.Transfer.Control.{is_reserved}
use xops_cli.Transfer.Commit.{is_committable}
use xops_cli.Ports.{
  bind, binding_beq, decodes_to, digest, is_hex, last_hop, names_node, phase_beq, resolve,
  selected_id, transfer_start, validate_binding,
}
use xops_cli.Transfer.Lease.{
  has_capacity, is_unbound, new_active_task, on_target, refuses_claim, same_destination, start_task,
}
use xops_cli.Transfer.Manager.{blocks, mutation_allowed, path_blocked, save}
use xops_cli.Transfer.Record.{
  check_permit, direction_beq, encode_record, has_nul, is_drive_root, path_dir, state_beq,
  temporary_path, valid_body, valid_hex, valid_remote_path, validate_authorization,
  validate_identity, validate_progress, validate_record, validate_spec, validate_state,
  validate_temporary,
}
use xops_cli.Base.Int.{int_beq}
use xops_cli.Base.{
  ◌⊎◌, In, List, String, [], arith, has_prefix, here, length, none, path_clean, refl, some,
  text_beq, there, trim_right, true, ◌∷◌, ◌≡◌, ◌≤◌, nat_eq, string_eq, text_eq,
}
use xops_cli.Base.Int.{pos}
use xops_cli.Base.Dict
use xops_cli.Base.Dict.{Dict}
use xops_cli.Ports.{ok}
use xops_cli.Transfer.Record.{upload, ready, transferring, Record}
use xops_cli.Transfer.Manager.{Manager, same_digest, authenticate}
use xops_cli.Transfer.Lease.{claim, caller_error}
use xops_cli.Transfer.Commit.{task_of, verify}
use xops_cli.Transfer.Advances.{Advances}
use xops_cli.Transfer.History.{claims, Call, cancels, fails, run_all}
use xops_cli.Transfer.Claims.{Starts, claim-Starts}
use xops_cli.Transfer.Limit.{run_all-limit}
use xops_cli.Transfer.Prepare.{collect}
use xops_cli.Transfer.Retention.{collect-active}
use xops_cli.Transfer.Example.{
  codec, task, idle, busy_with, caller, clock, lease, task_id, digest_a,
}

idle-claim : (claim codec idle caller task_id "secret" upload none clock).0 ≡ ok lease
unfolding claim authenticate same_digest valid_hex mutation_allowed refuses_claim is_unbound
    start_task save encode_record validate_record valid_body validate_spec validate_identity has_nul
    valid_remote_path is_drive_root path_clean validate_temporary temporary_path path_dir
    validate_progress validate_state path_blocked blocks has_capacity same_destination on_target
    new_active_task state_beq direction_beq text_beq int_beq task_of is_committable check_permit
    validate_authorization bind digest validate_binding decodes_to is_hex resolve selected_id
    last_hop names_node binding_beq phase_beq Dict.get Dict.put Dict.has is_reserved has_prefix
    trim_right
idle-claim = refl

abbrev after_claim : Manager
after_claim = (claim codec idle caller task_id "secret" upload none clock).1

abbrev calls : List Call
calls = fails task_id (some "broken pipe") 3 ∷ cancels "scope" task_id 4 ∷ []

claim-Starts_example :
    (caller_error caller ≡ none)
    × (mutation_allowed idle ≡ none)
    × ((r : Record) × (authenticate codec idle task_id "secret" (clock 0) ≡ ok r)
        × (r.spec.direction ≡ upload)
        × (r.state ≡ ready)
        × (is_unbound r none ≡ true ⊎ check_permit codec r none transfer_start ≡ none)
        × Starts codec idle task_id r none after_claim clock)
claim-Starts_example =
    claim-Starts codec idle caller task_id "secret" upload none clock lease idle-claim

idle-limit : length idle.active ≤ idle.limits.max_active
idle-limit = omega arith

run_all-limit_example :
    length (run_all codec idle (claims caller task_id "secret" upload none clock ∷ calls)).active
    ≤ 2
run_all-limit_example =
    run_all-limit codec idle (claims caller task_id "secret" upload none clock ∷ calls) idle-limit

verified-ok : (verify codec (busy_with (task transferring)) task_id (pos 3) digest_a 2).0 ≡ none
unfolding verify authenticate same_digest valid_hex mutation_allowed refuses_claim is_unbound
    start_task save encode_record validate_record valid_body validate_spec validate_identity has_nul
    valid_remote_path is_drive_root path_clean validate_temporary temporary_path path_dir
    validate_progress validate_state path_blocked blocks has_capacity same_destination on_target
    new_active_task state_beq direction_beq text_beq int_beq task_of is_committable check_permit
    validate_authorization bind digest validate_binding decodes_to is_hex resolve selected_id
    last_hop names_node binding_beq phase_beq Dict.get Dict.put Dict.has is_reserved has_prefix
    trim_right
verified-ok = refl

transferring-keyed : (e : String × Record) → In e ((task_id, task transferring) ∷ []) → e.1.id ≡ e.0
transferring-keyed e here = refl
transferring-keyed e (there i) = elim i [ ]

transferring-active : Dict.has (busy_with (task transferring)).active task_id ≡ true
unfolding Dict.has
transferring-active = refl

collect-active_example :
    ((collect codec (busy_with (task transferring)) 1000).1.active
      ≡ (busy_with (task transferring)).active)
    × (Dict.get (collect codec (busy_with (task transferring)) 1000).1.records task_id
        ≡ Dict.get (busy_with (task transferring)).records task_id)
collect-active_example =
    collect-active codec (busy_with (task transferring)) 1000 task_id transferring-keyed
      transferring-active
