-- ===== src/Transfer/Limit.antt =====
-- core/mcp/transfer: the limit on active tasks, over sequences of calls.
use xops_cli.Base.{
  List, Option, Option-cases, String, [], arith, inl, inr, length, none, some, ℕ, ◌∙◌, ◌∷◌, ◌≡◌,
  ◌≤◌, ◌⊎◌, nat_eq, string_eq, text_eq,
}
use xops_cli.Base.Dict
use xops_cli.Base.Dict.{Dict}
use xops_cli.Ports.{ok, Context, Permit}
use xops_cli.Transfer.Record.{Direction, timed_out, transferring, failed, Record, Codec}
use xops_cli.Transfer.Manager.{Manager, ActiveTask, Clock, authenticate}
use xops_cli.Transfer.Prepare.{invalidate_ready}
use xops_cli.Transfer.Lease.{Lease, claim, start_task}
use xops_cli.Transfer.Commit.{task_of, commit_admission, write_commit, begin_commit}
use xops_cli.Transfer.Control.{cancel, cancel_with_token}
use xops_cli.Transfer.History.{
  Call, claims, progresses, makes_temporary, confirms_temporary, verifies, reserves_commit,
  begins_commit, completes, fails, rejects_commit, closes, warns, cancels, cancels_with_token,
  cleans, invalidates_ready, run, run_all,
}
use xops_cli.Transfer.Calls.{Result-cases}
use xops_cli.Transfer.Delivery.{claim-within_limit}
use xops_cli.Transfer.Capacity.{
  Within, stays, save-same, save-Within, warn-Within, cleaned-Within, progress-Within,
  temporary-Within, confirm_temporary-Within, verify-Within, reserve_commit-Within,
  write_commit-Within, complete-Within, fail-Within, reject_commit-Within, close-Within,
  cancel_task-Within,
}

module _ (c : Codec) (m : Manager) (n : ℕ) (h : length m.active ≤ n) where
  cancel-Within : (scope id : String) (now : ℕ) → Within n m (cancel c m scope id now).1
  unfolding cancel
  cancel-Within scope id now = elim (Option-cases (Dict.get m.records id)) [
    | inl e ↦ rw (e, cancel) (stays c m n h)
    | inr (r, e) ↦ rw (e, cancel) (ground (arith, stays c m n h, cancel_task-Within c m n h r now))
  ]

  cancel_with_token-Within :
      (id token : String) (clock : Clock) → Within n m (cancel_with_token c m id token clock).1
  unfolding cancel_with_token
  cancel_with_token-Within id token clock =
      elim (Result-cases (authenticate c m id token (clock 0))) [
        | inl (x, e) ↦ rw (e, cancel_with_token) (stays c m n h)
        | inr (r, e) ↦ rw (e, cancel_with_token) (cancel_task-Within c m n h r (clock 1))
      ]

  invalidate_ready-Within :
      (id : String) (cause : Option String) (now : ℕ)
      → Within n m (invalidate_ready c m id cause now).1
  unfolding invalidate_ready
  invalidate_ready-Within id none now = ground (arith, stays c m n h)
  invalidate_ready-Within id (some text) now = elim (Option-cases (Dict.get m.records id)) [
    | inl e ↦ ground (arith, stays c m n h)
    | inr (r, e) ↦ ground (
      arith,
      stays c m n h,
      save-Within c m n h (record r { state = failed; error = text; updated_at = now }),
    )
  ]

  commit_admission-Within :
      (id : String) (r : Record) (a : ActiveTask) (permit : Option Permit) (now : ℕ)
      → Within n m (commit_admission c m id r a permit now).1
  unfolding commit_admission
  commit_admission-Within id r a permit now =
      ground (arith, stays c m n h, reserve_commit-Within c m n h id permit now)

  begin_commit-Within :
      (id : String) (permit : Option Permit) (clock : Clock)
      → Within n m (begin_commit c m id permit clock).1
  unfolding begin_commit
  begin_commit-Within id permit clock = elim (Option-cases (task_of m id)) [
    | inl e ↦ rw (e, begin_commit) (stays c m n h)
    | inr ((r, a), e) ↦
        let m' = (commit_admission c m id r a permit (clock 0)).1 in
        let admitted = commit_admission-Within id r a permit (clock 0) in
        let w = write_commit-Within c m' n admitted.count id r permit (clock 1) in
        let written : Within n m (write_commit c m' id r permit (clock 1)).1 = record {
          limits = w.limits ∙ admitted.limits;
          count = w.count;
        } in
        rw (e, begin_commit) (ground (arith, stays c m n h, admitted, written))
  ]

-- A start that fails changes no active task, and none changes the limits.
start_task-kept :
    (c : Codec) (m : Manager) (id : String) (r : Record) (permit : Option Permit) (clock : Clock)
    → ((start_task c m id r permit clock).1.limits ≡ m.limits)
      × (((l : Lease) × ((start_task c m id r permit clock).0 ≡ ok l))
          ⊎ ((start_task c m id r permit clock).1.active ≡ m.active))
unfolding start_task
start_task-kept c m id r permit clock =
    let late = save-same c m (record r { state = timed_out; updated_at = clock 2 }) in
    let begun = save-same c m (record r { state = transferring; updated_at = clock 2 }) in
    (
      ground (arith, late, begun),
      elim (Result-cases (start_task c m id r permit clock).0) [
        | inr (l, e) ↦ inl (l, e)
        | inl (x, e) ↦ inr (ground (arith, late, begun))
      ],
    )

claim-kept :
    (c : Codec) (m : Manager) (ctx : Option Context) (id token : String) (d : Direction)
    (permit : Option Permit) (clock : Clock)
    → ((claim c m ctx id token d permit clock).1.limits ≡ m.limits)
      × (((l : Lease) × ((claim c m ctx id token d permit clock).0 ≡ ok l))
          ⊎ ((claim c m ctx id token d permit clock).1.active ≡ m.active))
unfolding claim
claim-kept c m ctx id token d permit clock =
    elim (Result-cases (authenticate c m id token (clock 0))) [
      | inl (x, e) ↦ (ground (arith, e), inr (ground (arith, e)))
      | inr (r, e) ↦
          let (lim, out) = start_task-kept c m id r permit clock in
          (
            ground (arith, e, lim),
            elim (Result-cases (claim c m ctx id token d permit clock).0) [
              | inr (l, f) ↦ inl (l, f)
              | inl (x, f) ↦ elim out [
                | inr same ↦ inr (ground (arith, e, same))
                | inl (l, g) ↦ inr (ground (arith, e, g))
              ]
            ],
          )
    ]

claim-Within :
    (c : Codec) (m : Manager) (ctx : Option Context) (id token : String) (d : Direction)
    (permit : Option Permit) (clock : Clock)
    → length m.active ≤ m.limits.max_active
    → Within m.limits.max_active m (claim c m ctx id token d permit clock).1
claim-Within c m ctx id token d permit clock h =
    let (lim, out) = claim-kept c m ctx id token d permit clock in
    record {
      limits = lim;
      count = elim out [
        | inl (l, e) ↦ claim-within_limit c m ctx id token d permit clock l e
        | inr same ↦ ground (arith, same, h)
      ];
    }

run-Within :
    (c : Codec) (m : Manager) (x : Call)
    → length m.active ≤ m.limits.max_active
    → Within m.limits.max_active m (run c m x)
unfolding run
run-Within c m (claims ctx id token d permit clock) h =
    claim-Within c m ctx id token d permit clock h
run-Within c m (progresses id k now) h = progress-Within c m m.limits.max_active h id k now
run-Within c m (makes_temporary id now) h = temporary-Within c m m.limits.max_active h id now
run-Within c m (confirms_temporary id now) h =
    confirm_temporary-Within c m m.limits.max_active h id now
run-Within c m (verifies id k digest now) h =
    verify-Within c m m.limits.max_active h id k digest now
run-Within c m (reserves_commit id permit now) h =
    reserve_commit-Within c m m.limits.max_active h id permit now
run-Within c m (begins_commit id permit clock) h =
    begin_commit-Within c m m.limits.max_active h id permit clock
run-Within c m (completes id now) h = complete-Within c m m.limits.max_active h id now
run-Within c m (fails id cause now) h = fail-Within c m m.limits.max_active h id cause now
run-Within c m (rejects_commit id cause now) h =
    reject_commit-Within c m m.limits.max_active h id cause now
run-Within c m (closes id now) h = close-Within c m m.limits.max_active h id now
run-Within c m (warns id text now) h = warn-Within c m m.limits.max_active h id text now
run-Within c m (cancels scope id now) h = cancel-Within c m m.limits.max_active h scope id now
run-Within c m (cancels_with_token id token clock) h =
    cancel_with_token-Within c m m.limits.max_active h id token clock
run-Within c m (cleans id now) h = cleaned-Within c m m.limits.max_active h id now
run-Within c m (invalidates_ready id cause now) h =
    invalidate_ready-Within c m m.limits.max_active h id cause now

-- Whatever calls follow one another on a manager with no more active tasks than its limit, it has
-- no more afterwards.
pub run_all-limit :
    (c : Codec) (m : Manager) (xs : List Call)
    → length m.active ≤ m.limits.max_active
    → length (run_all c m xs).active ≤ m.limits.max_active
unfolding run_all
run_all-limit c m [] h = h
run_all-limit c m (x ∷ xs) h =
    let w = run-Within c m x h in
    let rest = run_all-limit c (run c m x) xs in ground (arith, w.limits, w.count, rest)
