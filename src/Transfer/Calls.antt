-- ===== src/Transfer/Calls.antt =====
-- core/mcp/transfer/manager.go and lease.go: lemmas on the records after calls of the manager.
use xops_cli.Base.{
  Option, Option-cases, String, arith, false, inl, inr, none, refl, some, subst, sym, true, ℕ, ◌≡◌,
  ◌⊎◌, nat_eq, string_eq, text_eq,
}
use xops_cli.Base.Dict
use xops_cli.Base.Dict.{Dict}
use xops_cli.Ports.{Error, Permit, Context, Result, ok, err}
use xops_cli.Transfer.Record.{
  Direction, ready, transferring, timed_out, failed, state_eq, state_beq, Record, Codec,
}
use xops_cli.Transfer.Manager.{Manager, ActiveTask, Clock, authenticate}
use xops_cli.Transfer.Prepare.{issue, invalidate_ready}
use xops_cli.Transfer.Commit.{task_of, is_committable, commit_admission, write_commit, begin_commit}
use xops_cli.Transfer.Lease.{start_task, claim, refuses_claim}
use xops_cli.Transfer.Control.{
  cancel_task, cancelled_record, cancel, cancel_with_token, cleaned, is_unfinished, cancel_active,
}
use xops_cli.Transfer.Steps.{
  task_of-get, saved_at, save_put-Advances, reserve_commit-records, write_commit-Advances,
}
use xops_cli.Transfer.Advances.{IsKeyed, Advances, Advances_refl, may_become, may_become_refl}

pub Result-cases :
    {A : Type 0} (r : Result A) → ((e : Error) × (r ≡ err e)) ⊎ ((a : A) × (r ≡ ok a))
Result-cases (err e) = inl (e, refl)
Result-cases (ok a) = inr (a, refl)

pub refuses_claim-ready :
    (c : Codec) (r : Record) (d : Direction) (permit : Option Permit)
    → refuses_claim c r d permit ≡ none
    → r.state ≡ ready
unfolding refuses_claim state_beq
refuses_claim-ready c r d permit h = ground arith

pub authenticate-get :
    (c : Codec) (m : Manager) (id token : String) (now : ℕ) (r : Record)
    → authenticate c m id token now ≡ ok r
    → Dict.get m.records id ≡ some r
unfolding authenticate
authenticate-get c m id token now r h = ground arith

module _ (c : Codec) (m : Manager) (k : IsKeyed m.records) where
  stay : Advances m.records m.records
  stay = Advances_refl k

  start_task-Advances :
      (id : String) (r : Record)
      → Dict.get m.records id ≡ some r
      → r.state ≡ ready
      → (permit : Option Permit) (clock : Clock)
      → Advances m.records (start_task c m id r permit clock).1.records
  unfolding start_task may_become state_beq
  start_task-Advances id r e s permit clock =
      let late =
        saved_at c m k id r e (record r { state = timed_out; updated_at = clock 2 }) refl refl
          (ground arith) in
      let started =
        saved_at c m k id r e (record r { state = transferring; updated_at = clock 2 }) refl refl
          (ground arith) in
      ground (arith, stay, late, started)

  pub claim-Advances :
      (ctx : Option Context) (id token : String) (d : Direction) (permit : Option Permit)
      (clock : Clock)
      → Advances m.records (claim c m ctx id token d permit clock).1.records
  unfolding claim
  claim-Advances ctx id token d permit clock =
      elim (Result-cases (authenticate c m id token (clock 0))) [
        | inl (x, e) ↦ ground (arith, stay)
        | inr (r, e) ↦
            let started = start_task-Advances id r (authenticate-get c m id token (clock 0) r e) in
            ground (
              arith,
              stay,
              refuses_claim-ready c r d permit,
              λ (s : r.state ≡ ready). started s permit clock,
            )
      ]

  cancelled-follows :
      (r : Record) (now : ℕ)
      → is_unfinished r.state ≡ true
      → may_become r.state (cancelled_record r now).state ≡ true
  unfolding cancelled_record may_become state_beq is_unfinished
  cancelled-follows r now h = ground arith

  pub issue-Advances :
      (id : String) (r : Record)
      → Dict.get m.records id ≡ some r
      → (token : Option String) (now : ℕ) → Advances m.records (issue c m r token now).1.records
  unfolding issue
  issue-Advances id r e none now = stay
  issue-Advances id r e (some token) now =
      let issued =
        saved_at c m k id r e (record r { token_digest = c.token_digest token; updated_at = now })
          refl refl (may_become_refl r.state) in
      ground (arith, stay, issued)

  pub cleaned-Advances : (id : String) (now : ℕ) → Advances m.records (cleaned c m id now).1.records
  unfolding cleaned
  cleaned-Advances id now = elim (Option-cases (Dict.get m.records id)) [
    | inl e ↦ rw (e, cleaned) stay
    | inr (r, e) ↦
        let done =
          saved_at c m k id r e (record r { cleanup_pending = false; updated_at = now }) refl refl
            (may_become_refl r.state) in
        rw (e, cleaned) (ground (arith, stay, done))
  ]

  cancel_active-records : (n : Manager) (id : String) → (cancel_active n id).records ≡ n.records
  cancel_active-records n id = ground arith

  pub cancel_task-Advances :
      (id : String) (r : Record)
      → Dict.get m.records id ≡ some r
      → (now : ℕ) → Advances m.records (cancel_task c m r now).1.records
  unfolding cancel_task
  cancel_task-Advances id r e now =
      let ended =
        save_put-Advances c m k r.id r (cancelled_record r now)
          (subst (λ j. Dict.get m.records j ≡ some r) (sym (k.at_id id r e)) e)
          (unfold cancelled_record in refl) (unfold cancelled_record in refl) in
      ground (arith, stay, cancelled-follows r now, cancel_active-records m r.id, ended)

  pub cancel-Advances :
      (scope id : String) (now : ℕ) → Advances m.records (cancel c m scope id now).1.records
  unfolding cancel
  cancel-Advances scope id now = elim (Option-cases (Dict.get m.records id)) [
    | inl e ↦ rw (e, cancel) stay
    | inr (r, e) ↦ rw (e, cancel) (ground (arith, stay, cancel_task-Advances id r e now))
  ]

  pub cancel_with_token-Advances :
      (id token : String) (clock : Clock)
      → Advances m.records (cancel_with_token c m id token clock).1.records
  unfolding cancel_with_token
  cancel_with_token-Advances id token clock =
      elim (Result-cases (authenticate c m id token (clock 0))) [
        | inl (x, e) ↦ rw (e, cancel_with_token) stay
        | inr (r, e) ↦
            rw (e, cancel_with_token)
              (cancel_task-Advances id r (authenticate-get c m id token (clock 0) r e) (clock 1))
      ]

  pub invalidate_ready-Advances :
      (id : String) (cause : Option String) (now : ℕ)
      → Advances m.records (invalidate_ready c m id cause now).1.records
  unfolding invalidate_ready may_become state_beq
  invalidate_ready-Advances id none now = ground (arith, stay)
  invalidate_ready-Advances id (some text) now = elim (Option-cases (Dict.get m.records id)) [
    | inl e ↦ ground (arith, stay)
    | inr (r, e) ↦
        let gone =
          saved_at c m k id r e (record r { state = failed; error = text; updated_at = now }) refl
            refl in
        ground (arith, stay, gone)
  ]

  commit_admission-records :
      (id : String) (r : Record) (a : ActiveTask) (permit : Option Permit) (now : ℕ)
      → (commit_admission c m id r a permit now).1.records ≡ m.records
  unfolding commit_admission
  commit_admission-records id r a permit now =
      ground (arith, reserve_commit-records c m k id permit now)

  pub begin_commit-Advances :
      (id : String) (permit : Option Permit) (clock : Clock)
      → Advances m.records (begin_commit c m id permit clock).1.records
  unfolding begin_commit
  begin_commit-Advances id permit clock = elim (Option-cases (task_of m id)) [
    | inl e ↦ rw (e, begin_commit) stay
    | inr ((r, a), e) ↦
        let m' = (commit_admission c m id r a permit (clock 0)).1 in
        let same = commit_admission-records id r a permit (clock 0) in
        let found = subst (λ rs. Dict.get rs id ≡ some r) (sym same) (task_of-get m id r a e) in
        let admitted = subst (λ rs. Advances m.records rs) (sym same) stay in
        let written = λ (h : is_committable r ≡ true).
          subst (λ rs. Advances rs (write_commit c m' id r permit (clock 1)).1.records) same
            (write_commit-Advances c m' (subst IsKeyed (sym same) k) id r found h permit
              (clock 1)) in
        rw (e, begin_commit) (ground (arith, stay, admitted, written))
  ]
