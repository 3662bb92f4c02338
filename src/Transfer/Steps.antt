-- ===== src/Transfer/Steps.antt =====
-- core/mcp/transfer/lease.go and management.go: lemmas on the records after each operation of a
-- task.
use xops_cli.Base.{
  ==_refl, Option, Option-cases, String, arith, false, inl, inr, none, refl, some, subst, sym, true,
  ℕ, ◌∙◌, ◌≡◌, nat_eq, string_eq, text_eq,
}
use xops_cli.Base.Int.{ℤ, ◌+ℤ◌}
use xops_cli.Base.Dict
use xops_cli.Base.Dict.{Dict}
use xops_cli.Ports.{Permit}
use xops_cli.Transfer.Record.{
  verifying, committing, completed, streamed, failed, state_eq, state_beq, Record, Codec,
  temporary_path, terminal_state,
}
use xops_cli.Transfer.Manager.{Manager, ActiveTask, save}
use xops_cli.Transfer.Commit.{
  task_of, progress, temporary, confirm_temporary, verify, reserve_commit, write_commit, complete,
  completion, settle, fail, failure_state, close, release, is_committable,
}
use xops_cli.Transfer.Management.{warn, reject_commit}
use xops_cli.Transfer.Advances.{
  IsKeyed, Advances, Advances_refl, Advances_trans, put-Advances, save-Advances, save-records,
  may_become, may_become_refl,
}

pub task_of-get :
    (m : Manager) (id : String) (r : Record) (a : ActiveTask)
    → task_of m id ≡ some (r, a)
    → Dict.get m.records id ≡ some r
unfolding task_of
task_of-get m id r a h = ground arith

module _ (c : Codec) (m : Manager) (k : IsKeyed m.records) where
  -- A save, and then the record kept in memory whatever came of it.
  pub save_put-Advances :
      (id : String) (r r' : Record)
      → Dict.get m.records id ≡ some r
      → r'.id ≡ r.id
      → r'.spec ≡ r.spec
      → may_become r.state r'.state ≡ true
      → Advances m.records (Dict.put (save c m r').1.records id r')
  save_put-Advances id r r' e i s b = elim (save-records c m r') [
    | inl (_, h) ↦ rw h (put-Advances k id r r' e i s b)
    | inr (_, h) ↦
        let first = put-Advances k id r r' e i s b in
        rw h (
          subst (λ j. Advances m.records (Dict.put (Dict.put m.records j r') id r'))
            (sym (i ∙ k.at_id id r e))
            (Advances_trans first (
              put-Advances first.keyed id r' r' (rw (Dict.get-put m.records id r' id, ==_refl id))
                refl refl (may_become_refl r'.state))))
  ]

  pub saved_at :
      (id : String) (r : Record)
      → Dict.get m.records id ≡ some r
      → (r' : Record) → r'.id ≡ r.id
      → r'.spec ≡ r.spec
      → may_become r.state r'.state ≡ true
      → Advances m.records (save c m r').1.records
  saved_at id r e r' i s b =
      save-Advances c m r r' k (subst (λ j. Dict.get m.records j ≡ some r) (sym (k.at_id id r e)) e)
        i s b

  -- A save of a task's record
  saved :
      (id : String) (r : Record) (a : ActiveTask)
      → task_of m id ≡ some (r, a)
      → (r' : Record) → r'.id ≡ r.id
      → r'.spec ≡ r.spec
      → may_become r.state r'.state ≡ true
      → Advances m.records (save c m r').1.records
  saved id r a e = saved_at id r (task_of-get m id r a e)

  stay : Advances m.records m.records
  stay = Advances_refl k

  pub progress-Advances :
      (id : String) (n : ℤ) (now : ℕ) → Advances m.records (progress m id n now).1.records
  unfolding progress
  progress-Advances id n now = elim (Option-cases (task_of m id)) [
    | inl e ↦ rw (e, progress) stay
    | inr ((r, a), e) ↦
        let moved =
          put-Advances k id r (record r { bytes = r.bytes +ℤ n; updated_at = now })
            (task_of-get m id r a e) refl refl (may_become_refl r.state) in
        rw (e, progress) (ground (arith, stay, moved))
  ]

  pub temporary-Advances :
      (id : String) (now : ℕ) → Advances m.records (temporary c m id now).1.records
  unfolding temporary
  temporary-Advances id now = elim (Option-cases (task_of m id)) [
    | inl e ↦ rw (e, temporary) stay
    | inr ((r, a), e) ↦
        let path = temporary_path r.spec.remote_path r.id in
        let moved =
          saved id r a e (record r { temp_path = path; cleanup_pending = true; updated_at = now })
            refl refl (may_become_refl r.state) in
        rw (e, temporary) (ground (arith, stay, moved))
  ]

  pub confirm_temporary-Advances :
      (id : String) (now : ℕ) → Advances m.records (confirm_temporary c m id now).1.records
  unfolding confirm_temporary
  confirm_temporary-Advances id now = elim (Option-cases (task_of m id)) [
    | inl e ↦ rw (e, confirm_temporary) stay
    | inr ((r, a), e) ↦
        let moved =
          save_put-Advances id r (record r { temp_owned = true; updated_at = now })
            (task_of-get m id r a e) refl refl (may_become_refl r.state) in
        rw (e, confirm_temporary) (ground (arith, stay, moved))
  ]

  pub verify-Advances :
      (id : String) (n : ℤ) (digest : String) (now : ℕ)
      → Advances m.records (verify c m id n digest now).1.records
  unfolding verify may_become state_beq
  verify-Advances id n digest now = elim (Option-cases (task_of m id)) [
    | inl e ↦ rw (e, verify) stay
    | inr ((r, a), e) ↦
        let moved =
          saved id r a e
            (record r { bytes = n; sha256 = digest; state = verifying; updated_at = now }) refl
            refl in
        rw (e, verify) (ground (arith, stay, moved))
  ]

  pub settle-Advances :
      (id : String) (r : Record) (a : ActiveTask)
      → task_of m id ≡ some (r, a)
      → (r' : Record) → r'.id ≡ r.id
      → r'.spec ≡ r.spec
      → may_become r.state r'.state ≡ true
      → Advances m.records (settle c m id r' a).1.records
  unfolding settle
  settle-Advances id r a e r' i s b = save_put-Advances id r r' (task_of-get m id r a e) i s b

  pub reserve_commit-records :
      (id : String) (permit : Option Permit) (now : ℕ)
      → (reserve_commit c m id permit now).1.records ≡ m.records
  unfolding reserve_commit
  reserve_commit-records id permit now = ground arith

  pub write_commit-Advances :
      (id : String) (r : Record)
      → Dict.get m.records id ≡ some r
      → is_committable r ≡ true
      → (permit : Option Permit) (now : ℕ)
      → Advances m.records (write_commit c m id r permit now).1.records
  unfolding write_commit is_committable may_become state_beq
  write_commit-Advances id r e h permit now =
      let moved = saved_at id r e (record r { state = committing; updated_at = now }) refl refl in
      ground (arith, stay, moved)

  pub complete-Advances :
      (id : String) (now : ℕ) → Advances m.records (complete c m id now).1.records
  unfolding complete completion may_become state_beq
  complete-Advances id now = elim (Option-cases (task_of m id)) [
    | inl e ↦ rw (e, complete) stay
    | inr ((r, a), e) ↦
        let done =
          settle-Advances id r a e
            (record r { state = completed; cleanup_pending = false; updated_at = now }) refl refl in
        let sent =
          settle-Advances id r a e (record r { state = streamed; updated_at = now }) refl refl in
        rw (e, complete) (ground (arith, stay, done, sent))
  ]

  failure_state-follows :
      (r : Record) (a : ActiveTask)
      → terminal_state r.state ≡ false
      → may_become r.state (failure_state r a) ≡ true
  unfolding failure_state may_become state_beq terminal_state
  failure_state-follows r a h = ground arith

  pub fail-Advances :
      (id : String) (cause : Option String) (now : ℕ)
      → Advances m.records (fail c m id cause now).1.records
  unfolding fail
  fail-Advances id cause now = elim (Option-cases (task_of m id)) [
    | inl e ↦ rw (e, fail) stay
    | inr ((r, a), e) ↦
        let text : String = elim cause [ none ↦ r.error | some s ↦ s ] in
        let ended =
          settle-Advances id r a e
            (record r { state = failure_state r a; error = text; updated_at = now }) refl refl in
        rw (e, fail) (ground (arith, stay, failure_state-follows r a, ended))
  ]

  pub reject_commit-Advances :
      (id : String) (cause : Option String) (now : ℕ)
      → Advances m.records (reject_commit c m id cause now).1.records
  unfolding reject_commit may_become state_beq
  reject_commit-Advances id none now = elim (Option-cases (task_of m id)) [
    | inl e ↦ rw (e, reject_commit) stay
    | inr ((r, a), e) ↦ rw (e, reject_commit) (ground (arith, stay))
  ]
  reject_commit-Advances id (some text) now = elim (Option-cases (task_of m id)) [
    | inl e ↦ rw (e, reject_commit) stay
    | inr ((r, a), e) ↦
        let gone =
          settle-Advances id r a e (record r { state = failed; error = text; updated_at = now })
            refl refl in
        rw (e, reject_commit) (ground (arith, stay, gone))
  ]

  pub warn-Advances :
      (id text : String) (now : ℕ) → Advances m.records (warn c m id text now).1.records
  unfolding warn
  warn-Advances id text now = elim (Option-cases (Dict.get m.records id)) [
    | inl e ↦ rw (e, warn) stay
    | inr (r, e) ↦
        rw (e, warn)
          (save_put-Advances id r (record r { warning = text; updated_at = now }) e refl refl
            (may_become_refl r.state))
  ]

  pub release-records : (id : String) → (release m id).records ≡ m.records
  unfolding release
  release-records id = refl

  pub close-Advances : (id : String) (now : ℕ) → Advances m.records (close c m id now).1.records
  unfolding close release
  close-Advances id now =
      let ended =
        fail-Advances id (some "transfer handler ended without confirming completion") now in
      ground (arith, ended)
