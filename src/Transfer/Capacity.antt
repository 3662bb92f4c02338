-- ===== src/Transfer/Capacity.antt =====
-- core/mcp/transfer/lease.go and management.go: how each operation on a task changes the number
-- of active ones.
use xops_cli.Base.{
  Option, Option-cases, String, [], arith, false, inl, inr, length, none, refl, some, true, ℕ, ◌∷◌,
  ◌≡◌, ◌≤◌, nat_eq, string_eq, text_eq,
}
use xops_cli.Base.Int.{ℤ, ◌+ℤ◌}
use xops_cli.Base.Dict
use xops_cli.Base.Dict.{Dict}
use xops_cli.Ports.{Permit}
use xops_cli.Transfer.Record.{verifying, committing, failed, Record, Codec, temporary_path}
use xops_cli.Transfer.Manager.{Manager, ActiveTask, save}
use xops_cli.Transfer.Lease.{cancel_context}
use xops_cli.Transfer.Commit.{
  task_of, progress, temporary, confirm_temporary, verify, reserve_commit, write_commit, settle,
  stopped, put_task, commit_task, failure_state, complete, completion, fail, release, close,
}
use xops_cli.Transfer.Management.{warn, reject_commit}
use xops_cli.Transfer.Control.{cancel_task, cancelled_record, cleaned}

-- The limits stay, and no task more is active than a bound allows.
pub record Within (n : ℕ) (m m' : Manager) : Type 0 where
  pub limits : m'.limits ≡ m.limits
  pub count : length m'.active ≤ n

length-put_known :
    (ts : Dict String ActiveTask) (id : String) (a b : ActiveTask)
    → Dict.get ts id ≡ some a
    → length (Dict.put ts id b) ≡ length ts
unfolding Dict.get Dict.put
length-put_known [] id a b h = ground arith
length-put_known ((j, t) ∷ ts) id a b h = ground (arith, length-put_known ts id a b)

task_of-active :
    (m : Manager) (id : String) (r : Record) (a : ActiveTask)
    → task_of m id ≡ some (r, a)
    → Dict.get m.active id ≡ some a
unfolding task_of
task_of-active m id r a h = ground arith

pub save-same :
    (c : Codec) (m : Manager) (r : Record)
    → ((save c m r).1.limits ≡ m.limits) × ((save c m r).1.active ≡ m.active)
unfolding save
save-same c m r = (ground arith, ground arith)

module _ (c : Codec) (m : Manager) (n : ℕ) (h : length m.active ≤ n) where
  pub stays : Within n m m
  stays = record { limits = refl; count = h }

  pub save-Within : (r : Record) → Within n m (save c m r).1
  save-Within r = let s = save-same c m r in record { limits = s.0; count = ground (arith, s) }

  pub warn-Within : (id text : String) (now : ℕ) → Within n m (warn c m id text now).1
  unfolding warn
  warn-Within id text now = elim (Option-cases (Dict.get m.records id)) [
    | inl e ↦ rw (e, warn) stays
    | inr (r, e) ↦
        let s = save-same c m (record r { warning = text; updated_at = now }) in
        rw (e, warn) (record { limits = s.0; count = ground (arith, s) })
  ]

  pub cleaned-Within : (id : String) (now : ℕ) → Within n m (cleaned c m id now).1
  unfolding cleaned
  cleaned-Within id now = elim (Option-cases (Dict.get m.records id)) [
    | inl e ↦ rw (e, cleaned) stays
    | inr (r, e) ↦
        rw (e, cleaned)
          (ground
            (arith, stays, save-Within (record r { cleanup_pending = false; updated_at = now })))
  ]

  pub settle-Within :
      (id : String) (r q : Record) (a : ActiveTask)
      → task_of m id ≡ some (r, a)
      → Within n m (settle c m id q a).1
  unfolding settle
  settle-Within id r q a e =
      let s = save-same c m q in
      let same = length-put_known (save c m q).1.active id a (stopped a) in
      let found = task_of-active m id r a e in
      record { limits = s.0; count = ground (arith, s, same, found) }

  pub put_task-Within :
      (id : String) (a b : ActiveTask)
      → Dict.get m.active id ≡ some a
      → Within n m (put_task m id b)
  put_task-Within id a b e = record {
    limits = refl;
    count = ground (arith, h, length-put_known m.active id a b e);
  }

  pub progress-Within : (id : String) (k : ℤ) (now : ℕ) → Within n m (progress m id k now).1
  unfolding progress
  progress-Within id k now = elim (Option-cases (task_of m id)) [
    | inl e ↦ rw (e, progress) stays
    | inr ((r, a), e) ↦
        let moved : Within n m (record m {
          records = Dict.put m.records id (record r { bytes = r.bytes +ℤ k; updated_at = now });
        }) =
          record { limits = refl; count = h } in
        rw (e, progress) (ground (arith, stays, moved))
  ]

  pub temporary-Within : (id : String) (now : ℕ) → Within n m (temporary c m id now).1
  unfolding temporary
  temporary-Within id now = elim (Option-cases (task_of m id)) [
    | inl e ↦ rw (e, temporary) stays
    | inr ((r, a), e) ↦
        let path = temporary_path r.spec.remote_path r.id in
        rw (e, temporary)
          (ground (
            arith,
            stays,
            save-Within (record r { temp_path = path; cleanup_pending = true; updated_at = now }),
          ))
  ]

  pub confirm_temporary-Within :
      (id : String) (now : ℕ) → Within n m (confirm_temporary c m id now).1
  unfolding confirm_temporary
  confirm_temporary-Within id now = elim (Option-cases (task_of m id)) [
    | inl e ↦ rw (e, confirm_temporary) stays
    | inr ((r, a), e) ↦
        let q = record r { temp_owned = true; updated_at = now } in
        let s = save-same c m q in
        let m' = (save c m q).1 in
        let moved : Within n m (record m' { records = Dict.put m'.records id q }) = record {
          limits = s.0;
          count = ground (arith, s);
        } in
        rw (e, confirm_temporary) (ground (arith, stays, moved))
  ]

  pub verify-Within :
      (id : String) (k : ℤ) (digest : String) (now : ℕ) → Within n m (verify c m id k digest now).1
  unfolding verify
  verify-Within id k digest now = elim (Option-cases (task_of m id)) [
    | inl e ↦ rw (e, verify) stays
    | inr ((r, a), e) ↦
        let moved =
          save-Within
            (record r { bytes = k; sha256 = digest; state = verifying; updated_at = now }) in
        rw (e, verify) (ground (arith, stays, moved))
  ]

  pub reserve_commit-Within :
      (id : String) (permit : Option Permit) (now : ℕ)
      → Within n m (reserve_commit c m id permit now).1
  unfolding reserve_commit
  reserve_commit-Within id permit now = elim (Option-cases (task_of m id)) [
    | inl e ↦ rw (e, reserve_commit) stays
    | inr ((r, a), e) ↦
        let moved =
          put_task-Within id a (record a { commit_reserved = true }) (task_of-active m id r a e) in
        rw (e, reserve_commit) (ground (arith, stays, moved))
  ]

  pub write_commit-Within :
      (id : String) (r : Record) (permit : Option Permit) (now : ℕ)
      → Within n m (write_commit c m id r permit now).1
  unfolding write_commit
  write_commit-Within id r permit now =
      let q = record r { state = committing; updated_at = now } in
      let s = save-same c m q in
      let m' = (save c m q).1 in
      elim (Option-cases (Dict.get m'.active id)) [
        | inl e ↦ ground (arith, stays, save-Within q, e)
        | inr (a, e) ↦
            let b = commit_task a permit in
            let moved : Within n m (put_task m' id b) = record {
              limits = s.0;
              count = ground (arith, s, length-put_known m'.active id a b e);
            } in
            ground (arith, stays, save-Within q, moved, e)
      ]

  pub complete-Within : (id : String) (now : ℕ) → Within n m (complete c m id now).1
  unfolding complete
  complete-Within id now = elim (Option-cases (task_of m id)) [
    | inl e ↦ rw (e, complete) stays
    | inr ((r, a), e) ↦ elim (Option-cases (completion r)) [
      | inl f ↦ rw (e, complete) (ground (arith, stays, f))
      | inr (q, f) ↦
          rw (e, complete)
            (ground (arith, f, settle-Within id r (record q { updated_at = now }) a e))
    ]
  ]

  pub fail-Within :
      (id : String) (cause : Option String) (now : ℕ) → Within n m (fail c m id cause now).1
  unfolding fail
  fail-Within id cause now = elim (Option-cases (task_of m id)) [
    | inl e ↦ rw (e, fail) stays
    | inr ((r, a), e) ↦
        let text : String = elim cause [ none ↦ r.error | some s ↦ s ] in
        let ended =
          settle-Within id r
            (record r { state = failure_state r a; error = text; updated_at = now }) a e in
        rw (e, fail) (ground (arith, stays, ended))
  ]

  pub reject_commit-Within :
      (id : String) (cause : Option String) (now : ℕ)
      → Within n m (reject_commit c m id cause now).1
  unfolding reject_commit
  reject_commit-Within id none now = elim (Option-cases (task_of m id)) [
    | inl e ↦ rw (e, reject_commit) stays
    | inr ((r, a), e) ↦ rw (e, reject_commit) (ground (arith, stays))
  ]
  reject_commit-Within id (some text) now = elim (Option-cases (task_of m id)) [
    | inl e ↦ rw (e, reject_commit) stays
    | inr ((r, a), e) ↦
        let gone =
          settle-Within id r (record r { state = failed; error = text; updated_at = now }) a e in
        rw (e, reject_commit) (ground (arith, stays, gone))
  ]

  pub close-Within : (id : String) (now : ℕ) → Within n m (close c m id now).1
  unfolding close release
  close-Within id now =
      let ended =
        fail-Within id (some "transfer handler ended without confirming completion") now in
      let m' = (fail c m id (some "transfer handler ended without confirming completion") now).1 in
      let less = Dict.length-delete-le m'.active id in
      record { limits = ground (arith, ended.limits); count = ground (arith, ended.count, less) }

  pub cancel_task-Within : (r : Record) (now : ℕ) → Within n m (cancel_task c m r now).1
  unfolding cancel_task
  cancel_task-Within r now =
      let q = cancelled_record r now in
      let s = save-same c m q in
      elim (Option-cases (Dict.get (save c m q).1.active r.id)) [
        | inl e ↦ record { limits = ground (arith, s, e); count = ground (arith, h, s, e) }
        | inr (a, e) ↦
            let b = record a { ctx_err = cancel_context a.ctx_err } in
            let same = length-put_known (save c m q).1.active r.id a b e in
            record { limits = ground (arith, s, e); count = ground (arith, h, s, e, same) }
      ]
