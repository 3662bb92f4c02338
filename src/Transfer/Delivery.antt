-- ===== src/Transfer/Delivery.antt =====
-- core/mcp/transfer/lease.go and manager.go: the checks of the bytes moved, of a task's end and of
-- a request's credential.
use xops_cli.Base.{
  ==→eq, Option, Option-cases, String, ap, arith, inl, inr, length, none, some, sym, true, ℕ, ◌∙◌,
  ◌∷◌, ◌≡◌, ◌≤◌, ◌⊎◌, nat_eq, string_eq, text_eq,
}
use xops_cli.Base.Int.{ℤ, int_eq}
use xops_cli.Base.Dict
use xops_cli.Base.Dict.{Dict}
use xops_cli.Ports.{ok, Context, Permit}
use xops_cli.Transfer.Record.{
  Direction, upload, download, direction_eq, direction_beq, transferring, verifying, committing,
  completed, streamed, state_eq, state_beq, state_beq_iff, direction_beq_iff, Record, Codec,
  valid_hex,
}
use xops_cli.Transfer.Manager.{Manager, ActiveTask, Clock, saved}
use xops_cli.Transfer.Lease.{Lease, claim, has_capacity, new_active_task}
use xops_cli.Transfer.Commit.{task_of, verify, completion, complete, settle}
use xops_cli.Transfer.Claims.{save-ok, claim-Starts}
use xops_cli.Transfer.Commits.{settle-get}

-- The record that a verification writes
abbrev pub verified : Record → ℤ → String → ℕ → Record
verified r n digest now = record r {
  bytes = n;
  sha256 = digest;
  state = verifying;
  updated_at = now;
}

-- A verification that succeeds: the task was transferring, the size that is reported is the
-- approved one and the one counted, the digest is a SHA-256 and for an upload the approved one,
-- and the journal holds the verified record.
pub verify-exact :
    (c : Codec) (m : Manager) (id : String) (n : ℤ) (digest : String) (now : ℕ)
    → (verify c m id n digest now).0 ≡ none
    → (r : Record) × (a : ActiveTask) × (task_of m id ≡ some (r, a))
      × (r.state ≡ transferring)
      × (n ≡ r.spec.size)
      × (n ≡ r.bytes)
      × (valid_hex digest 32 ≡ true)
      × (r.spec.direction ≡ upload → digest ≡ r.spec.sha256)
      × ((verify c m id n digest now).1.store.calls
          ≡ saved (verified r n digest now) true ∷ m.store.calls)
unfolding verify
verify-exact c m id n digest now h = elim (Option-cases (task_of m id)) [
  | inl e ↦ absurd (ground arith)
  | inr ((r, a), e) ↦
      let s = save-ok c m (verified r n digest now) in
      (
        r,
        a,
        e,
        ground (arith, state_beq_iff r.state transferring),
        ground (arith, ==→eq n r.spec.size),
        ground (arith, ==→eq n r.bytes),
        ground arith,
        λ u. ground (arith, ==→eq digest r.spec.sha256, direction_beq_iff r.spec.direction upload),
        ground (arith, s),
      )
]

completion-cases :
    (r q : Record)
    → completion r ≡ some q
    → (r.state ≡ committing) × (r.spec.direction ≡ upload) × (q.state ≡ completed)
      ⊎ (r.state ≡ verifying) × (r.spec.direction ≡ download) × (q.state ≡ streamed)
unfolding completion state_beq direction_beq
completion-cases r q h = ground arith

settle-ok :
    (c : Codec) (m : Manager) (id : String) (r : Record) (a : ActiveTask)
    → (settle c m id r a).0 ≡ none
    → (settle c m id r a).1.store.calls ≡ saved r true ∷ m.store.calls
unfolding settle
settle-ok c m id r a h = (save-ok c m r h).1

-- A completion that succeeds: either the task is an upload whose commit was under way, and is
-- completed, or it is a verified download, and is streamed; the record in memory is the one that
-- the journal holds.
pub complete-final :
    (c : Codec) (m : Manager) (id : String) (now : ℕ)
    → (complete c m id now).0 ≡ none
    → (r : Record) × (a : ActiveTask) × (r' : Record) × (task_of m id ≡ some (r, a))
      × (Dict.get (complete c m id now).1.records id ≡ some r')
      × ((r.state ≡ committing) × (r.spec.direction ≡ upload) × (r'.state ≡ completed)
          ⊎ (r.state ≡ verifying) × (r.spec.direction ≡ download) × (r'.state ≡ streamed))
      × ((complete c m id now).1.store.calls ≡ saved r' true ∷ m.store.calls)
unfolding complete
complete-final c m id now h = elim (Option-cases (task_of m id)) [
  | inl e ↦ absurd (ground arith)
  | inr ((r, a), e) ↦ elim (Option-cases (completion r)) [
    | inl q ↦ absurd (ground arith)
    | inr (q, f) ↦
        let r' = record q { updated_at = now } in
        let same : complete c m id now ≡ settle c m id r' a = ground arith in
        (
          r,
          a,
          r',
          e,
          ap (λ t. Dict.get t.1.records id) same ∙ settle-get c m id r' a,
          completion-cases r q f,
          ap (λ t. t.1.store.calls) same ∙ settle-ok c m id r' a (ap (λ t. t.0) (sym same) ∙ h),
        )
  ]
]

-- A claim that succeeds leaves at most as many active tasks as the limit allows.
pub claim-within_limit :
    (c : Codec) (m : Manager) (ctx : Option Context) (id token : String) (d : Direction)
    (permit : Option Permit) (clock : Clock) (l : Lease)
    → (claim c m ctx id token d permit clock).0 ≡ ok l
    → length (claim c m ctx id token d permit clock).1.active ≤ m.limits.max_active
unfolding has_capacity
claim-within_limit c m ctx id token d permit clock l h =
    let (_, _, (r, _, _, _, _, s)) = claim-Starts c m ctx id token d permit clock l h in
    let room = Dict.length-put-le m.active id (new_active_task m permit (clock 3)) in
    rw s.active (ground (arith, s.capacity, room))
