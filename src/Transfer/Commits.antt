-- ===== src/Transfer/Commits.antt =====
-- core/mcp/transfer/lease.go: commits, their journal and their uncertain results.
use xops_cli.Base.{
  ==_refl, Bool, Bool-cases, Option, Option-cases, String, [], any, ap, arith, false, inl, inr,
  none, refl, some, true, ℕ, ◌∙◌, ◌∷◌, ◌≡◌, ◌⊎◌, nat_eq, string_eq, text_eq,
}
use xops_cli.Base.Int.{int_eq}
use xops_cli.Base.Dict
use xops_cli.Base.Dict.{Dict}
use xops_cli.Ports.{Error, err, Context, Permit, commit}
use xops_cli.Transfer.Record.{
  upload, direction_eq, direction_beq, committing, unknown, state_eq, state_beq, Spec, Record,
  Codec, check_permit,
}
use xops_cli.Transfer.Manager.{Manager, ActiveTask, Clock, saved, save, path_blocked, blocks}
use xops_cli.Transfer.Lease.{claim, is_unbound}
use xops_cli.Transfer.Commit.{
  task_of, is_committable, reserve_commit, commit_admission, write_commit, begin_commit, settle,
}
use xops_cli.Transfer.Calls.{Result-cases, authenticate-get}
use xops_cli.Transfer.Claims.{save-ok, claim-Starts, get-put_own}

-- The record that a commit writes
abbrev pub committing_record : Record → ℕ → Record
committing_record r now = record r { state = committing; updated_at = now }

-- The parts of a commit that has begun
pub record Commits (c : Codec) (m : Manager) (id : String) (permit : Option Permit) (clock : Clock)
    (r : Record) (m' : Manager) : Type 0 where
  pub committable : is_committable r ≡ true
  pub permitted : is_unbound r permit ≡ true ⊎ check_permit c r permit commit ≡ none
  pub records : m'.records ≡ Dict.put m.records r.id (committing_record r (clock 1))
  pub journal : m'.store.calls ≡ saved (committing_record r (clock 1)) true ∷ m.store.calls

reserve_commit-permit :
    (c : Codec) (m : Manager) (id : String) (permit : Option Permit) (now : ℕ) (r : Record)
    (a : ActiveTask)
    → task_of m id ≡ some (r, a)
    → (reserve_commit c m id permit now).0 ≡ none
    → check_permit c r permit commit ≡ none
unfolding reserve_commit
reserve_commit-permit c m id permit now r a e h =
    elim (Option-cases (check_permit c r permit commit)) [
      | inl p ↦ p
      | inr (x, p) ↦ absurd (ground arith)
    ]

-- Neither a reservation nor its refusal writes to the store or to the records.
commit_admission-store :
    (c : Codec) (m : Manager) (id : String) (r : Record) (a : ActiveTask) (permit : Option Permit)
    (now : ℕ)
    → ((commit_admission c m id r a permit now).1.store ≡ m.store)
      × ((commit_admission c m id r a permit now).1.records ≡ m.records)
unfolding commit_admission reserve_commit
commit_admission-store c m id r a permit now = (ground arith, ground arith)

commit_admission-permitted :
    (c : Codec) (m : Manager) (id : String) (r : Record) (a : ActiveTask) (permit : Option Permit)
    (now : ℕ)
    → task_of m id ≡ some (r, a)
    → (commit_admission c m id r a permit now).0 ≡ none
    → is_unbound r permit ≡ true ⊎ check_permit c r permit commit ≡ none
unfolding commit_admission
commit_admission-permitted c m id r a permit now e h = elim (Bool-cases (is_unbound r permit)) [
  | inl u ↦ inl u
  | inr u ↦ inr (reserve_commit-permit c m id permit now r a e (ground arith))
]

write_commit-ok :
    (c : Codec) (m : Manager) (id : String) (r : Record) (permit : Option Permit) (now : ℕ)
    → (write_commit c m id r permit now).0 ≡ none
    → ((write_commit c m id r permit now).1.records
        ≡ Dict.put m.records r.id (committing_record r now))
      × ((write_commit c m id r permit now).1.store.calls
          ≡ saved (committing_record r now) true ∷ m.store.calls)
unfolding write_commit
write_commit-ok c m id r permit now h =
    let s = save-ok c m (committing_record r now) in (ground (arith, s), ground (arith, s))

-- A commit that begins without an error: its task is active and a verified upload whose
-- temporary file is its own; the call is without any authorization on a task without one, or its
-- permit is valid for a commit; and the task's record is committing, in memory and in the journal,
-- as the last call that the store was given.
pub begin_commit-Commits :
    (c : Codec) (m : Manager) (id : String) (permit : Option Permit) (clock : Clock)
    → (begin_commit c m id permit clock).0 ≡ none
    → (r : Record) × (a : ActiveTask) × (task_of m id ≡ some (r, a))
      × Commits c m id permit clock r (begin_commit c m id permit clock).1
unfolding begin_commit
begin_commit-Commits c m id permit clock h = elim (Option-cases (task_of m id)) [
  | inl e ↦ absurd (ground arith)
  | inr ((r, a), e) ↦
      let admitted = commit_admission c m id r a permit (clock 0) in
      let written = write_commit c admitted.1 id r permit (clock 1) in
      let good : is_committable r ≡ true = ground arith in
      let fine : admitted.0 ≡ none = ground arith in
      let same : begin_commit c m id permit clock ≡ written = ground arith in
      let kept = commit_admission-store c m id r a permit (clock 0) in
      let w = write_commit-ok c admitted.1 id r permit (clock 1) (ground arith) in
      (
        r,
        a,
        e,
        record {
          committable = good;
          permitted = commit_admission-permitted c m id r a permit (clock 0) e fine;
          records =
              ap (λ t. t.1.records) same
              ∙ w.0
              ∙ ap (λ rs. Dict.put rs r.id (committing_record r (clock 1))) kept.1;
          journal =
              ap (λ t. t.1.store.calls) same
              ∙ w.1
              ∙ ap (λ s. saved (committing_record r (clock 1)) true ∷ s.calls) kept.0;
        },
      )
]

pub settle-get :
    (c : Codec) (m : Manager) (id : String) (r : Record) (a : ActiveTask)
    → Dict.get (settle c m id r a).1.records id ≡ some r
unfolding settle
settle-get c m id r a = get-put_own (save c m r).1.records id r id refl

any-get :
    (p : Record → Bool) (rs : Dict String Record) (id : String) (r : Record)
    → Dict.get rs id ≡ some r
    → p r ≡ true
    → any (λ e. p e.1) rs ≡ true
unfolding Dict.get
any-get p [] id r h k = ground arith
any-get p ((j, q) ∷ rs) id r h k = ground (arith, any-get p rs id r)

blocks-path :
    (rs : Dict String Record) (j : String) (u : Record) (spec : Spec)
    → Dict.get rs j ≡ some u
    → u.state ≡ unknown
    → u.resolved ≡ false
    → spec.direction ≡ upload
    → spec.target_id ≡ u.spec.target_id
    → spec.remote_path ≡ u.spec.remote_path
    → path_blocked rs spec ≡ true
unfolding path_blocked blocks state_beq direction_beq
blocks-path rs j u spec g s z d t p =
    let blocked : blocks spec u ≡ true =
      rw t (rw p (ground (arith, ==_refl u.spec.target_id, ==_refl u.spec.remote_path))) in
    let found = any-get (blocks spec) rs j u g blocked in ground arith

-- A claim of an upload to a path whose last commit is uncertain is never granted.
pub claim-blocked :
    (c : Codec) (m : Manager) (ctx : Option Context) (id token : String) (permit : Option Permit)
    (clock : Clock) (j : String) (u r : Record)
    → Dict.get m.records j ≡ some u
    → u.state ≡ unknown
    → u.resolved ≡ false
    → Dict.get m.records id ≡ some r
    → r.spec.target_id ≡ u.spec.target_id
    → r.spec.remote_path ≡ u.spec.remote_path
    → (e : Error) × ((claim c m ctx id token upload permit clock).0 ≡ err e)
claim-blocked c m ctx id token permit clock j u r g s z h t p =
    elim (Result-cases (claim c m ctx id token upload permit clock).0) [
      | inl (e, x) ↦ (e, x)
      | inr (l, x) ↦
          let (_, _, (r', y, d, _, _, starts)) =
            claim-Starts c m ctx id token upload permit clock l x in
          let h' = authenticate-get c m id token (clock 0) r' y in
          let same : r' ≡ r = ground arith in
          let blocked =
            blocks-path m.records j u r'.spec g s z d (ap (λ q. q.spec.target_id) same ∙ t)
              (ap (λ q. q.spec.remote_path) same ∙ p) in
          absurd (ground (arith, starts.free_path, blocked))
    ]
