-- ===== src/Transfer/Cancels.antt =====
-- core/mcp/transfer/lease.go: cancellation and shutting down beside a commit.
use xops_cli.Base.{
  ==_refl, ==→eq, Bool-cases, Option, Option-cases, String, [], ap, arith, inl, inr, map,
  ne→==_false, none, refl, some, sym, true, ℕ, ◌∙◌, ◌∷◌, ◌≡◌, ◌≢◌, nat_eq, string_eq, text_eq,
}
use xops_cli.Base.Dict
use xops_cli.Base.Dict.{Dict}
use xops_cli.Ports.{err, not_found, Permit, commit}
use xops_cli.Transfer.Record.{state_eq, Record, Codec, check_permit}
use xops_cli.Transfer.Manager.{lookup, Manager, ActiveTask}
use xops_cli.Transfer.Commit.{task_of, is_committable, reserve_commit, put_task}
use xops_cli.Transfer.Control.{cancel, begin_shutdown, shut_task}

get-map :
    (f : String × ActiveTask → String × ActiveTask)
    → ((t : String × ActiveTask) → (f t).0 ≡ t.0)
    → (ts : Dict String ActiveTask) (id : String)
    → Dict.get (map f ts) id ≡ elim (Dict.get ts id) [ none ↦ none | some a ↦ some (f (id, a)).1 ]
unfolding Dict.get
get-map f k [] id = refl
get-map f k ((j, a) ∷ ts) id = ground (arith, k (j, a), ==→eq j id, get-map f k ts id)

task_of-put :
    (m : Manager) (id : String) (r : Record) (a b : ActiveTask)
    → task_of m id ≡ some (r, a)
    → task_of (put_task m id b) id ≡ some (r, b)
unfolding task_of
task_of-put m id r a b h = ground (arith, Dict.get-put m.active id b id, ==_refl id)

task_of-shut :
    (m : Manager) (id : String) (r : Record) (a : ActiveTask)
    → task_of m id ≡ some (r, a)
    → a.commit_reserved ≡ true
    → task_of (begin_shutdown m) id ≡ some (r, a)
unfolding task_of begin_shutdown shut_task
task_of-shut m id r a h k =
    ground (arith, get-map (shut_task m.records) (λ t. ground arith) m.active id)

-- A task whose commit is reserved, and which may be committed with the permit.
record Reserved (c : Codec) (m : Manager) (id : String) (permit : Option Permit) (r : Record)
    (a : ActiveTask) : Type 0 where
  found : task_of m id ≡ some (r, a)
  reserved : a.commit_reserved ≡ true
  committable : is_committable r ≡ true
  permitted : check_permit c r permit commit ≡ none

reserve_commit-Reserved :
    (c : Codec) (m : Manager) (id : String) (permit : Option Permit) (now : ℕ)
    → (reserve_commit c m id permit now).0 ≡ none
    → (r : Record) × (a : ActiveTask) × Reserved c
        (reserve_commit c m id permit now).1
        id
        permit
        r
        a
unfolding reserve_commit
reserve_commit-Reserved c m id permit now h = elim (Option-cases (task_of m id)) [
  | inl e ↦ absurd (ground arith)
  | inr ((r, a), e) ↦
      let permitted : check_permit c r permit commit ≡ none =
        elim (Option-cases (check_permit c r permit commit)) [
          | inl p ↦ p
          | inr (x, p) ↦ absurd (ground arith)
        ] in
      let good : is_committable r ≡ true = ground arith in
      elim (Bool-cases a.commit_reserved) [
        | inl k ↦
            let same : (reserve_commit c m id permit now).1 ≡ m = ground arith in
            (
              r,
              a,
              record {
                found = ap (λ n. task_of n id) same ∙ e;
                reserved = k;
                committable = good;
                permitted = permitted;
              },
            )
        | inr k ↦
            let b = record a { commit_reserved = true } in
            let same : (reserve_commit c m id permit now).1 ≡ put_task m id b = ground arith in
            (
              r,
              b,
              record {
                found = ap (λ n. task_of n id) same ∙ task_of-put m id r a b e;
                reserved = refl;
                committable = good;
                permitted = permitted;
              },
            )
      ]
]

-- Once a commit is reserved, a shutdown that begins does not take the reservation back, nor
-- cancel the task's context: to reserve it again, at any time, succeeds and changes nothing, and
-- the task that is found is the one before the shutdown.
pub reserve_commit-begin_shutdown :
    (c : Codec) (m : Manager) (id : String) (permit : Option Permit) (now later : ℕ)
    → (reserve_commit c m id permit now).0 ≡ none
    → (task_of (begin_shutdown (reserve_commit c m id permit now).1) id
        ≡ task_of (reserve_commit c m id permit now).1 id)
      × (reserve_commit c (begin_shutdown (reserve_commit c m id permit now).1) id permit later
          ≡ (none, begin_shutdown (reserve_commit c m id permit now).1))
unfolding reserve_commit
reserve_commit-begin_shutdown c m id permit now later h =
    let m1 = (reserve_commit c m id permit now).1 in
    let (r, a, s) = reserve_commit-Reserved c m id permit now h in
    let found = task_of-shut m1 id r a s.found s.reserved in
    (
      found ∙ sym s.found,
      rw (found, reserve_commit) (ground (arith, s.reserved, s.committable, s.permitted)),
    )

-- To a caller of another scope, a task is as one that there is not: a lookup and a cancellation
-- answer that it is not found, as they do where no record has this identity, and the cancellation
-- changes nothing.
pub hidden_from_scope :
    (c : Codec) (m : Manager) (scope id : String) (now : ℕ)
    → ((r : Record) → Dict.get m.records id ≡ some r → r.spec.scope ≢ scope)
    → (lookup m scope id now ≡ err not_found) × (cancel c m scope id now ≡ (some not_found, m))
unfolding lookup cancel
hidden_from_scope c m scope id now other = elim (Option-cases (Dict.get m.records id)) [
  | inl e ↦ (rw (e, lookup) refl, rw (e, cancel) refl)
  | inr (r, e) ↦
      let ne = ne→==_false r.spec.scope scope (other r e) in
      (rw (e, lookup) (ground (arith, ne)), rw (e, cancel) (ground (arith, ne)))
]
