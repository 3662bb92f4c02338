-- ===== src/Transfer/Claims.antt =====
-- core/mcp/transfer/lease.go: what a successful claim shows, and claims after it.
use xops_cli.Base.{
  Bool-cases, ◌⊎◌, ==_refl, ==→eq, Option, Option-cases, String, arith, false, inl, inr, none, some,
  subst, sym, true, ℕ, ◌<◌, ◌∷◌, ◌≡◌, nat_eq, string_eq, text_eq,
}
use xops_cli.Base.Dict
use xops_cli.Base.Dict.{Dict}
use xops_cli.Ports.{ok, Context, Permit, transfer_start}
use xops_cli.Transfer.Record.{
  Direction, direction_eq, ready, transferring, state_eq, Record, Codec, check_permit,
}
use xops_cli.Transfer.Manager.{
  Manager, Clock, saved, save, mutation_allowed, authenticate, path_blocked,
}
use xops_cli.Transfer.Lease.{
  Lease, claim, start_task, refuses_claim, is_unbound, has_capacity, new_active_task, caller_error,
}
use xops_cli.Transfer.Calls
use xops_cli.Transfer.Calls.{Result-cases, refuses_claim-ready}

-- The record that a claim writes
abbrev pub started : Record → ℕ → Record
started r now = record r { state = transferring; updated_at = now }

-- The parts of a task's start that succeeds
pub record Starts (c : Codec) (m : Manager) (id : String) (r : Record) (permit : Option Permit)
    (m' : Manager) (clock : Clock) : Type 0 where
  pub in_time : clock 1 < r.start_before
  pub free_path : path_blocked m.records r.spec ≡ false
  pub capacity : has_capacity m r.spec ≡ true
  pub records : m'.records ≡ Dict.put m.records r.id (started r (clock 2))
  pub active : m'.active ≡ Dict.put m.active id (new_active_task m permit (clock 3))
  pub journal : m'.store.calls ≡ saved (started r (clock 2)) true ∷ m.store.calls

pub save-ok :
    (c : Codec) (m : Manager) (r : Record)
    → (save c m r).0 ≡ none
    → ((save c m r).1.records ≡ Dict.put m.records r.id r)
      × ((save c m r).1.store.calls ≡ saved r true ∷ m.store.calls)
      × ((save c m r).1.active ≡ m.active)
unfolding save
save-ok c m r h = (ground arith, ground arith, ground arith)

start_task-Starts :
    (c : Codec) (m : Manager) (id : String) (r : Record) (permit : Option Permit) (clock : Clock)
    (l : Lease)
    → (start_task c m id r permit clock).0 ≡ ok l
    → Starts c m id r permit (start_task c m id r permit clock).1 clock
unfolding start_task
start_task-Starts c m id r permit clock l h =
    let s = save-ok c m (started r (clock 2)) in
    record {
      in_time = ground arith;
      free_path = ground arith;
      capacity = ground arith;
      records = ground (arith, s);
      active = ground (arith, s);
      journal = ground (arith, s);
    }

refuses_claim-permitted :
    (c : Codec) (r : Record) (d : Direction) (permit : Option Permit)
    → refuses_claim c r d permit ≡ none
    → is_unbound r permit ≡ true ⊎ check_permit c r permit transfer_start ≡ none
unfolding refuses_claim
refuses_claim-permitted c r d permit h = elim (Bool-cases (is_unbound r permit)) [
  | inl u ↦ inl u
  | inr u ↦ elim (Option-cases (check_permit c r permit transfer_start)) [
    | inl k ↦ inr k
    | inr (e, k) ↦ absurd (ground (arith, u, k, h))
  ]
]

refuses_claim-direction :
    (c : Codec) (r : Record) (d : Direction) (permit : Option Permit)
    → refuses_claim c r d permit ≡ none
    → r.spec.direction ≡ d
unfolding refuses_claim
refuses_claim-direction c r d permit h = ground (arith, ==→eq r.spec.direction d)

-- Where a claim succeeds, the caller's context is not done, the manager takes work, the credential
-- is the task's and current, the task has the claim's direction and was ready, and the permit is
-- one for the start of transfers that fits the task, or the task is bound to no authorization and
-- none was given. It starts in time, not on a path whose last commit is uncertain, and within the
-- limits; then its record is transferring, its task active, and that record the last that the store
-- was given and saved.
pub claim-Starts :
    (c : Codec) (m : Manager) (ctx : Option Context) (id token : String) (d : Direction)
    (permit : Option Permit) (clock : Clock) (l : Lease)
    → (claim c m ctx id token d permit clock).0 ≡ ok l
    → (caller_error ctx ≡ none)
      × (mutation_allowed m ≡ none)
      × ((r : Record) × (authenticate c m id token (clock 0) ≡ ok r)
          × (r.spec.direction ≡ d)
          × (r.state ≡ ready)
          × (is_unbound r permit ≡ true ⊎ check_permit c r permit transfer_start ≡ none)
          × Starts c m id r permit (claim c m ctx id token d permit clock).1 clock)
unfolding claim
claim-Starts c m ctx id token d permit clock l h = elim (Option-cases (caller_error ctx)) [
  | inr (e, x) ↦ absurd (ground arith)
  | inl x ↦ elim (Option-cases (mutation_allowed m)) [
    | inr (e, y) ↦ absurd (ground arith)
    | inl y ↦ elim (Result-cases (authenticate c m id token (clock 0))) [
      | inl (e, z) ↦ absurd (ground arith)
      | inr (r, z) ↦ elim (Option-cases (refuses_claim c r d permit)) [
        | inr (e, w) ↦ absurd (ground arith)
        | inl w ↦
            let same : claim c m ctx id token d permit clock ≡ start_task c m id r permit clock =
              ground arith in
            (
              x,
              y,
              (
                r,
                z,
                refuses_claim-direction c r d permit w,
                refuses_claim-ready c r d permit w,
                refuses_claim-permitted c r d permit w,
                subst (λ t. Starts c m id r permit t.1 clock) (sym same)
                    (start_task-Starts c m id r permit clock l (ground arith)),
              ),
            )
      ]
    ]
  ]
]

pub get-put_own :
    (rs : Dict String Record) (i : String) (r : Record) (id : String)
    → i ≡ id
    → Dict.get (Dict.put rs i r) id ≡ some r
get-put_own rs i r id h = ground (arith, Dict.get-put rs i r id, h, ==_refl id)
