-- ===== src/Transfer/Restart.antt =====
-- core/mcp/transfer/manager.go: the records of a manager that has started.
use xops_cli.Base.{
  Bool, Bool-cases, List, Option, Option-cases, String, [], ap, arith, false, if◌then◌else◌, inl,
  inr, none, some, subst, sym, true, ℕ, ◌+◌, ◌==◌, ◌∙◌, ◌∷◌, ◌≡◌, nat_eq, string_eq, text_eq,
}
use xops_cli.Base.Dict
use xops_cli.Base.Dict.{Dict}
use xops_cli.Ports.{Result, ok, Context}
use xops_cli.Transfer.Record.{
  State, ready, transferring, verifying, committing, state_eq, Record, Codec,
}
use xops_cli.Transfer.Manager.{Limits, Manager, Clock, Store}
use xops_cli.Transfer.Calls.{Result-cases}
use xops_cli.Transfer.Control.{
  recovered, save_recovered, recover_record, recover_records, empty_manager, new_manager,
}

-- No task waits, runs or commits.
unfoldable pub is_settled : State → Bool
is_settled ready = false
is_settled transferring = false
is_settled verifying = false
is_settled committing = false
is_settled other = true

abbrev pub AllSettled : Dict String Record → Type 0
AllSettled rs = (id : String) (r : Record) → Dict.get rs id ≡ some r → is_settled r.state ≡ true

recovered-settled : (r : Record) (now : ℕ) → is_settled (recovered r now).state ≡ true
unfolding recovered is_settled
recovered-settled r now = ground arith

save_recovered-state :
    (c : Codec) (m : Manager) (r q : Record)
    → (save_recovered c m r).0 ≡ ok q
    → (q.state ≡ r.state) × ((save_recovered c m r).1.records ≡ m.records)
unfolding save_recovered
save_recovered-state c m r q h = (ground arith, ground arith)

put-AllSettled :
    (rs : Dict String Record) (id : String) (q : Record)
    → AllSettled rs
    → is_settled q.state ≡ true
    → AllSettled (Dict.put rs id q)
put-AllSettled rs id q a s j r h = ground (arith, Dict.get-put rs id q j, a j r)

reclassified-settled :
    (c : Codec) (m : Manager) (r q : Record) (now : ℕ)
    → (if (recovered r now).state == r.state
        then (ok (recovered r now), m)
        else save_recovered c m (recovered r now)).0
      ≡ ok q
    → (is_settled q.state ≡ true)
      × ((if (recovered r now).state == r.state
            then (ok (recovered r now), m)
            else save_recovered c m (recovered r now)).1.records
          ≡ m.records)
reclassified-settled c m r q now h =
    let s = recovered-settled r now in
    let t = save_recovered-state c m (recovered r now) q in
    elim (Bool-cases ((recovered r now).state == r.state)) [
      | inl e ↦ (ground (arith, s), ground arith)
      | inr e ↦ (ground (arith, s, t), ground (arith, t))
    ]

recover_record-AllSettled :
    (c : Codec) (m : Manager) (r : Record) (now : ℕ)
    → AllSettled m.records
    → (recover_record c m r now).0 ≡ none
    → AllSettled (recover_record c m r now).1.records
unfolding recover_record
recover_record-AllSettled c m r now a h =
    let p : Result Record × Manager =
      if (recovered r now).state == r.state
      then (ok (recovered r now), m)
      else save_recovered c m (recovered r now) in
    elim (Result-cases p.0) [
      | inl (e, x) ↦ absurd (ground arith)
      | inr (q, x) ↦
          let (s, kept) = reclassified-settled c m r q now x in
          let same : (recover_record c m r now).1.records ≡ Dict.put p.1.records r.id q =
            ground arith in
          subst AllSettled (sym (same ∙ ap (λ rs. Dict.put rs r.id q) kept))
            (put-AllSettled m.records r.id q a s)
    ]

recover_records-AllSettled :
    (c : Codec) (m : Manager) (rs : List Record) (clock : Clock)
    → AllSettled m.records
    → (recover_records c m rs clock).0 ≡ none
    → AllSettled (recover_records c m rs clock).1.records
unfolding recover_records
recover_records-AllSettled c m [] clock a h = a
recover_records-AllSettled c m (r ∷ rs) clock a h =
    let first = recover_record-AllSettled c m r (clock 0) a in
    elim (Option-cases (recover_record c m r (clock 0)).0) [
      | inr (e, x) ↦ absurd (ground arith)
      | inl x ↦
          let rest =
            recover_records-AllSettled c (recover_record c m r (clock 0)).1 rs (λ n. clock (n + 1))
              (first x) in
          let same : recover_records c m (r ∷ rs) clock
              ≡ recover_records c (recover_record c m r (clock 0)).1 rs (λ n. clock (n + 1)) =
            ground arith in
          subst (λ t. AllSettled t.1.records) (sym same) (rest (ap (λ t. t.0) (sym same) ∙ h))
    ]

empty-AllSettled :
    (limits : Limits) (store : Store) → AllSettled (empty_manager limits store).records
unfolding empty_manager Dict.get
empty-AllSettled limits store id r h = absurd (ground arith)

-- In a manager that has started, whatever the journal held, no task waits, runs or commits.
pub new_manager-settled :
    (c : Codec) (ctx : Option Context) (limits : Limits) (store : Store)
    (loaded : Option (List Record)) (clock : Clock) (m : Manager) (id : String) (r : Record)
    → new_manager c ctx limits store loaded clock ≡ ok m
    → Dict.get m.records id ≡ some r
    → is_settled r.state ≡ true
unfolding new_manager
new_manager-settled c none limits store loaded clock m id r h g = absurd (ground arith)
new_manager-settled c (some ctx) limits store none clock m id r h g = absurd (ground arith)
new_manager-settled c (some ctx) limits store (some rs) clock m id r h g =
    let out = recover_records c (empty_manager limits store) rs clock in
    elim (Option-cases out.0) [
      | inr (e, x) ↦ absurd (ground arith)
      | inl x ↦
          let same : out.1 ≡ m = ground arith in
          subst (λ n. AllSettled n.records) same
            (recover_records-AllSettled c (empty_manager limits store) rs clock
              (empty-AllSettled limits store) x)
            id r g
    ]
