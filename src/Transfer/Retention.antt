-- ===== src/Transfer/Retention.antt =====
-- core/mcp/transfer/manager.go: the collection of expired records beside active tasks.
use xops_cli.Base.{
  Bool-cases, In, Option, Option-cases, String, [], ap, arith, here, if◌then◌else◌, inl, inr,
  ne→==_false, none, refl, sym, there, true, ℕ, ◌∙◌, ◌∷◌, ◌≡◌, ◌≢◌, nat_eq, string_eq, text_eq,
}
use xops_cli.Base.Dict
use xops_cli.Base.Dict.{Dict}
use xops_cli.Ports.{Error}
use xops_cli.Transfer.Record.{timed_out, state_eq, Record, Codec}
use xops_cli.Transfer.Manager.{Manager, save, request_key_eq}
use xops_cli.Transfer.Prepare.{discard_entry, collect_entry, collect_entries, collect}
use xops_cli.Transfer.Advances.{save-records}

-- The second manager has the first one's active tasks and its record of this identity.
record Spares (id : String) (m m' : Manager) : Type 0 where
  active : m'.active ≡ m.active
  kept : Dict.get m'.records id ≡ Dict.get m.records id

Spares-refl : (id : String) (m : Manager) → Spares id m m
Spares-refl id m = record { active = refl; kept = refl }

Spares-trans : (id : String) (a b c : Manager) → Spares id a b → Spares id b c → Spares id a c
Spares-trans id a b c p q = record { active = q.active ∙ p.active; kept = q.kept ∙ p.kept }

save-Spares :
    (c : Codec) (m : Manager) (r : Record) (id : String) → r.id ≢ id → Spares id m (save c m r).1
unfolding save
save-Spares c m r id ne = record {
  active = ground arith;
  kept =
      ground (arith, save-records c m r, Dict.get-put m.records r.id r id, ne→==_false r.id id ne);
}

discard_entry-Spares :
    (now : ℕ) (j : String) (r : Record) (m : Manager) (id : String)
    → j ≢ id
    → Spares id m (discard_entry now j r m).1
unfolding discard_entry
discard_entry-Spares now j r m id ne = record {
  active = ground arith;
  kept = ground (arith, Dict.get-delete m.records j id, ne→==_false j id ne);
}

collect_entry-Spares :
    (c : Codec) (now : ℕ) (j : String) (r : Record) (m : Manager) (id : String)
    → r.id ≡ j
    → j ≢ id
    → Spares id m (collect_entry c now j r m).1
unfolding collect_entry
collect_entry-Spares c now j r m id e ne =
    let late = record r { state = timed_out; updated_at = now } in
    let written = save-Spares c m late id (λ p. ne (sym e ∙ p)) in
    let dropped =
      Spares-trans id m (save c m late).1 _ written
        (discard_entry-Spares now j late (save c m late).1 id ne) in
    let skipped = discard_entry-Spares now j r m id ne in ground (arith, written, dropped, skipped)

-- The first part of a round: active tasks are skipped.
round-Spares :
    (c : Codec) (now : ℕ) (j : String) (r : Record) (m : Manager) (id : String)
    → r.id ≡ j
    → Dict.has m.active id ≡ true
    → Spares id m (if Dict.has m.active j then (none, m) else collect_entry c now j r m).1
round-Spares c now j r m id e act = elim (Bool-cases (Dict.has m.active j)) [
  | inl h ↦ rw h (Spares-refl id m)
  | inr h ↦ rw h (
      collect_entry-Spares c now j r m id e
        (λ p. ground (arith, h, act, ap (λ i. Dict.has m.active i) p)))
]

collect_entries-Spares :
    (c : Codec) (now : ℕ) (es : Dict String Record) (m : Manager) (id : String)
    → ((e : String × Record) → In e es → e.1.id ≡ e.0)
    → Dict.has m.active id ≡ true
    → Spares id m (collect_entries c now es m).1
unfolding collect_entries
collect_entries-Spares c now [] m id own act = Spares-refl id m
collect_entries-Spares c now ((j, r) ∷ es) m id own act =
    let step : Option Error × Manager =
      if Dict.has m.active j then (none, m) else collect_entry c now j r m in
    let first : Spares id m step.1 = round-Spares c now j r m id (own (j, r) here) act in
    let rest =
      collect_entries-Spares c now es step.1 id (λ e i. own e (there i))
        (ap (λ a. Dict.has a id) first.active ∙ act) in
    elim (Option-cases step.0) [
      | inl e ↦ rw (e, collect_entries) (Spares-trans id m step.1 _ first rest)
      | inr (x, e) ↦ rw (e, collect_entries) first
    ]

-- Where each record stands under its own identity, the collection of expired records leaves an
-- active task and its record as they are, whatever the time and whether or not the store answers:
-- it neither expires nor removes it.
pub collect-active :
    (c : Codec) (m : Manager) (now : ℕ) (id : String)
    → ((e : String × Record) → In e m.records → e.1.id ≡ e.0)
    → Dict.has m.active id ≡ true
    → ((collect c m now).1.active ≡ m.active)
      × (Dict.get (collect c m now).1.records id ≡ Dict.get m.records id)
unfolding collect
collect-active c m now id own act =
    let s = collect_entries-Spares c now m.records m id own act in (s.active, s.kept)
