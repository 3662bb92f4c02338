-- ===== src/State/Registrations.antt =====
-- core/mcp/state: the registrations that are left in a list of them.
use xops_cli.Base.{
  Bool-cases, true, contains, ==_refl, In, In-map, List, Option-cases, [], arith, false, here, inl,
  inr, map, none, some, there, ℕ, ◌!=◌, ◌&&◌, ◌==◌, ==→eq, ◌≡◌, ◌∷◌, nat_eq, subst, sym, ◌≢◌,
  string_eq,
}
use xops_cli.Ports.{Error, canceled, commit, phase_eq}
use xops_cli.State.Changes.{Change}
use xops_cli.State.Coordinator.{Registration, find_registration, remove_registration}
use xops_cli.State.Updates.{end_context, cancel_entry, collected, revokes}
use xops_cli.State.History.{end_registration}

pub find_registration-id :
    (rs : List Registration) (id : ℕ) (r : Registration)
    → find_registration rs id ≡ some r
    → r.id ≡ id
unfolding find_registration
find_registration-id [] id r h = absurd (ground arith)
find_registration-id (s ∷ rs) id r h = elim (Bool-cases (s.id == id)) [
  | inl e ↦ let found : s ≡ r = ground (arith, e) in rw (← found) (==→eq s.id id e)
  | inr e ↦ find_registration-id rs id r (rw e at h)
]

pub find_registration-In :
    (rs : List Registration) (id : ℕ) (r : Registration)
    → find_registration rs id ≡ some r
    → In r rs
unfolding find_registration
find_registration-In [] id r h = absurd (ground arith)
find_registration-In (s ∷ rs) id r h = elim (Bool-cases (s.id == id)) [
  | inl e ↦ let found : s ≡ r = ground (arith, e) in subst (λ x. In x (s ∷ rs)) found here
  | inr e ↦ there (find_registration-In rs id r (rw e at h))
]

either-In :
    (s : Registration) (left rs : List Registration) {r : Registration}
    → (In r left → In r rs)
    → In r (s ∷ left)
    → In r (s ∷ rs)
either-In s left rs f here = here
either-In s left rs f (there i) = there (f i)

pub remove_registration-In :
    (rs : List Registration) (id : ℕ) {r : Registration}
    → In r (remove_registration rs id)
    → In r rs
unfolding remove_registration
remove_registration-In [] id m = elim m [ ]
remove_registration-In (s ∷ rs) id m = elim (Bool-cases (s.id == id)) [
  | inl e ↦ there (remove_registration-In rs id (rw e at m))
  | inr e ↦
      either-In s (remove_registration rs id) rs (λ i. remove_registration-In rs id i) (rw e at m)
]

end_context-ended : (e : Error) (r : Registration) → (end_context e r).context ≢ none
end_context-ended e r n = elim (Option-cases r.context) [
  | inl f ↦ ground (arith, f, n)
  | inr (g, f) ↦ ground (arith, f, n)
]

-- A registration that is live has not been ended.
pub end_registration-In :
    (e : Error) (id : ℕ) (rs : List Registration) {r : Registration}
    → In r (map (end_registration e id) rs)
    → r.context ≡ none
    → In r rs
unfolding end_registration
end_registration-In e id rs {r} m n =
    let (s, i, f) = In-map (end_registration e id) rs m in
    elim (Bool-cases (s.id == id)) [
      | inl k ↦
          let g : end_context e s ≡ r = ground (arith, k, f) in
          absurd (end_context-ended e s (subst (λ x. x.context ≡ none) (sym g) n))
      | inr k ↦ let g : s ≡ r = ground (arith, k, f) in subst (λ x. In x rs) g i
    ]

-- One that is live after the cancels was live before, and is not among them.
pub cancel_entry-In :
    (cancels : List ℕ) (rs : List Registration) {r : Registration}
    → In r (map (cancel_entry cancels) rs)
    → r.context ≡ none
    → In r rs × (contains cancels r.id ≡ false)
unfolding cancel_entry
cancel_entry-In cancels rs {r} m n =
    let (s, i, f) = In-map (cancel_entry cancels) rs m in
    elim (Bool-cases (contains cancels s.id)) [
      | inl k ↦
          let g : end_context canceled s ≡ r = ground (arith, k, f) in
          absurd (end_context-ended canceled s (subst (λ x. x.context ≡ none) (sym g) n))
      | inr k ↦
          let g : s ≡ r = ground (arith, k, f) in
          (subst (λ x. In x rs) g i, subst (λ x. contains cancels x.id ≡ false) g k)
    ]

-- What a change revokes is collected.
pub collected-contains :
    (change : Change) (rs : List Registration) {r : Registration}
    → In r rs
    → (r.phase != commit && revokes change r) ≡ true
    → contains (collected change rs) r.id ≡ true
unfolding collected
collected-contains change [] m k = elim m [ ]
collected-contains change (s ∷ rs) here k = ground (arith, k, ==_refl s.id)
collected-contains change (s ∷ rs) {r} (there m) k =
    elim (Bool-cases (s.phase != commit && revokes change s)) [
      | inl e ↦ ground (arith, e, collected-contains change rs m k)
      | inr e ↦ ground (arith, e, collected-contains change rs m k)
    ]
