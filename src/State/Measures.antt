-- ===== src/State/Measures.antt =====
-- core/mcp/state/coordinator.go: how many registrations a list holds.
use xops_cli.Base.{
  Bool-cases, List, [], arith, inl, inr, length, some, ℕ, ◌<◌, ◌≤◌, ◌==◌, ◌≡◌, ◌∷◌, nat_eq,
}
use xops_cli.State.Coordinator.{Registration, find_registration, remove_registration}

pub length-remove :
    (rs : List Registration) (id : ℕ) → length (remove_registration rs id) ≤ length rs
unfolding remove_registration
length-remove [] id = omega arith
length-remove (r ∷ rs) id = ground (arith, length-remove rs id)

pub length-remove_found :
    (rs : List Registration) (id : ℕ) (r : Registration)
    → find_registration rs id ≡ some r
    → length (remove_registration rs id) < length rs
unfolding remove_registration find_registration
length-remove_found [] id r h = absurd (ground arith)
length-remove_found (s ∷ rs) id r h = elim (Bool-cases (s.id == id)) [
  | inl e ↦ rw e (omega (arith, length-remove rs id))
  | inr e ↦ rw e (omega (arith, length-remove_found rs id r (rw e at h)))
]
