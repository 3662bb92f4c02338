-- ===== src/Concurrent/Checks.antt =====
-- core/concurrent/concurrent_map.go: a map of two shards in use.
use xops_cli.Base.{List, [], arith, none, nat_eq, some, ℕ, ◌∷◌}
use xops_cli.Concurrent.Shards.{
  Op, apply_all, clear, look_up, set_all, new_map, on_key, pop, remove_if_match, set, set_if_absent,
  upsert,
}
use xops_cli.Concurrent.Refinement.{Implements, new_map-Implements}
use xops_cli.Concurrent.Steps.{spec_all}

abbrev calls : List (Op ℕ ℕ)
calls =
    on_key 1 (set 10)
    ∷ on_key 3 (set_if_absent 30)
    ∷ on_key 1 (upsert (λ old. 11))
    ∷ on_key 3 (remove_if_match 30)
    ∷ set_all ((1, 12) ∷ (2, 20) ∷ [])
    ∷ on_key 1 pop
    ∷ on_key 1 look_up
    ∷ clear
    ∷ []

new_map-Implements_example :
    Implements {K = ℕ} {V = ℕ}
      (λ k. k)
      (apply_all (λ k. k) (new_map (some 2)) calls)
      (spec_all (λ k. none) calls)
new_map-Implements_example = new_map-Implements (λ k. k) 2 calls (omega arith)
