-- ===== src/Guardrail/Caution.antt =====
-- How the policy of core/mcp/guardrail/policy.go follows the risk and the protected paths of a call.
use xops_cli.Base.{
  ==_refl, ==→eq, In, In-any, List, String, any, ap, arith, codes, has_prefix, has_prefix-append,
  refl, true, ℕ, ◌++◌, ◌==◌, ◌≡◌, ◌≢◌, ◌≤◌, nat_eq, string_eq, text_eq,
}
use xops_cli.Guardrail.Risk.{RiskLevel, rank, RiskInput, Platform}
use xops_cli.Guardrail.Analyzer.{sensitive_paths}
use xops_cli.Guardrail.Policy.{
  allow, Config, effective_risk, reaches, threshold_for_node, evaluate, is_path_protected,
  matches_under, normalize_remote_path,
}

-- The cleaned path is the cleaned guarded one, continues it after a slash, or is any absolute path
-- where the guarded one is the root.
pub data IsAtOrBelow (path guarded : String) : Type 0 where
  at_it : normalize_remote_path path ≡ normalize_remote_path guarded → IsAtOrBelow path guarded
  below_it :
      (rest : List ℕ)
      → normalize_remote_path path ≡ (normalize_remote_path guarded ++ codes "/") ++ rest
      → IsAtOrBelow path guarded
  below_slash :
      (rest : List ℕ)
      → normalize_remote_path guarded ≡ codes "/"
      → normalize_remote_path path ≡ codes "/" ++ rest
      → IsAtOrBelow path guarded

below_root :
    (t u rest : List ℕ)
    → t ≡ (u ++ codes "/") ++ rest
    → u ≡ codes "/"
    → has_prefix t (codes "/") ≡ true
unfolding has_prefix
below_root t u rest e r = rw (e, r) refl

IsAtOrBelow-matches_under :
    (path guarded : String) → IsAtOrBelow path guarded → matches_under path guarded ≡ true
unfolding matches_under
IsAtOrBelow-matches_under path guarded (at_it e) =
    ground (
      arith,
      ap (λ t. t == normalize_remote_path guarded) e,
      ==_refl (normalize_remote_path guarded),
    )
IsAtOrBelow-matches_under path guarded (below_it rest e) =
    let t = normalize_remote_path path in
    let u = normalize_remote_path guarded in
    ground (
      arith,
      below_root t u rest e,
      ==→eq u (codes "/"),
      ap (λ s. has_prefix s (u ++ codes "/")) e,
      has_prefix-append (u ++ codes "/") rest,
    )
IsAtOrBelow-matches_under path guarded (below_slash rest r e) =
    let t = normalize_remote_path path in
    let below : has_prefix t (codes "/") ≡ true = rw e (has_prefix-append (codes "/") rest) in
    ground (arith, below, ap (λ u. u == codes "/") r, ==_refl (codes "/"))

In-protected :
    (cfg : Config) (paths : List String) {path guarded : String}
    → In path paths
    → In guarded (sensitive_paths ++ cfg.protected_paths)
    → IsAtOrBelow path guarded
    → is_path_protected cfg paths ≡ true
unfolding is_path_protected
In-protected cfg paths {path} {guarded} m g u =
    In-any (λ t. any (matches_under t) (sensitive_paths ++ cfg.protected_paths)) m
      (In-any (matches_under path) g (IsAtOrBelow-matches_under path guarded u))

-- With the guardrail on, a call that names a path at or below a sensitive or protected one,
-- whatever dots and backslashes spell it, is not allowed without approval where the threshold
-- of its node is safe or moderate.
pub protected_path_asks :
    (p : Platform) (cfg : Config) (input : RiskInput) (risk : RiskLevel) (path guarded : String)
    → cfg.enabled ≡ true
    → In path input.paths
    → In guarded (sensitive_paths ++ cfg.protected_paths)
    → IsAtOrBelow path guarded
    → rank (threshold_for_node p cfg 0 input.node_id) ≤ 1
    → evaluate p cfg risk input ≢ allow
unfolding evaluate effective_risk reaches rank
protected_path_asks p cfg input risk path guarded on m g u t e =
    ground (arith, In-protected cfg input.paths m g u)
