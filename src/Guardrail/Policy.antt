-- ===== src/Guardrail/Policy.antt =====
-- core/mcp/guardrail/policy.go and core/mcp/policy: the decision on a classified invocation.
use xops_cli.Base.{
  ◌+◌, Bool, List, String, [], all, any, codes, false, has_prefix, if◌then◌else◌, leb, ltb, map,
  negate, none, path_clean, replace_char, some, true, ℕ, ◌!=◌, ◌&&◌, ◌++◌, ◌==◌, ◌||◌, ◌∷◌, nat_eq,
  string_eq, text_eq,
}
use xops_cli.Guardrail.Risk.{
  RiskLevel, safe, moderate, dangerous, rank, parse_risk_level, RiskInput, Platform,
}
use xops_cli.Guardrail.Analyzer.{is_blocked, sensitive_paths}

pub data Decision : Type 0 where
  allow need_approval deny : Decision

-- The node overrides pair a glob with a threshold. They are a map, which each range over it may
-- visit in another order: the number is that of the range within one evaluation.
pub record Config : Type 0 where
  pub enabled : Bool
  pub audit_log : String
  pub approval_threshold : String
  pub no_elicit_fallback : String
  pub blocked_globs : List String
  pub protected_paths : List String
  pub node_overrides : ℕ → List (String × String)

abbrev pub default_guardrail_config : Config
default_guardrail_config = record {
  enabled = true;
  audit_log = "";
  approval_threshold = "dangerous";
  no_elicit_fallback = "downgrade";
  blocked_globs = [];
  protected_paths = "/etc" ∷ "/boot" ∷ "/usr" ∷ "/sbin" ∷ "/root" ∷ [];
  node_overrides = λ range. [];
}

-- No glob of the list is malformed.
unfoldable pub validate_globs : Platform → List String → Bool
validate_globs p globs = all (λ g. elim (p.glob_match g "") [ none ↦ false | some m ↦ true ]) globs

unfoldable pub validate_config : Platform → Config → Bool
unfolding validate_globs
validate_config p cfg =
    validate_globs p cfg.blocked_globs && validate_globs p (map (λ o. o.0) (cfg.node_overrides 0))

unfoldable pub normalize_remote_path : String → List ℕ
normalize_remote_path value = path_clean (replace_char b'\\' b'/' (codes value))

unfoldable pub matches_under : String → String → Bool
matches_under target prefix =
    let t = normalize_remote_path target in
    let u = normalize_remote_path prefix in
    if t == u
    then true
    else if u == codes "/"
    then has_prefix t (codes "/")
    else has_prefix t (u ++ codes "/")

unfoldable pub is_path_protected : Config → List String → Bool
is_path_protected cfg paths =
    any (λ target. any (matches_under target) (sensitive_paths ++ cfg.protected_paths)) paths

override_threshold : Platform → String → RiskLevel → List (String × String) → RiskLevel
unfolding parse_risk_level
override_threshold p node fallback [] = fallback
override_threshold p node fallback ((glob, threshold) ∷ rest) =
    let later = override_threshold p node fallback rest in
    elim (p.glob_match glob node) [
      | none ↦ safe
      | some matched ↦ if matched then parse_risk_level threshold else later
    ]

unfoldable pub threshold_for_node : Platform → Config → ℕ → String → RiskLevel
unfolding override_threshold
threshold_for_node p cfg range node =
    if node == ""
    then parse_risk_level cfg.approval_threshold
    else override_threshold p node (parse_risk_level cfg.approval_threshold)
        (cfg.node_overrides range)

-- A glob that matches one of the texts, or is malformed.
unfoldable pub glob_denies : Platform → List String → String → Bool
glob_denies p candidates glob =
    any (λ text. elim (p.glob_match glob text) [ none ↦ true | some matched ↦ matched ]) candidates

-- The tests of Evaluate that deny.
unfoldable pub denied : Platform → Config → RiskInput → Bool
unfolding glob_denies
denied p cfg input =
    (input.tool_name == "terminal" && is_blocked p (codes input.command))
    || (input.text != "" && is_blocked p (codes input.text))
    || any (glob_denies p (input.command ∷ (if input.text != "" then input.text ∷ [] else [])))
        cfg.blocked_globs

-- The risk after the test for protected paths.
unfoldable pub effective_risk : Config → RiskLevel → RiskInput → RiskLevel
effective_risk cfg risk input =
    if is_path_protected cfg input.paths && ltb (rank risk) (rank dangerous) then moderate else risk

-- risk >= threshold
unfoldable pub reaches : RiskLevel → RiskLevel → Bool
reaches risk threshold = leb (rank threshold) (rank risk)

-- The nodes with the numbers of the ranges that look for their thresholds
abbrev pub visits : ℕ → List String → List (ℕ × String)
visits range [] = []
visits range (node ∷ nodes) = (range, node) ∷ visits (range + 1) nodes

unfoldable pub evaluate : Platform → Config → RiskLevel → RiskInput → Decision
evaluate p cfg risk input =
    let effective = effective_risk cfg risk input in
    if negate cfg.enabled
    then allow
    else if denied p cfg input
    then deny
    else if reaches effective (threshold_for_node p cfg 0 input.node_id)
    then need_approval
    else if any (λ v. reaches effective (threshold_for_node p cfg (v.0) (v.1)))
        (visits 1 input.node_ids)
    then need_approval
    else allow
