-- ===== src/Guardrail/Checks.antt =====
-- The theorems on core/mcp/guardrail, at concrete calls.
use xops_cli.Guardrail.Policy.{normalize_remote_path}
use xops_cli.Guardrail.Risk.{parse_risk_level}
use xops_cli.Base.{
  ℕ, In, List, String, [], arith, codes, false, here, none, path_clean, refl, replace_char, some,
  true, ◌<◌, ◌==◌, ◌↔◌, ◌∷◌, ◌≡◌, ◌≢◌, ◌≤◌, nat_eq, string_eq, text_eq,
}
use xops_cli.Guardrail.Risk.{safe, rank, RiskInput, Platform}
use xops_cli.Guardrail.Policy.{
  allow, deny, Config, default_guardrail_config, evaluate, effective_risk, threshold_for_node,
}
use xops_cli.Guardrail.Decisions.{Denial, evaluate-deny_iff, evaluate-allow_iff}
use xops_cli.Guardrail.Caution.{protected_path_asks, IsAtOrBelow, below_it}

-- A platform whose expressions match nothing and whose globs match the same text
abbrev platform : Platform
platform = record {
  regexp_match = λ pattern s. false;
  glob_match = λ glob s. some (glob == s);
  is_loopback = λ host. host == "127.0.0.1";
  to_lower = λ c. c;
}

abbrev cautious : Config
cautious = record default_guardrail_config { approval_threshold = "moderate" }

abbrev call : RiskInput
call = record {
  tool_name = "terminal";
  action = "once";
  node_id = "web";
  node_ids = [];
  command = "ls";
  text = "";
  paths = "/srv/../etc/passwd" ∷ [];
  sudo = true;
  tunnel_mode = "";
  listen_host = "";
  launch_dialect = none;
  dialect = "posix";
}

evaluate-deny_iff_example :
    (evaluate platform cautious safe call ≡ deny) ↔ Denial platform cautious call
evaluate-deny_iff_example = evaluate-deny_iff platform cautious call safe refl

evaluate-allow_iff_example : (evaluate platform cautious safe call ≡ allow) ↔ (
    (¬ Denial platform cautious call)
    × ((range : ℕ) (node : String)
        → In {A = ℕ × String} (range, node) ((0, "web") ∷ [])
        → rank (effective_risk cautious safe call)
          < rank (threshold_for_node platform cautious range node)))
evaluate-allow_iff_example = evaluate-allow_iff platform cautious call safe refl

below_etc : IsAtOrBelow "/srv/../etc/passwd" "/etc"
unfolding normalize_remote_path path_clean replace_char
below_etc = below_it (codes "passwd") refl

low_threshold : rank (threshold_for_node platform cautious 0 "web") ≤ 1
unfolding rank threshold_for_node parse_risk_level
low_threshold = omega arith

protected_path_asks_example : evaluate platform cautious safe call ≢ allow
protected_path_asks_example =
    protected_path_asks platform cautious call safe "/srv/../etc/passwd" "/etc" refl here here
      below_etc low_threshold

abbrev paths : List String
paths = "/srv/app" ∷ "/etc/passwd" ∷ []
