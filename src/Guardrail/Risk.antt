-- ===== src/Guardrail/Risk.antt =====
-- core/mcp/guardrail/risk.go: the risk levels, the input of an assessment, and what the Go
-- packages regexp, path/filepath, net/netip and unicode answer.
use xops_cli.Base.{Bool, List, Option, String, if◌then◌else◌, ℕ, ◌==◌, nat_eq, string_eq, text_eq}

pub data RiskLevel : Type 0 where
  safe moderate dangerous : RiskLevel

-- The level's number: Go orders them by it.
unfoldable pub rank : RiskLevel → ℕ
rank safe = 0
rank moderate = 1
rank dangerous = 2

unfoldable pub parse_risk_level : String → RiskLevel
parse_risk_level s =
    if s == "safe"
    then safe
    else if s == "moderate"
    then moderate
    else if s == "dangerous"
    then dangerous
    else dangerous

-- The execution settings of a call, of which only the launch dialect matters here.
pub record RiskInput : Type 0 where
  pub tool_name : String
  pub action : String
  pub node_id : String
  pub node_ids : List String
  pub command : String
  pub text : String
  pub paths : List String
  pub sudo : Bool
  pub tunnel_mode : String
  pub listen_host : String
  pub launch_dialect : Option String
  pub dialect : String

-- Answers of code outside the repository: whether a regular expression matches a text, whether
-- a shell glob does (`none` is a malformed glob), whether a host is an IP literal of the
-- loopback range, and the lower case of a character.
pub record Platform : Type 0 where
  pub regexp_match : String → List ℕ → Bool
  pub glob_match : String → String → Option Bool
  pub is_loopback : String → Bool
  pub to_lower : ℕ → ℕ
