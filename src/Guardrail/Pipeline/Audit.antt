-- ===== src/Guardrail/Pipeline/Audit.antt =====
-- core/mcp/guardrail/audit.go, context.go and guardrail.go: audit entries and where they go.
use xops_cli.Base.{
  true, Bool, List, Option, String, [], codes, false, has_prefix, if◌then◌else◌, none, some, ◌++◌,
  ◌==◌, ◌∷◌, nat_eq, string_eq, text_eq,
}
use xops_cli.Guardrail.Risk.{RiskLevel, safe, moderate, dangerous}
use xops_cli.Guardrail.Policy.{
  Config, default_guardrail_config, Decision, allow, need_approval, deny,
}
use xops_cli.Guardrail.Approval.Answers.{ApprovalError}

unfoldable pub risk_string : RiskLevel → String
risk_string safe = "safe"
risk_string moderate = "moderate"
risk_string dangerous = "dangerous"

unfoldable pub decision_string : Decision → String
decision_string allow = "allow"
decision_string need_approval = "need_approval"
decision_string deny = "deny"

-- What an entry says of an error: the approval's, or that the handler has failed
pub data Cause : Type 0 where
  by_approval : ApprovalError → Cause
  by_handler : Cause

-- An entry, less its time stamp and its details
pub record AuditEntry : Type 0 where
  pub operation_id : String
  pub tool : String
  pub node_id : String
  pub node_ids : List String
  pub command : String
  pub paths : List String
  pub risk_level : String
  pub decision : String
  pub outcome : String
  pub error : Option Cause
  pub binding : String

-- The AuditWriters: AuditLogger with its path, nil included, or one of the host's
pub data Writer : Type 0 where
  file_logger : Option String → Writer
  other_writer : Writer

-- The policy, the fallback, whether there is a sink, and the writer
pub record Guardrail : Type 0 where
  pub policy : Config
  pub no_elicit_fallback : String
  pub sink : Bool
  pub writer : Option Writer

abbrev or_downgrade : String → String
or_downgrade fallback = if fallback == "" then "downgrade" else fallback

unfoldable pub new_guardrail : Option Config → Guardrail
new_guardrail cfg =
    let config : Config = elim cfg [ none ↦ default_guardrail_config | some c ↦ c ] in
    record {
      policy = config;
      no_elicit_fallback = or_downgrade config.no_elicit_fallback;
      sink = false;
      writer = some (file_logger (some config.audit_log));
    }

unfoldable pub new_with_audit_sink : Option Config → Guardrail
unfolding new_guardrail
new_with_audit_sink cfg = record (new_guardrail cfg) { sink = true }

unfoldable pub set_audit_writer : Option Writer → Guardrail → Guardrail
set_audit_writer w g = record g { sink = false; writer = w }

-- The policy, the fallback and the binding of one invocation
unfoldable pub invocation : Guardrail → Option (Config × String) → Config × String × String
invocation g none = (g.policy, g.no_elicit_fallback, "")
invocation g (some (cfg, binding)) = (cfg, or_downgrade cfg.no_elicit_fallback, binding)

-- What the host's sink, writer or file system answers to an entry after those that it has taken:
-- whether it takes it.
abbrev pub Append : Type 0
Append = List AuditEntry → AuditEntry → Bool

unfoldable pub take_entry : Append → List AuditEntry → AuditEntry → Option (List AuditEntry)
take_entry append entries e = if append entries e then some (entries ++ e ∷ []) else none

-- AuditLogger.Log and the Log of another writer: the entries taken then, or none for an error
unfoldable pub write_entry :
    Append → Writer → List AuditEntry → AuditEntry → Option (List AuditEntry)
unfolding take_entry has_prefix
write_entry append (file_logger none) entries e = some entries
write_entry append (file_logger (some path)) entries e =
    if path == ""
    then some entries
    else if has_prefix (codes path) (codes "~/")
    then none
    else take_entry append entries e
write_entry append other_writer entries e = take_entry append entries e

-- log, where the context is done or not
unfoldable pub log :
    Append
    → Guardrail
    → Option (Config × String)
    → Bool
    → List AuditEntry
    → AuditEntry
    → Option (List AuditEntry)
unfolding write_entry invocation take_entry
log append g scope done entries e =
    let bound = record e { binding = (invocation g scope).2 } in
    if done
    then none
    else if g.sink
    then take_entry append entries bound
    else elim g.writer [ none ↦ none | some w ↦ write_entry append w entries bound ]
