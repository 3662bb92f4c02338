-- ===== src/Guardrail/Classify.antt =====
-- core/mcp/guardrail/risk.go: the risk of a tool invocation.
use xops_cli.Base.{
  String, [], contains, if◌then◌else◌, ltb, none, some, ◌!=◌, ◌&&◌, ◌==◌, ◌||◌, ◌∷◌, nat_eq,
  string_eq, text_eq,
}
use xops_cli.Guardrail.Risk.{RiskLevel, safe, moderate, dangerous, rank, RiskInput, Platform}
use xops_cli.Guardrail.Analyzer.{analyze_command_with_dialect, analyze_paths}

-- The dialect that the analysis of a command goes by.
command_dialect : RiskInput → String
command_dialect input =
    if input.dialect == ""
    then elim input.launch_dialect [
      | none ↦ ""
      | some launch ↦ if launch == "" then "unknown" else launch
    ]
    else input.dialect

abbrev max_moderate : RiskLevel → RiskLevel
max_moderate base = if ltb (rank base) (rank moderate) then moderate else base

unfoldable pub classify_terminal : Platform → RiskInput → RiskLevel
unfolding command_dialect rank
classify_terminal p input =
    let persistent = input.action != "" && input.action != "once" && input.action != "poll" in
    let start = if input.command == "" && persistent then moderate else dangerous in
    let analyzed =
      if input.command != ""
      then analyze_command_with_dialect p input.command (command_dialect input)
      else start in
    if input.command == "" && input.action == "poll"
    then safe
    else if input.sudo || persistent
    then max_moderate analyzed
    else analyzed

unfoldable pub classify_file : String → RiskLevel
classify_file action =
    if action == "read" || action == "stat"
    then safe
    else if action == "write" || action == "patch"
    then moderate
    else dangerous

unfoldable pub classify_gui : RiskInput → RiskLevel
classify_gui input =
    if input.action == "shot" || input.action == "move"
    then safe
    else if contains ("click" ∷ "double_click" ∷ "right_click" ∷ "scroll" ∷ "drag" ∷ [])
        input.action
    then moderate
    else dangerous

unfoldable pub classify_transfer : String → RiskLevel
classify_transfer action =
    if contains ("pull" ∷ "prepare_pull" ∷ "status" ∷ "cancel" ∷ []) action
    then safe
    else if action == "push" || action == "prepare_push"
    then moderate
    else dangerous

unfoldable pub classify_tunnel : Platform → RiskInput → RiskLevel
classify_tunnel p input =
    if input.action == "list" || input.action == "status"
    then safe
    else if input.action == "stop"
    then moderate
    else if input.action == "create"
    then if input.tunnel_mode == "local" && p.is_loopback input.listen_host
      then moderate
      else dangerous
    else dangerous

unfoldable pub classify_base : Platform → RiskInput → RiskLevel
classify_base p input =
    if input.tool_name == "nodes"
    then safe
    else if input.tool_name == "terminal"
    then classify_terminal p input
    else if input.tool_name == "file"
    then classify_file input.action
    else if input.tool_name == "gui"
    then classify_gui input
    else if input.tool_name == "transfer"
    then classify_transfer input.action
    else if input.tool_name == "tunnel"
    then classify_tunnel p input
    else dangerous

unfoldable pub classify : Platform → RiskInput → RiskLevel
classify p input =
    let base = classify_base p input in
    let path_risk = analyze_paths p input.paths in
    if ltb (rank base) (rank path_risk) then path_risk else base
