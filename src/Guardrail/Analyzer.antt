-- ===== src/Guardrail/Analyzer.antt =====
-- core/mcp/guardrail/analyzer.go: the risk of a command and of the paths of a call.
use xops_cli.Base.{
  Bool, List, Option, String, [], all, any, codes, contains, contains_any, false, has_infix,
  has_prefix, if◌then◌else◌, leb, ltb, map, negate, none, path_clean, replace_char, some, split,
  trim_right, trim_space, true, ℕ, ◌!=◌, ◌&&◌, ◌++◌, ◌-◌, ◌==◌, ◌||◌, ◌∷◌, nat_eq, string_eq,
  text_eq,
}
use xops_cli.Guardrail.Risk.{RiskLevel, safe, moderate, dangerous, rank, Platform}

abbrev pub blocked_patterns : List String
blocked_patterns =
    "rm\\s+(-[^\\s]*\\s+)*/([\\s;|&]|$)" ∷ "mkfs(\\.\\w+)?\\s+" ∷ "dd\\s+.*if=/dev/"
    ∷ "dd\\s+.*of=/dev/" ∷ ">\\s*/dev/sd" ∷ ":\\(\\)\\s*\\{\\s*:\\|:\\s*&\\s*\\}\\s*;\\s*:"
    ∷ "chmod\\s+(-[^\\s]+\\s+)*777\\s+/($|\\s)" ∷ "echo\\s+.*>\\s*/proc/" ∷ []

abbrev pub dangerous_patterns : List String
dangerous_patterns =
    "rm\\s+(-[^\\s]*\\s+)*-?r" ∷ "\\b(shutdown|reboot|halt|poweroff|init\\s+[06])\\b"
    ∷ "\\bsystemctl\\s+(stop|disable|mask)\\b" ∷ "\\bkill\\s+-9\\b" ∷ "\\bkillall\\b"
    ∷ "\\biptables\\s+-F\\b" ∷ "\\bnft\\s+flush\\b" ∷ "\\bufw\\s+disable\\b" ∷ ">\\s*/etc/"
    ∷ "\\bchown\\s+(-[^\\s]+\\s+)*root\\b" ∷ "\\bcurl\\b.*\\|\\s*(ba)?sh"
    ∷ "\\bwget\\b.*\\|\\s*(ba)?sh" ∷ []

abbrev pub read_only_commands : List String
read_only_commands =
    "ls" ∷ "cat" ∷ "head" ∷ "tail" ∷ "whoami" ∷ "uname" ∷ "id" ∷ "df" ∷ "free" ∷ "uptime" ∷ "ps"
    ∷ "cal" ∷ "echo" ∷ "pwd" ∷ "which" ∷ "type" ∷ "wc" ∷ "stat" ∷ "grep" ∷ "netstat" ∷ []

unfoldable pub is_blocked : Platform → List ℕ → Bool
is_blocked p cmd = any (λ pat. p.regexp_match pat (trim_space cmd)) blocked_patterns

-- The loop of AnalyzeCommandWithDialect over the dangerous patterns.
unfoldable pub is_dangerous : Platform → List ℕ → Bool
is_dangerous p normalized = any (λ pat. p.regexp_match pat normalized) dangerous_patterns

unfoldable pub contains_chaining : List ℕ → Bool
contains_chaining cmd =
    contains_any cmd (codes "$`()<\n\r&")
    || any (λ sep. has_infix cmd (codes sep)) ("&&" ∷ "||" ∷ "|" ∷ ";" ∷ ">>" ∷ ">" ∷ [])

nonempty_words : List (List ℕ) → List (List ℕ)
nonempty_words [] = []
nonempty_words ([] ∷ ws) = nonempty_words ws
nonempty_words ((c ∷ w) ∷ ws) = (c ∷ w) ∷ nonempty_words ws

-- strings.FieldsFunc at blanks and tabs
unfoldable pub fields : List ℕ → List (List ℕ)
unfolding nonempty_words split replace_char
fields s = nonempty_words (split 32 (replace_char 9 32 s))

unfoldable pub is_systemctl_status_query : List (List ℕ) → Bool
is_systemctl_status_query [] = false
is_systemctl_status_query (verb ∷ arguments) =
    verb == codes "status"
    && all
        (λ a.
          negate (has_prefix a (codes "-"))
          || contains (map codes ("--no-pager" ∷ "--full" ∷ "-l" ∷ "--plain" ∷ [])) a)
        arguments

abbrev hostname_flags : List String
hostname_flags =
    "-f" ∷ "--fqdn" ∷ "-s" ∷ "--short" ∷ "-d" ∷ "--domain" ∷ "-i" ∷ "--ip-address" ∷ "-I"
    ∷ "--all-ip-addresses" ∷ []

-- The words of a command, the first one split off.
unfoldable pub is_read_only_words : List (List ℕ) → Bool
unfolding is_systemctl_status_query
is_read_only_words [] = false
is_read_only_words (name ∷ args) =
    if name == codes "hostname"
    then hostname_args args
    else if name == codes "date"
    then date_args args
    else if name == codes "ip"
    then ip_args args
    else if name == codes "systemctl"
    then is_systemctl_status_query args
    else contains (map codes read_only_commands) name
  where
    hostname_args : List (List ℕ) → Bool
    hostname_args [] = true
    hostname_args (a ∷ []) = contains (map codes hostname_flags) a
    hostname_args (a ∷ b ∷ rest) = false

    date_args : List (List ℕ) → Bool
    date_args [] = true
    date_args (a ∷ []) = has_prefix a (codes "+")
    date_args (a ∷ b ∷ rest) = false

    ip_args : List (List ℕ) → Bool
    ip_args [] = false
    ip_args (a ∷ []) = a == codes "addr" || a == codes "route"
    ip_args (a ∷ b ∷ []) = b == codes "show" && (a == codes "addr" || a == codes "route")
    ip_args (a ∷ b ∷ c ∷ rest) = false

unfoldable pub is_read_only_invocation : List ℕ → Bool
unfolding contains_any is_read_only_words fields
is_read_only_invocation command =
    if contains_any command (codes "\\'\"=*?[]{}!~#")
    then false
    else is_read_only_words (fields command)

unfoldable pub analyze_command_with_dialect : Platform → String → String → RiskLevel
analyze_command_with_dialect p cmd dialect =
    let normalized = trim_space (codes cmd) in
    if cmd == ""
    then safe
    else if is_blocked p normalized
    then dangerous
    else if is_dangerous p normalized
    then dangerous
    else if contains_chaining normalized
    then moderate
    else if dialect != "" && dialect != "posix"
    then moderate
    else if is_read_only_invocation (codes cmd)
    then safe
    else moderate

abbrev pub sensitive_paths : List String
sensitive_paths = "/etc" ∷ "/boot" ∷ "/usr" ∷ "/sbin" ∷ "/var/lib" ∷ "/root" ∷ "/proc" ∷ "/sys" ∷ []

abbrev pub sensitive_windows_paths : List String
sensitive_windows_paths = "/windows/system32/config" ∷ "/windows/repair" ∷ []

unfoldable pub is_alpha : ℕ → Bool
is_alpha b = (leb b'A' b && leb b b'Z') || (leb b'a' b && leb b b'z')

abbrev is_slash : ℕ → Bool
is_slash c = c == b'/' || c == b'\\'

abbrev ends_or_slash : List ℕ → Bool
ends_or_slash [] = true
ends_or_slash (c ∷ s) = is_slash c

-- `X:...`
drive_at : List ℕ → Option (ℕ × List ℕ)
unfolding is_alpha
drive_at [] = none
drive_at (d ∷ []) = none
drive_at (d ∷ c ∷ rest) =
    if is_alpha d && c == b':' && ends_or_slash rest
    then some (if leb b'a' d then d - 32 else d, rest)
    else none

-- `X:...` or `/X:...`: the drive in upper case and what follows the colon
unfoldable pub parse_drive_path : List ℕ → Option (ℕ × List ℕ)
unfolding drive_at
parse_drive_path [] = none
parse_drive_path (c ∷ s) = elim (drive_at (c ∷ s)) [
  | some found ↦ some found
  | none ↦ if c == b'/' then drive_at s else none
]

-- The path is the sensitive one, or lies below it.
unfoldable pub is_or_under : List ℕ → String → Bool
is_or_under path sensitive =
    path == codes sensitive || has_prefix path (codes sensitive ++ codes "/")

unfoldable pub analyze_drive_path : Platform → List ℕ → RiskLevel
analyze_drive_path p rest =
    let clean_rest = path_clean (b'/' ∷ replace_char b'\\' b'/' rest) in
    let lower_rest = trim_right (λ c. c == b'/') (map p.to_lower clean_rest) in
    if clean_rest == codes "/"
    then dangerous
    else if any (is_or_under clean_rest) sensitive_paths
    then moderate
    else if any (is_or_under lower_rest) sensitive_windows_paths
    then moderate
    else safe

unfoldable pub analyze_posix_path : Platform → List ℕ → RiskLevel
analyze_posix_path p path =
    let cleaned = path_clean path in
    let lower = map p.to_lower (replace_char b'\\' b'/' path) in
    let clean_lower = trim_right (λ c. c == b'/') (path_clean (b'/' ∷ lower)) in
    if cleaned == [] || cleaned == codes "/" || cleaned == codes "."
    then dangerous
    else if any (is_or_under cleaned) sensitive_paths
    then moderate
    else if clean_lower == []
    then dangerous
    else if any (is_or_under clean_lower) sensitive_windows_paths
    then moderate
    else safe

unfoldable pub analyze_single_path : Platform → String → RiskLevel
analyze_single_path p path =
    if path == "" then dangerous else elim (parse_drive_path (codes path)) [
      | some (drive, rest) ↦ analyze_drive_path p rest
      | none ↦ analyze_posix_path p (codes path)
    ]

-- The loop of AnalyzePaths from a level on, with its early return.
unfoldable pub analyze_paths_from : Platform → RiskLevel → List String → RiskLevel
analyze_paths_from p level [] = level
analyze_paths_from p level (path ∷ paths) =
    let path_risk = analyze_single_path p path in
    let higher = if ltb (rank level) (rank path_risk) then path_risk else level in
    let rest = analyze_paths_from p higher paths in
    if rank higher == rank dangerous then dangerous else rest

unfoldable pub analyze_paths : Platform → List String → RiskLevel
analyze_paths p paths = analyze_paths_from p safe paths
