-- ===== src/Ports/Bindings.antt =====
-- core/mcp/ports/snapshot.go: resolving selectors, and binding a call to a snapshot.
use xops_cli.Base.{
  Bool, List, Option, String, [], all, byte_length, codes, false, if◌then◌else◌, leb, length, ltb,
  negate, none, some, ℕ, ◌!=◌, ◌&&◌, ◌*◌, ◌==◌, ◌||◌, ◌∷◌, nat_eq, string_eq, text_eq,
}
use xops_cli.Base.Dict
use xops_cli.Base.Dict.{Dict}
use xops_cli.Ports.Kinds.{
  Binding, ConnectionConfig, Error, Hashes, OperationSnapshot, Result, Target, TargetIdentity, err,
  invalid, node_disabled, node_not_found, ok, stale_binding,
}

-- The node of the last hop, if there is one.
unfoldable pub last_hop : List ConnectionConfig → Option String
last_hop [] = none
last_hop (h ∷ []) = some h.node_id
last_hop (h ∷ g ∷ rest) = last_hop (g ∷ rest)

-- The target's ID and its plan's last hop are both this one.
unfoldable pub names_node : String → Target → Bool
names_node id target =
    target.info.id == id
    && elim (last_hop target.plan.hops) [ none ↦ false | some node ↦ node == id ]

-- The canonical ID that a selector stands for.
unfoldable pub selected_id : OperationSnapshot → String → String
selected_id s selector =
    if Dict.has s.targets selector
    then selector
    else elim (Dict.get s.selectors selector) [ none ↦ selector | some id ↦ id ]

unfoldable pub resolve : OperationSnapshot → String → Result (String × Target)
unfolding selected_id
resolve s selector =
    let id = selected_id s selector in
    elim (Dict.get s.targets id) [
      | none ↦ err node_not_found
      | some target ↦
          if target.disabled
          then err node_disabled
          else if names_node id target
          then ok (id, target)
          else err invalid
    ]

target_identity : Hashes → String → Target → Result TargetIdentity
target_identity h id target = elim (h.connection_key target.plan) [
  | err e ↦ err e
  | ok key ↦
      if names_node id target
      then ok (record {
        connection_key = key;
        version = target.version;
        execution_version = target.execution_version;
        disabled = target.disabled;
      })
      else err invalid
]

target_identities : Hashes → Dict String Target → Result (Dict String TargetIdentity)
unfolding target_identity
target_identities h [] = ok []
target_identities h ((id, target) ∷ rest) = elim (target_identity h id target) [
  | err e ↦ err e
  | ok t ↦ elim (target_identities h rest) [ err e ↦ err e | ok ts ↦ ok ((id, t) ∷ ts) ]
]

unfoldable pub digest : Hashes → OperationSnapshot → Result String
unfolding target_identities
digest h s = if s.domain_id == "" then err invalid else elim (target_identities h s.targets) [
  | err e ↦ err e
  | ok targets ↦ ok (
      h.view_digest (record {
        domain = s.domain_id;
        policy_revision = s.policy_revision;
        policy = record s.policy { audit_log = "" };
        targets = targets;
        selectors = s.selectors;
      }))
]

unfoldable pub is_hex : ℕ → Bool
is_hex c = (leb b'0' c && leb c b'9') || (leb b'a' c && leb c b'f') || (leb b'A' c && leb c b'F')

-- hex.DecodeString succeeds with this many bytes.
unfoldable pub decodes_to : String → ℕ → Bool
unfolding is_hex
decodes_to s n = length (codes s) == 2 * n && all is_hex (codes s)

-- Bind, the input's digest given
unfoldable pub bind : Hashes → OperationSnapshot → String → String → String → Result Binding
bind h s scope tool input_digest =
    if scope == "" || ltb 256 (byte_length scope) || tool == ""
    then err invalid
    else elim (digest h s) [
      | err e ↦ err e
      | ok view ↦ ok (record {
        domain_id = s.domain_id;
        scope = scope;
        tool = tool;
        input_digest = input_digest;
        snapshot_digest = view;
      })
    ]

-- Binding.Validate: `none` is success.
unfoldable pub validate_binding : Hashes → Binding → OperationSnapshot → Option Error
validate_binding h b s = elim (digest h s) [
  | err e ↦ some e
  | ok current ↦
      if negate (decodes_to b.input_digest 32)
        || b.domain_id != s.domain_id
        || b.snapshot_digest != current
        || b.scope == ""
        || b.tool == ""
      then some stale_binding
      else none
]
