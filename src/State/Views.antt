-- ===== src/State/Views.antt =====
-- core/mcp/state/coordinator.go and change.go: what is read from a snapshot, and its validation.
use xops_cli.Base.{
  Bool, List, Option, String, [], all, any, contains, false, if◌then◌else◌, map, negate, none, some,
  true, ℕ, ◌!=◌, ◌&&◌, ◌==◌, ◌||◌, ◌∷◌, string_eq, nat_eq,
}
use xops_cli.Base.Dict.{Dict, get, put, has}
use xops_cli.Guardrail.Risk.{Platform}
use xops_cli.Guardrail.Policy.{validate_config}
use xops_cli.Ports.{
  ConnectionConfig, Error, Hashes, OperationSnapshot, Result, Target, err, invalid, node_disabled,
  ok,
}
use xops_cli.Ports.{digest, resolve}

-- A Go set of texts: set[x] = struct{}{}
abbrev pub include : List String → String → List String
include set x = if contains set x then set else x ∷ set

unfoldable pub hop_ids : Target → List String
hop_ids target = map (λ hop. hop.node_id) target.plan.hops

-- A hop of the plan is in the set.
abbrev pub uses_any : List String → Target → Bool
uses_any set target = any (contains set) (hop_ids target)

unfoldable pub disabled : OperationSnapshot → String → Bool
unfolding hop_ids
disabled view id = elim (get view.targets id) [
  | none ↦ true
  | some target ↦
      target.disabled
      || any
          (λ hop. elim (get view.targets hop) [
            | none ↦ false
            | some dependency ↦ dependency.disabled
          ])
          (hop_ids target)
]

unfoldable pub include_all : List String → List String → List String
include_all set [] = set
include_all set (x ∷ xs) = include_all (include set x) xs

unfoldable pub target_dependencies : List String → Dict String Target → List String
unfolding include_all hop_ids
target_dependencies set [] = set
target_dependencies set ((id, target) ∷ rest) =
    target_dependencies (include_all (include set id) (hop_ids target)) rest

unfoldable pub dependencies : OperationSnapshot → List String
unfolding target_dependencies
dependencies view = target_dependencies [] view.targets

unfoldable pub selectors_for : OperationSnapshot → List String
selectors_for view = elim view.selectors [
  | [] ↦ map (λ t. t.0) view.targets
  | s ∷ rest ↦ map (λ t. t.0) (s ∷ rest)
]

select_all : OperationSnapshot → OperationSnapshot → List String → Result OperationSnapshot
select_all source view [] = ok view
select_all source view (selector ∷ selectors) = elim (resolve source selector) [
  | err e ↦ err e
  | ok (id, target) ↦
      let rest =
        select_all source
          (record view {
            targets = put view.targets id target;
            selectors = put view.selectors selector id;
          })
          selectors in
      if disabled source id then err node_disabled else rest
]

unfoldable pub select_view : OperationSnapshot → List String → Result OperationSnapshot
unfolding select_all
select_view source selectors =
    select_all source (record source { targets = []; selectors = [] }) selectors

unfoldable pub endpoint : ConnectionConfig → ConnectionConfig
endpoint cfg = record cfg {
  port = if cfg.port == 0 then 22 else cfg.port;
  proxy_jump = "";
  original_proxy_jump = "";
  has_original_proxy_jump = false;
}

same_address : Option ℕ → Option ℕ → Bool
same_address none none = true
same_address none (some b) = false
same_address (some a) none = false
same_address (some a) (some b) = a == b

same_flag : Bool → Bool → Bool
same_flag true b = b
same_flag false b = negate b

-- == on ConnectionConfig
unfoldable pub same_hop : ConnectionConfig → ConnectionConfig → Bool
unfolding same_address same_flag
same_hop a b =
    a.key_ref == b.key_ref
    && a.trust_version == b.trust_version
    && a.node_id == b.node_id
    && a.address == b.address
    && a.port == b.port
    && a.user == b.user
    && a.auth_type == b.auth_type
    && a.key_path == b.key_path
    && a.auth_update_token == b.auth_update_token
    && a.sudo_mode == b.sudo_mode
    && a.sudo_update_token == b.sudo_update_token
    && a.proxy_jump == b.proxy_jump
    && a.original_proxy_jump == b.original_proxy_jump
    && same_flag a.has_original_proxy_jump b.has_original_proxy_jump
    && a.password_prompt_pattern == b.password_prompt_pattern
    && same_address a.execution b.execution
    && same_address a.options b.options

-- The hops seen so far, where each agrees with an earlier one of its node
see_hops :
    Dict String ConnectionConfig → List ConnectionConfig → Option (Dict String ConnectionConfig)
see_hops seen [] = some seen
see_hops seen (hop ∷ hops) =
    let rest = see_hops (put seen hop.node_id (endpoint hop)) hops in
    elim (get seen hop.node_id) [
      | none ↦ rest
      | some previous ↦ if same_hop previous (endpoint hop) then rest else none
    ]

see_targets : Dict String ConnectionConfig → Dict String Target → Bool
unfolding see_hops
see_targets seen [] = true
see_targets seen ((id, target) ∷ rest) = elim (see_hops seen target.plan.hops) [
  | none ↦ false
  | some seen' ↦ see_targets seen' rest
]

unfoldable pub valid_selector : OperationSnapshot → String × String → Bool
valid_selector view (alias, id) =
    alias != "" && has view.targets id && negate (has view.targets alias && alias != id)

-- validateSnapshot: `none` is success.
unfoldable pub validate_snapshot : Platform → Hashes → OperationSnapshot → Option Error
unfolding see_targets valid_selector
validate_snapshot p h view =
    if view.domain_id == "" || view.revision == "" || negate (validate_config p view.policy)
    then some invalid
    else elim (digest h view) [
      | err e ↦ some e
      | ok sum ↦
          if all (valid_selector view) view.selectors && see_targets [] view.targets
          then none
          else some invalid
    ]
