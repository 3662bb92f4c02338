-- ===== src/Ports/Kinds.antt =====
-- core/mcp/ports/types.go and core/ssh: the data of snapshots, bindings and permits.
use xops_cli.Base.{
  ==_refl, ==→eq, Bool, Eq, List, Option, String, arith, none, some, true, ℕ, ◌&&◌, ◌==◌, ◌↔◌, ◌≡◌,
  nat_eq, string_eq, text_eq,
}
use xops_cli.Base.Dict.{Dict}
use xops_cli.Guardrail.Policy.{Config}

-- The errors of the MCP components that their callers tell apart by errors.Is. `invalid` is any
-- error with no name of its own, and `joined` is errors.Join.
pub data Error : Type 0 where
  invalid stale_binding node_disabled node_not_found purpose : Error
  canceled deadline_exceeded : Error
  busy conflict unauthorized not_found expired closed invalid_state : Error
  store_unusable record_too_large binding_required : Error
  updating persistence_unknown update_state identity_reuse capacity : Error
  joined : Error → Error → Error

pub data Result {ℓ} (A : Type ℓ) : Type ℓ where
  ok : A → Result A
  err : Error → Result A

-- errors.Join with an error that may be nil
abbrev pub join_errors : Error → Option Error → Error
join_errors e none = e
join_errors e (some f) = joined e f

-- What a context reports at the time of a call.
pub record Context : Type 0 where
  pub err : Option Error
  pub deadline : Option ℕ

-- core/ssh: one hop of a connection. Pointers stand for the addresses that they hold.
pub record ConnectionConfig : Type 0 where
  pub key_ref : String
  pub trust_version : String
  pub node_id : String
  pub address : String
  pub port : ℕ
  pub user : String
  pub auth_type : String
  pub key_path : String
  pub auth_update_token : String
  pub sudo_mode : String
  pub sudo_update_token : String
  pub proxy_jump : String
  pub original_proxy_jump : String
  pub has_original_proxy_jump : Bool
  pub password_prompt_pattern : String
  pub execution : Option ℕ
  pub options : Option ℕ

pub record ConnectionPlan : Type 0 where
  pub scope : String
  pub hops : List ConnectionConfig

pub record NodeInfo : Type 0 where
  pub id : String
  pub alias : List String
  pub address : String
  pub user : String
  pub auth_type : String
  pub proxy_jump : String
  pub tags : List String

pub record Target : Type 0 where
  pub info : NodeInfo
  pub plan : ConnectionPlan
  pub version : String
  pub execution_version : String
  pub disabled : Bool

pub record OperationSnapshot : Type 0 where
  pub domain_id : String
  pub revision : String
  pub policy_revision : String
  pub policy : Config
  pub targets : Dict String Target
  pub selectors : Dict String String

pub data Phase : Type 0 where
  inspect execute transfer_start commit recovery other_phase : Phase

phase_code : Phase → ℕ
phase_code inspect = 0
phase_code execute = 1
phase_code transfer_start = 2
phase_code commit = 3
phase_code recovery = 4
phase_code other_phase = 5

unfoldable pub phase_beq : Phase → Phase → Bool
unfolding phase_code
phase_beq a b = phase_code a == phase_code b

pub phase_beq_iff : (a b : Phase) → (phase_beq a b ≡ true) ↔ (a ≡ b)
unfolding phase_beq
phase_beq_iff a b = (λ h. ground arith, λ h. ground arith)

instance abbrev pub phase_eq : Eq Phase
phase_eq = record { beq = phase_beq; beq_iff = phase_beq_iff }

pub record Binding : Type 0 where
  pub domain_id : String
  pub scope : String
  pub tool : String
  pub input_digest : String
  pub snapshot_digest : String

unfoldable pub binding_beq : Binding → Binding → Bool
binding_beq a b =
    a.domain_id == b.domain_id
    && a.scope == b.scope
    && a.tool == b.tool
    && a.input_digest == b.input_digest
    && a.snapshot_digest == b.snapshot_digest

pub binding_beq_iff : (a b : Binding) → (binding_beq a b ≡ true) ↔ (a ≡ b)
unfolding binding_beq
binding_beq_iff a b = (
  λ h. ground (
    arith,
    ==→eq a.domain_id b.domain_id,
    ==→eq a.scope b.scope,
    ==→eq a.tool b.tool,
    ==→eq a.input_digest b.input_digest,
    ==→eq a.snapshot_digest b.snapshot_digest,
  ),
  λ h. rw h (
      ground (
        arith,
        ==_refl b.domain_id,
        ==_refl b.scope,
        ==_refl b.tool,
        ==_refl b.input_digest,
        ==_refl b.snapshot_digest,
      )),
)

instance abbrev pub binding_eq : Eq Binding
binding_eq = record { beq = binding_beq; beq_iff = binding_beq_iff }

-- An issued permit, as its methods answer at the time of a call.
pub record Permit : Type 0 where
  pub phase : Phase
  pub binding : Binding
  pub snapshot : OperationSnapshot
  pub context : Option Context

-- What Digest hashes of one target.
pub record TargetIdentity : Type 0 where
  pub connection_key : String
  pub version : String
  pub execution_version : String
  pub disabled : Bool

-- What Digest hashes of a snapshot.
pub record View : Type 0 where
  pub domain : String
  pub policy_revision : String
  pub policy : Config
  pub targets : Dict String TargetIdentity
  pub selectors : Dict String String

-- The hash of a snapshot's view (crypto/sha256 of its JSON), and core/ssh's key of a plan, which
-- fails on a malformed one.
pub record Hashes : Type 0 where
  pub view_digest : View → String
  pub connection_key : ConnectionPlan → Result String
