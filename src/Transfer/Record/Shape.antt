-- ===== src/Transfer/Record/Shape.antt =====
-- core/mcp/transfer/record.go: the approved operation and its journal record. Times are
-- nanoseconds since Go's zero time.
use xops_cli.Base.{
  Bool, Eq, List, Option, String, arith, true, ℕ, ◌==◌, ◌↔◌, ◌≡◌, nat_eq, string_eq, text_eq,
}
use xops_cli.Base.Int.{ℤ, int_eq}
use xops_cli.Ports.{Binding, OperationSnapshot, Hashes, binding_eq, phase_eq}

-- `other_direction` is any other text.
pub data Direction : Type 0 where
  upload download other_direction : Direction

direction_code : Direction → ℕ
direction_code upload = 0
direction_code download = 1
direction_code other_direction = 2

unfoldable pub direction_beq : Direction → Direction → Bool
unfolding direction_code
direction_beq a b = direction_code a == direction_code b

pub direction_beq_iff : (a b : Direction) → (direction_beq a b ≡ true) ↔ (a ≡ b)
unfolding direction_beq
direction_beq_iff a b = (λ h. ground arith, λ h. ground arith)

instance abbrev pub direction_eq : Eq Direction
direction_eq = record { beq = direction_beq; beq_iff = direction_beq_iff }

-- `other_state` is any other text, the empty one of a zero record too.
pub data State : Type 0 where
  ready transferring verifying committing completed streamed : State
  failed cancelled timed_out unknown other_state : State

state_code : State → ℕ
state_code ready = 0
state_code transferring = 1
state_code verifying = 2
state_code committing = 3
state_code completed = 4
state_code streamed = 5
state_code failed = 6
state_code cancelled = 7
state_code timed_out = 8
state_code unknown = 9
state_code other_state = 10

unfoldable pub state_beq : State → State → Bool
unfolding state_code
state_beq a b = state_code a == state_code b

pub state_beq_iff : (a b : State) → (state_beq a b ≡ true) ↔ (a ≡ b)
unfolding state_beq
state_beq_iff a b = (λ h. ground arith, λ h. ground arith)

instance abbrev pub state_eq : Eq State
state_eq = record { beq = state_beq; beq_iff = state_beq_iff }

pub record Spec : Type 0 where
  pub request_id : String
  pub request_digest : String
  pub requested_path : String
  pub scope : String
  pub direction : Direction
  pub node_id : String
  pub target_id : String
  pub remote_path : String
  pub size : ℤ
  pub sha256 : String
  pub overwrite : Bool
  pub source_mod_time : ℤ

pub record Authorization : Type 0 where
  pub snapshot : OperationSnapshot
  pub binding : Binding

pub record Record : Type 0 where
  pub version : ℕ
  pub authorization : Option Authorization
  pub id : String
  pub operation_id : String
  pub spec : Spec
  pub token_digest : String
  pub state : State
  pub created_at : ℕ
  pub updated_at : ℕ
  pub start_before : ℕ
  pub status_expires_at : ℕ
  pub temp_path : List ℕ
  pub temp_owned : Bool
  pub bytes : ℤ
  pub sha256 : String
  pub error : String
  pub warning : String
  pub cleanup_pending : Bool
  pub cancel_requested : Bool
  pub resolved : Bool
  pub resolution : String

abbrev pub record_version : ℕ
record_version = 2

abbrev pub legacy_record_version : ℕ
legacy_record_version = 1

abbrev pub max_record_bytes : ℕ
max_record_bytes = 65536

-- What crypto/sha256 and encoding/json answer: the hash of a token in hex, the digest of a
-- spec's JSON, and the size of a record's JSON.
pub record Codec : Type 0 where
  pub hashes : Hashes
  pub token_digest : String → String
  pub spec_digest : Spec → String
  pub encoded_size : Record → ℕ
