-- ===== src/Transfer/Record/Checks.antt =====
-- core/mcp/transfer/record.go and authorization.go: what makes a journal record valid.
use xops_cli.Base.{
  Bool, List, Option, String, [], all, byte_length, codes, contains, false, has_prefix,
  if◌then◌else◌, leb, length, ltb, negate, none, path_clean, some, trim_right, true, ℕ, ◌!=◌, ◌&&◌,
  ◌*◌, ◌++◌, ◌==◌, ◌||◌, ◌∷◌, nat_eq, string_eq, text_eq,
}
use xops_cli.Base.Int.{pos, ltb_ℤ, int_eq}
use xops_cli.Ports.{
  Error, ok, err, invalid, stale_binding, binding_required, record_too_large, resolve, bind,
  binding_eq, phase_eq,
}
use xops_cli.Transfer.Record.Shape.{
  direction_eq, state_eq, Authorization, Codec, Direction, Record, Spec, State, cancelled,
  committing, completed, download, failed, legacy_record_version, max_record_bytes, other_direction,
  other_state, ready, record_version, streamed, timed_out, transferring, unknown, upload, verifying,
}

is_lower_hex : ℕ → Bool
is_lower_hex c = (leb b'0' c && leb c b'9') || (leb b'a' c && leb c b'f')

-- Lower-case hex of this many bytes
unfoldable pub valid_hex : String → ℕ → Bool
unfolding is_lower_hex
valid_hex value n = byte_length value == n * 2 && all is_lower_hex (codes value)

unfoldable pub has_nul : String → Bool
has_nul s = contains (codes s) 0

-- Each of these is true where the Go function returns no error.
unfoldable pub validate_identity : Spec → Bool
unfolding valid_hex has_nul
validate_identity s =
    (s.request_digest == "" || valid_hex s.request_digest 32)
    && negate (ltb 4096 (byte_length s.requested_path) || has_nul s.requested_path)
    && negate (
        s.request_id == ""
        || ltb 128 (byte_length s.request_id)
        || s.scope == ""
        || ltb 256 (byte_length s.scope))
    && negate (
        s.node_id == ""
        || ltb 1024 (byte_length s.node_id)
        || s.target_id == ""
        || ltb 1024 (byte_length s.target_id))

is_letter : ℕ → Bool
is_letter c = (leb b'A' c && leb c b'Z') || (leb b'a' c && leb c b'z')

unfoldable pub is_drive_root : List ℕ → Bool
unfolding is_letter
is_drive_root (a ∷ b ∷ c ∷ []) = a == b'/' && c == b':' && is_letter b
is_drive_root other = false

-- A normalized absolute path of a file
unfoldable pub valid_remote_path : String → Bool
unfolding is_drive_root has_nul
valid_remote_path path =
    has_prefix (codes path) (codes "/")
    && path_clean (codes path) == codes path
    && codes path != codes "/"
    && negate (is_drive_root (codes path))
    && leb (byte_length path) 4096
    && negate (has_nul path)

validate_direction : Spec → Direction → Bool
unfolding valid_hex
validate_direction s upload = valid_hex s.sha256 32
validate_direction s download = negate (s.overwrite || s.sha256 != "")
validate_direction s other_direction = false

unfoldable pub validate_spec : Spec → Bool
unfolding validate_identity valid_remote_path validate_direction
validate_spec s =
    validate_identity s
    && valid_remote_path s.remote_path
    && negate (ltb_ℤ s.size (pos 0))
    && validate_direction s s.direction

-- path.Dir
unfoldable pub path_dir : List ℕ → List ℕ
unfolding path_clean
path_dir p = path_clean (trim_right (λ c. c != b'/') p)

unfoldable pub temporary_path : String → String → List ℕ
unfolding path_dir path_clean
temporary_path remote id = path_clean (
    path_dir (codes remote)
    ++ (codes "/" ++ (codes ".xops-transfer-" ++ (codes id ++ codes ".tmp"))))

unfoldable pub validate_temporary : Record → Bool
validate_temporary r =
    (r.temp_path == []
      || (r.spec.direction == upload && r.temp_path == temporary_path r.spec.remote_path r.id))
    && negate (r.cleanup_pending && r.temp_path == [])
    && negate (r.temp_owned && r.temp_path == [])
    && leb (byte_length r.error) 4096
    && leb (byte_length r.resolution) 4096
    && leb (byte_length r.warning) 4096

unfoldable pub validate_progress : Record → Bool
validate_progress r =
    negate (
      ltb_ℤ r.bytes (pos 0)
      || ltb_ℤ r.spec.size r.bytes
      || (r.sha256 != "" && negate (valid_hex r.sha256 32)))
    && negate (r.resolved && (r.state != unknown || r.resolution == ""))
    && negate (r.state == completed && (r.bytes != r.spec.size || r.sha256 != r.spec.sha256))
    && negate (r.state == streamed && (r.bytes != r.spec.size || r.sha256 == ""))

unfoldable pub validate_state : Direction → State → Bool
validate_state d ready = true
validate_state d transferring = true
validate_state d verifying = true
validate_state d failed = true
validate_state d cancelled = true
validate_state d timed_out = true
validate_state d committing = d == upload
validate_state d completed = d == upload
validate_state d unknown = d == upload
validate_state d streamed = d == download
validate_state d other_state = false

-- `none` is success, as a nil error is.
unfoldable pub validate_authorization : Codec → Option Authorization → Spec → Option Error
validate_authorization c none spec = some binding_required
validate_authorization c (some a) spec =
    elim (bind c.hashes a.snapshot spec.scope "transfer" (c.spec_digest spec)) [
      | err e ↦ some e
      | ok want ↦
          if want != a.binding
          then some stale_binding
          else if length a.snapshot.targets != 1
          then some stale_binding
          else elim (resolve a.snapshot spec.node_id) [ err e ↦ some e | ok found ↦ none ]
    ]

-- A v1 record carries no authorization, and a v2 record a valid one.
versioned_authorization : Codec → Record → Option Error
unfolding validate_authorization
versioned_authorization c r =
    if r.version == record_version
    then validate_authorization c r.authorization r.spec
    else elim r.authorization [ none ↦ none | some a ↦ some invalid ]

-- The tests of Record.validate after the authorization.
unfoldable pub valid_body : Record → Bool
unfolding validate_spec valid_hex validate_temporary validate_progress validate_state
valid_body r =
    validate_spec r.spec
    && valid_hex r.token_digest 32
    && negate (
        r.created_at == 0
        || ltb r.updated_at r.created_at
        || leb r.start_before r.created_at
        || leb r.status_expires_at r.start_before)
    && validate_temporary r
    && validate_progress r
    && validate_state r.spec.direction r.state

unfoldable pub validate_record : Codec → Record → Option Error
unfolding versioned_authorization valid_hex
validate_record c r =
    if (r.version != record_version && r.version != legacy_record_version)
      || negate (valid_hex r.id 16)
      || r.operation_id == ""
      || ltb 128 (byte_length r.operation_id)
    then some invalid
    else elim (versioned_authorization c r) [
      | some e ↦ some e
      | none ↦ if valid_body r then none else some invalid
    ]

-- encodeRecord, of which the manager uses only the error
unfoldable pub encode_record : Codec → Record → Option Error
encode_record c r = elim (validate_record c r) [
  | some e ↦ some e
  | none ↦ if ltb max_record_bytes (c.encoded_size r) then some record_too_large else none
]
