-- ===== src/Credential/Refs.antt =====
-- pkg/credential/ref.go: references to credentials, whose parts are lists of code points.
use xops_cli.Base.{
  Bool, List, Option, String, [], contains, contains_any, false, if◌then◌else◌, negate, none, some,
  text_eq, nat_eq, string_eq, trim_space, true, ℕ, ◌!=◌, ◌&&◌, ◌++◌, ◌==◌, ◌||◌, ◌∷◌,
}

-- Kind.Validate: whether it is one of the known kinds.
unfoldable pub validate_kind : String → Bool
validate_kind kind =
    contains
      ("login_password" ∷ "passphrase" ∷ "privilege_password" ∷ "totp_secret" ∷ "challenge_answer"
        ∷ [])
      kind

pub record Ref : Type 0 where
  pub store_id : List ℕ
  pub item_id : List ℕ

abbrev pub empty_ref : Ref
empty_ref = record { store_id = []; item_id = [] }

unfoldable pub is_empty : Ref → Bool
is_empty r = r.store_id == [] && r.item_id == []

unfoldable pub is_complete : Ref → Bool
is_complete r = r.store_id != [] && r.item_id != []

-- validateRefIdentifier: whether there is no error.
unfoldable pub validate_identifier : List ℕ → Bool
validate_identifier val =
    trim_space val != []
    && negate (contains_any val (b'/' ∷ b'\\' ∷ b' ' ∷ b'\t' ∷ b'\r' ∷ b'\n' ∷ 0 ∷ []))

-- Ref.Validate: whether there is no error.
unfoldable pub validate_ref : Ref → Bool
unfolding is_empty validate_identifier
validate_ref r =
    if is_empty r
    then true
    else if (r.store_id == [] && r.item_id != []) || (r.store_id != [] && r.item_id == [])
    then false
    else validate_identifier r.store_id && validate_identifier r.item_id

-- Ref.String
unfoldable pub ref_string : Ref → List ℕ
unfolding is_empty
ref_string r = if is_empty r then [] else r.store_id ++ b'/' ∷ r.item_id

-- strings.Cut at a character
unfoldable pub cut_at : ℕ → List ℕ → Option (List ℕ × List ℕ)
cut_at sep [] = none
cut_at sep (c ∷ s) =
    let rest = cut_at sep s in
    if c == sep then some ([], s) else elim rest [ none ↦ none | some (a, b) ↦ some (c ∷ a, b) ]

-- ParseRef: `none` is ErrInvalidRef.
unfoldable pub parse_ref : List ℕ → Option Ref
unfolding cut_at validate_ref
parse_ref s = if trim_space s == [] then some empty_ref else elim (cut_at b'/' s) [
  | none ↦ none
  | some (store, item) ↦
      let r : Ref = record { store_id = store; item_id = item } in
      if validate_ref r then some r else none
]
