-- ===== src/Patch/Blocks.antt =====
-- core/mcp/patch/patch.go: reading the blocks of a patch.
use xops_cli.Base.{
  Bool, List, Option, [], drop, has_prefix, if◌then◌else◌, inl, inr, join, none, refl, some, split,
  trim_left, trim_space, ℕ, ◌!=◌, ◌&&◌, ◌++◌, ◌==◌, ◌||◌, ◌∷◌, ◌≡◌, ◌⊎◌, nat_eq, string_eq, text_eq,
}
use xops_cli.Patch.Text.{unix_endings}

pub record Block : Type 0 where
  pub search : List ℕ
  pub replace : List ℕ

pub data PatchError : Type 0 where
  invalid_format no_match ambiguous_match : PatchError

pub data PatchResult {ℓ} (A : Type ℓ) : Type ℓ where
  ok : A → PatchResult A
  err : PatchError → PatchResult A

pub PatchResult-cases {ℓ} :
    {A : Type ℓ} (r : PatchResult A) → ((e : _) × (r ≡ err e)) ⊎ ((a : A) × (r ≡ ok a))
PatchResult-cases (ok a) = inr (a, refl)
PatchResult-cases (err e) = inl (e, refl)

-- The marker's character is repeated four times or more, and a blank follows it or nothing.
unfoldable pub is_marker : List ℕ → ℕ → Bool
unfolding has_prefix trim_left
is_marker trimmed c =
    let rest = trim_left (λ d. d == c) (drop 4 trimmed) in
    has_prefix trimmed (c ∷ c ∷ c ∷ c ∷ []) && (rest == [] || has_prefix rest (32 ∷ []))

-- Where the loop of Parse stands, with the lines that it has read, in order.
pub data ParseState : Type 0 where
  outside : ParseState
  in_search : List (List ℕ) → ParseState
  in_replace : List (List ℕ) → List (List ℕ) → ParseState

-- One round of the loop: the next state, and the block that the line completes.
unfoldable pub parse_line : ParseState → List ℕ → PatchResult (ParseState × Option Block)
unfolding is_marker trim_space
parse_line outside line =
    if is_marker (trim_space line) b'<'
    then ok (in_search [], none)
    else if trim_space line != []
    then err invalid_format
    else ok (outside, none)
parse_line (in_search found) line =
    if is_marker (trim_space line) b'='
    then ok (in_replace found [], none)
    else ok (in_search (found ++ line ∷ []), none)
parse_line (in_replace found with_lines) line =
    let search = join 10 found in
    if is_marker (trim_space line) b'>'
    then if search == []
      then err invalid_format
      else ok (outside, some (record { search = search; replace = join 10 with_lines }))
    else ok (in_replace found (with_lines ++ line ∷ []), none)

abbrev pub add_block : List Block → Option Block → List Block
add_block blocks none = blocks
add_block blocks (some b) = blocks ++ b ∷ []

unfoldable pub parse_lines : ParseState → List Block → List (List ℕ) → PatchResult (List Block)
unfolding parse_line
parse_lines outside [] [] = err invalid_format
parse_lines outside (b ∷ blocks) [] = ok (b ∷ blocks)
parse_lines (in_search found) blocks [] = err invalid_format
parse_lines (in_replace found with_lines) blocks [] = err invalid_format
parse_lines state blocks (line ∷ lines) = elim (parse_line state line) [
  | err e ↦ err e
  | ok (next, block) ↦ parse_lines next (add_block blocks block) lines
]

unfoldable pub parse : List ℕ → PatchResult (List Block)
parse raw = parse_lines outside [] (split 10 (unix_endings raw))
