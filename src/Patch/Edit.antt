-- ===== src/Patch/Edit.antt =====
-- core/mcp/patch/patch.go: applying the blocks of a patch to a file's content.
use xops_cli.Base.{
  Bool, List, Option, [], drop, false, has_prefix, if◌then◌else◌, join, leb, length, ltb, map, none,
  some, split, suc, take, trim_space, true, ℕ, ◌&&◌, ◌++◌, ◌+◌, ◌-◌, ◌==◌, ◌∷◌, nat_eq, string_eq,
  text_eq,
}
use xops_cli.Patch.Text.{
  count_text, replace_first, unix_endings, windows_endings, is_blank, trim_indent,
  leading_whitespace,
}
use xops_cli.Patch.Blocks.{Block, PatchResult, ok, err, no_match, ambiguous_match, parse}

unfoldable pub matches_trimmed : List (List ℕ) → List (List ℕ) → Bool
unfolding trim_space
matches_trimmed candidate [] = true
matches_trimmed [] (s ∷ search) = false
matches_trimmed (c ∷ candidate) (s ∷ search) =
    trim_space c == trim_space s && matches_trimmed candidate search

-- The lines from here on start with a window that matches.
unfoldable pub matches_here : List (List ℕ) → List (List ℕ) → Bool
matches_here search lines =
    leb (length search) (length lines) && matches_trimmed (take (length search) lines) search

-- The starts of the windows that match, counted from `start`.
unfoldable pub match_indices : ℕ → List (List ℕ) → List (List ℕ) → List ℕ
match_indices start search [] = if matches_here search [] then start ∷ [] else []
match_indices start search (l ∷ lines) =
    let rest = match_indices (suc start) search lines in
    if matches_here search (l ∷ lines) then start ∷ rest else rest

-- The indentation of the first line that is not blank: the file's, and the search block's.
unfoldable pub anchor : List (List ℕ) → List (List ℕ) → Option (List ℕ × List ℕ)
anchor (a ∷ actual) (s ∷ search) =
    let rest = anchor actual search in
    if is_blank s then rest else some (leading_whitespace a, leading_whitespace s)
anchor actual search = none

unfoldable pub align_line : List ℕ → List ℕ → List ℕ → List ℕ
align_line actual_indent search_indent line =
    if is_blank line
    then line
    else if has_prefix line search_indent
    then actual_indent ++ drop (length search_indent) line
    else actual_indent ++ trim_indent line

unfoldable pub align_indentation : List (List ℕ) → List (List ℕ) → List (List ℕ) → List (List ℕ)
align_indentation actual search replace = elim (anchor actual search) [
  | none ↦ replace
  | some (actual_indent, search_indent) ↦
      if actual_indent == search_indent
      then replace
      else map (align_line actual_indent search_indent) replace
]

unfoldable pub replacement : List (List ℕ) → List (List ℕ) → List ℕ → List (List ℕ)
replacement matched search replace =
    if replace == [] then [] else align_indentation matched search (split 10 replace)

unfoldable pub replace_matched_window : List (List ℕ) → List (List ℕ) → ℕ → List ℕ → List ℕ
replace_matched_window content search start replace =
    let n = length search in
    let matched = take n (drop start content) in
    join 10 (take start content ++ (replacement matched search replace ++ drop (start + n) content))

-- Whether a stage has a result, and the result; the stages differ in what no match means.
unfoldable pub replace_unique :
    List (List ℕ) → List (List ℕ) → List ℕ → PatchResult (Option (List ℕ))
replace_unique content search replace = elim (match_indices 0 search content) [
  | [] ↦ ok none
  | start ∷ others ↦
      if others == []
      then ok (some (replace_matched_window content search start replace))
      else err ambiguous_match
]

unfoldable pub apply_stage2 : List (List ℕ) → List (List ℕ) → List ℕ → PatchResult (Option (List ℕ))
apply_stage2 content search replace =
    if ltb (length content) (length search) then ok none else replace_unique content search replace

-- The first and the last line that is not blank, counted from `i`; `none` for Go's -1.
unfoldable pub non_blank_range : ℕ → Option (ℕ × ℕ) → List (List ℕ) → Option (ℕ × ℕ)
non_blank_range i found [] = found
non_blank_range i found (line ∷ lines) =
    let found' : Option (ℕ × ℕ) =
      if is_blank line
      then found
      else elim found [ none ↦ some (i, i) | some (first, last) ↦ some (first, i) ] in
    non_blank_range (suc i) found' lines

unfoldable pub apply_stage2b : List (List ℕ) → List (List ℕ) → List ℕ → PatchResult (List ℕ)
apply_stage2b content search replace = elim (non_blank_range 0 none search) [
  | none ↦ err no_match
  | some (first, last) ↦
      let trimmed = drop first (take (last + 1) search) in
      if first == 0 && last == length search - 1
      then err no_match
      else if ltb (length content) (length trimmed)
      then err no_match
      else elim (replace_unique content trimmed replace) [
        | err e ↦ err e
        | ok none ↦ err no_match
        | ok (some text) ↦ ok text
      ]
]

-- The new content, and whether only the whitespace-insensitive stages matched.
unfoldable pub apply_block : List ℕ → Block → PatchResult (List ℕ × Bool)
apply_block content block =
    let n = count_text content block.search in
    let content_lines = split 10 content in
    let search_lines = split 10 block.search in
    if n == 1
    then ok (replace_first content block.search block.replace, false)
    else if ltb 1 n
    then err ambiguous_match
    else elim (apply_stage2 content_lines search_lines block.replace) [
      | err e ↦ err e
      | ok (some text) ↦ ok (text, true)
      | ok none ↦ elim (apply_stage2b content_lines search_lines block.replace) [
        | err e ↦ err e
        | ok text ↦ ok (text, true)
      ]
    ]

unfoldable pub apply_blocks : List ℕ → ℕ → List Block → PatchResult (List ℕ × ℕ)
apply_blocks working fuzzy [] = ok (working, fuzzy)
apply_blocks working fuzzy (b ∷ blocks) = elim (apply_block working b) [
  | err e ↦ err e
  | ok (text, inexact) ↦ apply_blocks text (if inexact then fuzzy + 1 else fuzzy) blocks
]

pub record Result : Type 0 where
  pub content : List ℕ
  pub blocks : ℕ
  pub fuzzy : ℕ

-- Every "\n" of the content, and one at least, ends a "\r\n".
unfoldable pub uses_crlf : List ℕ → Bool
uses_crlf content =
    let crlf = count_text content (13 ∷ 10 ∷ []) in
    ltb 0 crlf && crlf == count_text content (10 ∷ [])

unfoldable pub apply : List ℕ → List ℕ → PatchResult Result
apply content raw = elim (parse raw) [
  | err e ↦ err e
  | ok blocks ↦
      let working = if uses_crlf content then unix_endings content else content in
      elim (apply_blocks working 0 blocks) [
        | err e ↦ err e
        | ok (text, fuzzy) ↦ ok (record {
          content = if uses_crlf content then windows_endings text else text;
          blocks = length blocks;
          fuzzy = fuzzy;
        })
      ]
]
