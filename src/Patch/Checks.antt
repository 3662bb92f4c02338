-- ===== src/Patch/Checks.antt =====
-- core/mcp/patch/patch.go: patches applied to small files.
use xops_cli.Base.{
  List, [], arith, codes, false, join, refl, split, text_beq, trim_space, true, ℕ, ◌∷◌, ◌≡◌, ◌⊎◌,
}
use xops_cli.Patch.Text.{
  windows_endings, unix_endings, replace_first, is_blank, leading_whitespace, count_text,
}
use xops_cli.Patch.Blocks.{
  is_marker, Block, parse_lines, ambiguous_match, invalid_format, ok, err, parse,
}
use xops_cli.Patch.Edit.{
  apply_block, apply, apply_blocks, uses_crlf, apply_stage2, replace_unique, match_indices,
  matches_here, matches_trimmed, replace_matched_window, replacement, align_indentation, anchor,
  align_line,
}
use xops_cli.Patch.Edits.{ExactEdit, LinesEdit, apply_block-edits}
use xops_cli.Patch.Endings.{with_crlf, apply-windows}
use xops_cli.Patch.RoundTrip.{unmarked, no_cr, is_printable, print_blocks, parse-print}

abbrev file : List ℕ
file = codes "if ok {\n  run()\n}\n"

abbrev spaced : Block
spaced = record { search = codes "run()  "; replace = codes "run(1)" }

abbrev patched : List ℕ
patched = codes "if ok {\n  run(1)\n}\n"

spaced_block : apply_block file spaced ≡ ok (patched, true)
unfolding apply_block count_text split join text_beq apply_stage2 replace_unique match_indices
    matches_here matches_trimmed replace_matched_window replacement align_indentation anchor
    align_line is_blank leading_whitespace
spaced_block = refl

apply_block-edits_example :
    (true ≡ false) × ExactEdit file spaced patched ⊎ (true ≡ true) × LinesEdit file spaced patched
apply_block-edits_example = apply_block-edits file spaced patched true spaced_block

abbrev two_places : List ℕ
two_places = codes "run()\n run()\n"

two_matches :
    apply_block two_places (record { search = codes "run()"; replace = [] }) ≡ err ambiguous_match
unfolding apply_block count_text
two_matches = refl

abbrev raw : List ℕ
raw = print_blocks (record { search = codes "run()"; replace = codes "stop()" } ∷ [])

apply-windows_example : apply (windows_endings file) raw ≡ with_crlf (apply file raw)
unfolding count_text
apply-windows_example = apply-windows file raw (omega arith) refl

apply-raw :
    apply file raw ≡ ok (record { content = codes "if ok {\n  stop()\n}\n"; blocks = 1; fuzzy = 0 })
unfolding apply parse parse_lines split unix_endings print_blocks text_beq join apply_blocks
    apply_block count_text uses_crlf replace_first
apply-raw = refl

parse-print_example : parse (print_blocks (spaced ∷ [])) ≡ ok (spaced ∷ [])
unfolding is_printable text_beq unmarked split is_marker trim_space no_cr
parse-print_example = parse-print spaced [] refl

no_blocks : parse [] ≡ err invalid_format
unfolding parse parse_lines split unix_endings text_beq
no_blocks = refl
