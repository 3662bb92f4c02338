-- ===== src/Patch/Edits.antt =====
-- core/mcp/patch/patch.go: how a block that is applied changes the text.
use xops_cli.Base.{
  ==→eq, Bool, Bool-cases, List, Option-cases, [], all, ap, arith, drop, false, inl, inr, join,
  length, subst, ◌≤◌, none, refl, some, split, suc, sym, take, take-middle, true, ℕ, ◌++◌, ◌+◌,
  ◌==◌, ◌∙◌, ◌≡◌, ◌⊎◌, nat_eq, string_eq, text_eq,
}
use mathlib.Core.List.{append-nil}
use xops_cli.Patch.Text.{count_text, cut, replace_first, is_blank}
use xops_cli.Patch.Occurrences.{count_text-last, cut-first}
use xops_cli.Patch.Blocks.{PatchResult-cases, Block, ok}
use xops_cli.Patch.Edit.{
  replacement, replace_unique, apply_stage2, non_blank_range, apply_stage2b, apply_block,
}
use xops_cli.Patch.Windows.{cut-splits, cut-found, range-blank, Window, replace_unique-Window}

-- The lines of a search block that count: all of them, or those without the blank ones at its
-- ends
pub record Needle (search needle : List (List ℕ)) : Type 0 where
  pub above : List (List ℕ)
  pub below : List (List ℕ)
  pub whole : search ≡ above ++ (needle ++ below)
  pub above_blank : all is_blank above ≡ true
  pub below_blank : all is_blank below ≡ true

-- The replacement stands in place of the first occurrence of the search text, and every other
-- occurrence begins within it: no other stands before it or after it. An empty search text occurs
-- everywhere.
pub record ExactEdit (content : List ℕ) (block : Block) (text : List ℕ) : Type 0 where
  pub before : List ℕ
  pub after : List ℕ
  pub whole : content ≡ before ++ (block.search ++ after)
  pub first : (x y : List ℕ) → content ≡ x ++ (block.search ++ y) → length before ≤ length x
  pub last : (x y : List ℕ) → after ≡ x ++ (block.search ++ y) → block.search ≡ []
  pub result : text ≡ before ++ (block.replace ++ after)

pub record LinesEdit (content : List ℕ) (block : Block) (text : List ℕ) : Type 0 where
  pub needle : List (List ℕ)
  pub from_search : Needle (split 10 block.search) needle
  pub window : Window (split 10 content) needle
  pub result :
      text
      ≡ join 10 (window.before ++ (replacement window.matched needle block.replace ++ window.after))

replace_unique-LinesEdit :
    (content : List ℕ) (block : Block) (needle : List (List ℕ)) (text : List ℕ)
    → Needle (split 10 block.search) needle
    → replace_unique (split 10 content) needle block.replace ≡ ok (some text)
    → LinesEdit content block text
replace_unique-LinesEdit content block needle text from h =
    let (w, e) = replace_unique-Window (split 10 content) needle block.replace text h in
    record { needle = needle; from_search = from; window = w; result = e }

whole-Needle : (search_lines : List (List ℕ)) → Needle search_lines search_lines
whole-Needle search_lines = record {
  above = [];
  below = [];
  whole = sym (append-nil search_lines);
  above_blank = refl;
  below_blank = refl;
}

stage2-LinesEdit :
    (content : List ℕ) (block : Block) (text : List ℕ)
    → apply_stage2 (split 10 content) (split 10 block.search) block.replace ≡ ok (some text)
    → LinesEdit content block text
unfolding apply_stage2
stage2-LinesEdit content block text h =
    replace_unique-LinesEdit content block (split 10 block.search) text
      (whole-Needle (split 10 block.search)) (ground arith)

stage2b-LinesEdit :
    (content : List ℕ) (block : Block) (text : List ℕ)
    → apply_stage2b (split 10 content) (split 10 block.search) block.replace ≡ ok text
    → LinesEdit content block text
unfolding apply_stage2b
stage2b-LinesEdit content block text h =
    let search = split 10 block.search in
    elim (Option-cases (non_blank_range 0 none search)) [
      | inl e ↦ absurd (ground arith)
      | inr ((f, l), e) ↦
          let (a, b, p, q, le, above, below) = range-blank 0 search f l e in
          let first : f ≡ a = omega arith in
          let last : l + 1 ≡ suc b = omega arith in
          let needle = drop f (take (l + 1) search) in
          let edges : Needle search needle = record {
            above = take a search;
            below = drop (suc b) search;
            whole = rw (first, last) (take-middle a (suc b) search (omega arith));
            above_blank = above;
            below_blank = below;
          } in
          replace_unique-LinesEdit content block needle text edges (ground (arith, e))
    ]

-- A block that is applied to a text changes one place of it. Either the place is the first
-- occurrence of the block's search text, which no further one follows, though one may overlap it,
-- and there the replacement stands instead; or the search block's lines,
-- less the blank ones at its ends or not, match one window of the text's lines and no other, but for
-- the white space around each line, and the aligned replacement stands instead of that window. All
-- else is unchanged, and only the second case is reported as fuzzy.
pub apply_block-edits :
    (content : List ℕ) (block : Block) (text : List ℕ) (fuzzy : Bool)
    → apply_block content block ≡ ok (text, fuzzy)
    → (fuzzy ≡ false) × ExactEdit content block text ⊎ (fuzzy ≡ true) × LinesEdit content block text
unfolding apply_block
apply_block-edits content block text fuzzy h =
    elim (Bool-cases (count_text content block.search == 1)) [
      | inl once ↦
          let one : count_text content block.search ≡ 1 =
            ground (arith, ==→eq (count_text content block.search) 1) in
          let ((before, after), c) = cut-found content block.search one in
          inl (
            ground arith,
            record {
              before = before;
              after = after;
              whole = cut-splits block.search content before after c;
              first = λ x y e.
                  cut-first block.search x y before after
                    (subst (λ t. cut block.search t ≡ some (before, after)) e c);
              last = λ x y e. count_text-last block.search content before after x y one c e;
              result = unfold replace_first in ground (arith, c);
            },
          )
      | inr many ↦
          let stage2 = apply_stage2 (split 10 content) (split 10 block.search) block.replace in
          let stage2b = apply_stage2b (split 10 content) (split 10 block.search) block.replace in
          elim (PatchResult-cases stage2) [
            | inl (e, p) ↦ absurd (ground (arith, p))
            | inr (some t, p) ↦
                let same : t ≡ text = ground (arith, p) in
                inr (
                  ground (arith, p),
                  stage2-LinesEdit content block text (p ∙ ap (λ u. ok (some u)) same),
                )
            | inr (none, p) ↦ elim (PatchResult-cases stage2b) [
              | inl (e, q) ↦ absurd (ground (arith, p, q))
              | inr (t, q) ↦
                  let same : t ≡ text = ground (arith, p, q) in
                  inr (ground (arith, p, q), stage2b-LinesEdit content block text (q ∙ ap ok same))
            ]
          ]
    ]
