-- ===== src/Patch/Text.antt =====
-- core/mcp/patch/patch.go: what it uses of Go's package strings, on texts as code points.
use xops_cli.Base.{
  Bool, List, Option, [], codes, drop, has_prefix, if◌then◌else◌, length, none, refl, some, suc,
  trim_left, trim_space, zero, ℕ, ◌&&◌, ◌++◌, ◌+◌, ◌-◌, ◌==◌, ◌||◌, ◌∷◌, ◌≡◌, nat_eq, string_eq,
  text_eq,
}

-- strings.Count, of occurrences that do not overlap; `skip` characters belong to the last one.
unfoldable pub count_from : List ℕ → ℕ → List ℕ → ℕ
unfolding has_prefix
count_from p skip [] = 0
count_from p (suc skip) (c ∷ s) = count_from p skip s
count_from p zero (c ∷ s) =
    let hit = has_prefix (c ∷ s) p in
    (if hit then 1 else 0) + count_from p (if hit then length p - 1 else 0) s

unfoldable pub count_text : List ℕ → List ℕ → ℕ
unfolding count_from
count_text s [] = length s + 1
count_text s (c ∷ p) = count_from (c ∷ p) 0 s

-- What stands before the first occurrence of a text, and after it.
unfoldable pub cut : List ℕ → List ℕ → Option (List ℕ × List ℕ)
unfolding has_prefix
cut p [] = if has_prefix [] p then some ([], []) else none
cut p (c ∷ s) =
    if has_prefix (c ∷ s) p
    then some ([], drop (length p) (c ∷ s))
    else elim (cut p s) [ none ↦ none | some (before, after) ↦ some (c ∷ before, after) ]

-- strings.Replace of the first occurrence
unfoldable pub replace_first : List ℕ → List ℕ → List ℕ → List ℕ
unfolding cut
replace_first s p q = elim (cut p s) [ none ↦ s | some (before, after) ↦ before ++ (q ++ after) ]

-- strings.ReplaceAll of "\r\n" by "\n"
unfoldable pub unix_endings : List ℕ → List ℕ
unix_endings [] = []
unix_endings (c ∷ []) = c ∷ []
unix_endings (c ∷ d ∷ s) =
    let rest = unix_endings (d ∷ s) in if c == 13 && d == 10 then rest else c ∷ rest

-- strings.ReplaceAll of "\n" by "\r\n"
unfoldable pub windows_endings : List ℕ → List ℕ
windows_endings [] = []
windows_endings (c ∷ s) = if c == 10 then 13 ∷ 10 ∷ windows_endings s else c ∷ windows_endings s

unfoldable pub is_blank : List ℕ → Bool
unfolding trim_space
is_blank line = trim_space line == []

abbrev is_indent : ℕ → Bool
is_indent c = c == 32 || c == 9

-- strings.TrimLeft of blanks and tabs
unfoldable pub trim_indent : List ℕ → List ℕ
unfolding trim_left
trim_indent s = trim_left is_indent s

-- The blanks and tabs that trim_indent takes away
unfoldable pub leading_whitespace : List ℕ → List ℕ
leading_whitespace [] = []
leading_whitespace (c ∷ s) = if is_indent c then c ∷ leading_whitespace s else []

count_overlap : count_text (codes "aaaa") (codes "aa") ≡ 2
unfolding count_text
count_overlap = refl

mixed_endings : unix_endings (codes "a\r\nb\n\r\r\n") ≡ codes "a\nb\n\r\n"
unfolding unix_endings
mixed_endings = refl
