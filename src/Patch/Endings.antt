-- ===== src/Patch/Endings.antt =====
-- core/mcp/patch/patch.go: files whose lines end in "\r\n".
use xops_cli.Base.{
  ==→eq, Bool-cases, List, [], arith, false, has_prefix, inl, inr, refl, true, ℕ, ◌<◌, ◌==◌, ◌∷◌,
  ◌≡◌, nat_eq, string_eq, text_eq,
}
use xops_cli.Patch.Text.{count_from, count_text, unix_endings, windows_endings}
use xops_cli.Patch.Blocks.{PatchResult-cases, PatchResult, ok, err, parse}
use xops_cli.Patch.Edit.{Result, uses_crlf, apply, apply_blocks}

abbrev crlf : List ℕ
crlf = 13 ∷ 10 ∷ []

abbrev newline : List ℕ
newline = 10 ∷ []

windows-start : (s : List ℕ) → has_prefix (windows_endings s) newline ≡ false
unfolding windows_endings has_prefix
windows-start [] = refl
windows-start (c ∷ s) = ground arith

count-newline : (s : List ℕ) → count_from newline 0 (windows_endings s) ≡ count_from newline 0 s
unfolding count_from windows_endings has_prefix
count-newline [] = refl
count-newline (c ∷ s) = ground (arith, count-newline s)

count-crlf : (s : List ℕ) → count_from crlf 0 (windows_endings s) ≡ count_from newline 0 s
unfolding count_from windows_endings has_prefix
count-crlf [] = refl
count-crlf (c ∷ s) = ground (arith, count-crlf s, windows-start s)

-- Where no "\n" follows, a character stays.
unix-cons :
    (c : ℕ) (s : List ℕ) → has_prefix s newline ≡ false → unix_endings (c ∷ s) ≡ c ∷ unix_endings s
unfolding unix_endings has_prefix
unix-cons c [] h = refl
unix-cons c (d ∷ s) h = ground arith

unix-crlf :
    (s : List ℕ) → has_prefix s newline ≡ false → unix_endings (13 ∷ 10 ∷ s) ≡ 10 ∷ unix_endings s
unfolding unix_endings
unix-crlf s h = unix-cons 10 s h

pub unix-windows : (s : List ℕ) → unix_endings (windows_endings s) ≡ s
unfolding windows_endings
unix-windows [] = unfold unix_endings in refl
unix-windows (c ∷ s) = elim (Bool-cases (c == 10)) [
  | inl e ↦ rw (e, unix-crlf (windows_endings s) (windows-start s), unix-windows s, ==→eq c 10 e)
  | inr e ↦ rw (e, unix-cons c (windows_endings s) (windows-start s), unix-windows s)
]

-- The result for the same file with "\r\n" for each "\n"
abbrev pub with_crlf : PatchResult Result → PatchResult Result
with_crlf (err e) = err e
with_crlf (ok r) = ok (record r { content = windows_endings r.content })

uses_crlf-windows : (s : List ℕ) → 0 < count_text s newline → uses_crlf (windows_endings s) ≡ true
unfolding uses_crlf count_text
uses_crlf-windows s h = ground (arith, count-crlf s, count-newline s)

no-uses_crlf : (s : List ℕ) → count_text s crlf ≡ 0 → uses_crlf s ≡ false
unfolding uses_crlf
no-uses_crlf s h = ground arith

-- A file with lines that end in "\n" alone, and the same one with "\r\n" instead, are patched
-- alike: the same patches fail with the same errors, and where one succeeds the other one's
-- result is it with "\r\n" for each "\n", with as many blocks and as many fuzzy ones.
pub apply-windows :
    (content raw : List ℕ)
    → 0 < count_text content newline
    → count_text content crlf ≡ 0
    → apply (windows_endings content) raw ≡ with_crlf (apply content raw)
unfolding apply
apply-windows content raw some_lines no_crlf =
    let is_windows = uses_crlf-windows content some_lines in
    let is_unix = no-uses_crlf content no_crlf in
    elim (PatchResult-cases (parse raw)) [
      | inl (x, e) ↦ rw (apply, e)
      | inr (bs, e) ↦
          rw (apply, e, is_windows, is_unix, unix-windows content)
            (elim (PatchResult-cases (apply_blocks content 0 bs)) [
              | inl (x, f) ↦ rw f
              | inr (r, f) ↦ rw (f, is_windows, is_unix)
            ])
    ]
