-- ===== src/Patch/RoundTrip.antt =====
-- core/mcp/patch/patch.go: patches that are written out and read again.
use xops_cli.Base.{
  Bool, List, Option, [], all, ap, arith, codes, false, join, join-split, negate, none, refl, some,
  split, split-append, text_beq, trim_space, true, ℕ, ◌!=◌, ◌&&◌, ◌++◌, ◌==◌, ◌∙◌, ◌∷◌, ◌≡◌, nat_eq,
  string_eq, text_eq,
}
use mathlib.Core.List.{append-nil, append_assoc}
use xops_cli.Patch.Text.{unix_endings}
use xops_cli.Patch.Blocks.{
  Block, ok, is_marker, ParseState, outside, in_search, in_replace, parse_line, add_block,
  parse_lines, parse,
}

-- A patch as a caller writes it
unfoldable pub print_blocks : List Block → List ℕ
print_blocks [] = []
print_blocks (b ∷ bs) =
    codes "<<<<"
    ++ (10
        ∷ (b.search
            ++ (10
                ∷ (codes "===="
                    ++ (10 ∷ (b.replace ++ (10 ∷ (codes ">>>>" ++ (10 ∷ print_blocks bs)))))))))

-- No line of the text is a marker of this character.
unfoldable pub unmarked : ℕ → List ℕ → Bool
unmarked c s = all (λ line. negate (is_marker (trim_space line) c)) (split 10 s)

unfoldable pub no_cr : List ℕ → Bool
no_cr s = all (λ c. c != 13) s

-- The block can be told from the markers, and its lines end in "\n" alone.
unfoldable pub is_printable : Block → Bool
is_printable b =
    b.search != []
    && unmarked b'=' b.search
    && unmarked b'>' b.replace
    && no_cr b.search
    && no_cr b.replace

unix-no_cr : (s : List ℕ) → no_cr s ≡ true → unix_endings s ≡ s
unfolding unix_endings no_cr
unix-no_cr [] h = refl
unix-no_cr (c ∷ []) h = refl
unix-no_cr (c ∷ d ∷ s) h = ground (arith, unix-no_cr (d ∷ s))

no_cr-append : (s t : List ℕ) → no_cr s ≡ true → no_cr t ≡ true → no_cr (s ++ t) ≡ true
unfolding no_cr
no_cr-append [] t h k = k
no_cr-append (c ∷ s) t h k = ground (arith, no_cr-append s t)

no_cr-print : (bs : List Block) → all is_printable bs ≡ true → no_cr (print_blocks bs) ≡ true
unfolding print_blocks is_printable no_cr
no_cr-print [] h = refl
no_cr-print (b ∷ bs) h =
    let rest = no_cr-print bs (ground arith) in
    no_cr-append b.search _ (ground arith) (no_cr-append b.replace _ (ground arith) rest)

parse_lines-step :
    (state : ParseState) (line : List ℕ) (next : ParseState) (block : Option Block)
    (blocks : List Block) (lines : List (List ℕ))
    → parse_line state line ≡ ok (next, block)
    → parse_lines state blocks (line ∷ lines) ≡ parse_lines next (add_block blocks block) lines
unfolding parse_lines
parse_lines-step outside line next block blocks lines h = rw (h, parse_lines) refl
parse_lines-step (in_search f) line next block blocks lines h = rw (h, parse_lines) refl
parse_lines-step (in_replace f w) line next block blocks lines h = rw (h, parse_lines) refl

abbrev plain : ℕ → List (List ℕ) → Bool
plain c = all (λ line. negate (is_marker (trim_space line) c))

read_search :
    (found : List (List ℕ)) (blocks : List Block) (ls rest : List (List ℕ))
    → plain b'=' ls ≡ true
    → parse_lines (in_search found) blocks (ls ++ (codes "====" ∷ rest))
      ≡ parse_lines (in_replace (found ++ ls) []) blocks rest
unfolding parse_line text_beq
read_search found blocks [] rest h =
    rw (append-nil found) (
      parse_lines-step (in_search found) (codes "====") (in_replace found []) none blocks rest refl)
read_search found blocks (l ∷ ls) rest h =
    rw
      (parse_lines-step (in_search found) l (in_search (found ++ l ∷ [])) none blocks
        (ls ++ (codes "====" ∷ rest)) (ground arith))
      (rw (
        read_search (found ++ l ∷ []) blocks ls rest (ground arith),
        append_assoc found (l ∷ []) ls,
      ))

read_replace :
    (found with_lines : List (List ℕ)) (blocks : List Block) (ls rest : List (List ℕ))
    → plain b'>' ls ≡ true
    → (join 10 found == []) ≡ false
    → parse_lines (in_replace found with_lines) blocks (ls ++ (codes ">>>>" ∷ rest))
      ≡ parse_lines outside
          (blocks ++ record { search = join 10 found; replace = join 10 (with_lines ++ ls) } ∷ [])
          rest
unfolding parse_line text_beq
read_replace found with_lines blocks [] rest h ne = rw (append-nil with_lines) (
    parse_lines-step (in_replace found with_lines) (codes ">>>>") outside
      (some (record { search = join 10 found; replace = join 10 with_lines })) blocks rest (rw ne))
read_replace found with_lines blocks (l ∷ ls) rest h ne =
    rw
      (parse_lines-step (in_replace found with_lines) l (in_replace found (with_lines ++ l ∷ []))
        none blocks (ls ++ (codes ">>>>" ∷ rest)) (ground arith))
      (rw (
        read_replace found (with_lines ++ l ∷ []) blocks ls rest (ground arith) ne,
        append_assoc with_lines (l ∷ []) ls,
      ))

split-print :
    (b : Block) (bs : List Block)
    → split 10 (print_blocks (b ∷ bs))
      ≡ codes "<<<<"
        ∷ (split 10 b.search
            ++ (codes "====" ∷ (split 10 b.replace ++ (codes ">>>>" ∷ split 10 (print_blocks bs)))))
unfolding print_blocks split
split-print b bs =
    let last = codes ">>>>" ++ (10 ∷ print_blocks bs) in
    let middle = codes "====" ++ (10 ∷ (b.replace ++ (10 ∷ last))) in
    let opened = split-append 10 (codes "<<<<") (b.search ++ (10 ∷ middle)) in
    let divided = split-append 10 (codes "====") (b.replace ++ (10 ∷ last)) in
    let closed = split-append 10 (codes ">>>>") (print_blocks bs) in
    opened
    ∙ ap (λ r. codes "<<<<" ∷ r)
        (split-append 10 b.search middle
          ∙ ap (λ r. split 10 b.search ++ r)
              (divided
                ∙ ap (λ r. codes "====" ∷ r)
                    (split-append 10 b.replace last ∙ ap (λ r. split 10 b.replace ++ r) closed)))

read_block :
    (b : Block) (blocks : List Block) (rest : List (List ℕ))
    → is_printable b ≡ true
    → parse_lines outside blocks (
        codes "<<<<"
        ∷ (split 10 b.search ++ (codes "====" ∷ (split 10 b.replace ++ (codes ">>>>" ∷ rest)))))
      ≡ parse_lines outside (blocks ++ b ∷ []) rest
unfolding parse_line is_printable unmarked text_beq
read_block b blocks rest h =
    let same = join-split 10 b.search in
    parse_lines-step outside (codes "<<<<") (in_search []) none blocks _ refl
    ∙ read_search [] blocks (split 10 b.search) _ (ground arith)
    ∙ read_replace (split 10 b.search) [] blocks (split 10 b.replace) rest (ground arith)
        (ground (arith, same))
    ∙ rw (same, join-split 10 b.replace) refl

read_blocks :
    (so_far bs : List Block)
    → all is_printable bs ≡ true
    → parse_lines outside so_far (split 10 (print_blocks bs))
      ≡ parse_lines outside (so_far ++ bs) []
unfolding parse_line text_beq split print_blocks
read_blocks so_far [] h =
    rw (append-nil so_far) (parse_lines-step outside [] outside none so_far [] refl)
read_blocks so_far (b ∷ bs) h = rw (split-print b bs) (
    read_block b so_far (split 10 (print_blocks bs)) (ground arith)
    ∙ read_blocks (so_far ++ b ∷ []) bs (ground arith)
    ∙ ap (λ bs'. parse_lines outside bs' []) (append_assoc so_far (b ∷ []) bs))

-- Where there is a block and each can be told from the markers, with lines that end in "\n" alone,
-- the blocks that are read from their printed form are the blocks that were printed, in order.
pub parse-print :
    (b : Block) (bs : List Block)
    → all is_printable (b ∷ bs) ≡ true
    → parse (print_blocks (b ∷ bs)) ≡ ok (b ∷ bs)
unfolding parse
parse-print b bs h =
    rw (unix-no_cr (print_blocks (b ∷ bs)) (no_cr-print (b ∷ bs) h))
      (read_blocks [] (b ∷ bs) h ∙ unfold parse_lines in refl)
