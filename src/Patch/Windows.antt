-- ===== src/Patch/Windows.antt =====
-- core/mcp/patch/patch.go: what a block of a patch changes.
use xops_cli.Base.{
  ==→eq, Bool-cases, In, In-only, List, List-cases, Option-cases, [], all, ap, arith, drop,
  has_prefix, here, inl, inr, join, length, length-take, none, refl, some, subst, suc, sym, take,
  take-window, there, true, zero, ℕ, ◌++◌, ◌+◌, ◌<◌, ◌∙◌, ◌∷◌, ◌≡◌, ◌≤◌, ◌⊎◌, nat_eq, string_eq,
  text_eq,
}
use native.Mathlib.Nat.{add-zero}
use xops_cli.Patch.Text.{count_from, count_text, cut, is_blank}
use xops_cli.Patch.Blocks.{ok}
use xops_cli.Patch.Edit.{
  matches_trimmed, matches_here, match_indices, replacement, replace_matched_window, replace_unique,
  non_blank_range,
}

prefix-split : (s p : List ℕ) → has_prefix s p ≡ true → s ≡ p ++ drop (length p) s
unfolding has_prefix
prefix-split s [] h = refl
prefix-split [] (c ∷ p) h = absurd (ground arith)
prefix-split (d ∷ s) (c ∷ p) h =
    let same : d ≡ c = ground (arith, ==→eq d c) in
    let rest = prefix-split s p (ground arith) in cc (same, rest)

pub cut-splits :
    (p s before after : List ℕ) → cut p s ≡ some (before, after) → s ≡ before ++ (p ++ after)
unfolding cut
cut-splits [] [] before after h = ground arith
cut-splits (d ∷ p) [] before after h = absurd (ground arith)
cut-splits p (c ∷ s) before after h = elim (Bool-cases (has_prefix (c ∷ s) p)) [
  | inl e ↦ ground (arith, prefix-split (c ∷ s) p e)
  | inr e ↦ elim (Option-cases (cut p s)) [
    | inl f ↦ absurd (ground arith)
    | inr ((b, a), f) ↦ ground (arith, cut-splits p s b a f)
  ]
]

-- A text without an occurrence has none to count.
count-absent : (c : ℕ) (p s : List ℕ) → cut (c ∷ p) s ≡ none → count_from (c ∷ p) 0 s ≡ 0
unfolding cut count_from
count-absent c p [] h = refl
count-absent c p (d ∷ s) h = elim (Option-cases (cut (c ∷ p) s)) [
  | inl e ↦ ground (arith, count-absent c p s e)
  | inr (q, e) ↦ absurd (ground arith)
]

pub cut-found : (s p : List ℕ) → count_text s p ≡ 1 → (q : List ℕ × List ℕ) × (cut p s ≡ some q)
unfolding count_text cut
cut-found [] [] h = (([], []), refl)
cut-found (d ∷ s) [] h = absurd (omega arith)
cut-found s (c ∷ p) h = elim (Option-cases (cut (c ∷ p) s)) [
  | inl e ↦ absurd (omega (arith, count-absent c p s e))
  | inr q ↦ q
]

-- The first of the windows that match
first-match :
    (start : ℕ) (search lines : List (List ℕ)) (i : ℕ) (others : List ℕ)
    → match_indices start search lines ≡ i ∷ others
    → (k : ℕ) × (i ≡ start + k) × (k ≤ length lines) × (matches_here search (drop k lines) ≡ true)
unfolding match_indices
first-match start search [] i others h = elim (Bool-cases (matches_here search [])) [
  | inl e ↦ (0, ground arith, omega arith, e)
  | inr e ↦ absurd (ground arith)
]
first-match start search (l ∷ lines) i others h =
    elim (Bool-cases (matches_here search (l ∷ lines))) [
      | inl e ↦ (0, ground arith, omega arith, e)
      | inr e ↦
          let (k, p, q, m) = first-match (suc start) search lines i others (ground arith) in
          (suc k, omega arith, omega arith, m)
    ]

-- Every window that matches is found.
match-found :
    (start : ℕ) (search lines : List (List ℕ)) (k : ℕ)
    → k ≤ length lines
    → matches_here search (drop k lines) ≡ true
    → In (start + k) (match_indices start search lines)
unfolding match_indices
match-found start search [] zero h m = rw (m, add-zero start) here
match-found start search [] (suc k) h m = absurd (omega arith)
match-found start search (l ∷ lines) zero h m = rw (m, add-zero start) here
match-found start search (l ∷ lines) (suc k) h m =
    let later =
      subst (λ i. In i (match_indices (suc start) search lines)) (omega arith)
        (match-found (suc start) search lines k (omega arith) m) in
    elim (Bool-cases (matches_here search (l ∷ lines))) [
      | inl e ↦ rw e (there later)
      | inr e ↦ rw e later
    ]

range-last :
    (i f l : ℕ) (lines : List (List ℕ)) (f' l' : ℕ)
    → non_blank_range i (some (f, l)) lines ≡ some (f', l')
    → (f' ≡ f)
      × ((l' ≡ l) × (all is_blank lines ≡ true)
          ⊎ (k : ℕ) × (l' ≡ i + k)
            × (k < length lines)
            × (all is_blank (drop (suc k) lines) ≡ true))
unfolding non_blank_range
range-last i f l [] f' l' h = (ground arith, inl (ground arith, refl))
range-last i f l (line ∷ lines) f' l' h = elim (Bool-cases (is_blank line)) [
  | inl b ↦
      let (p, q) = range-last (suc i) f l lines f' l' (ground arith) in
      (
        p,
        elim q [
          | inl (e, a) ↦ inl (e, rw b a)
          | inr (k, e, lt, a) ↦ inr (suc k, omega arith, omega arith, a)
        ],
      )
  | inr b ↦
      let (p, q) = range-last (suc i) f i lines f' l' (ground arith) in
      (
        p,
        elim q [
          | inl (e, a) ↦ inr (0, omega arith, omega arith, a)
          | inr (k, e, lt, a) ↦ inr (suc k, omega arith, omega arith, a)
        ],
      )
]

pub range-blank :
    (i : ℕ) (lines : List (List ℕ)) (f l : ℕ)
    → non_blank_range i none lines ≡ some (f, l)
    → (a : ℕ) × (b : ℕ) × (f ≡ i + a)
      × (l ≡ i + b)
      × (a ≤ b)
      × (all is_blank (take a lines) ≡ true)
      × (all is_blank (drop (suc b) lines) ≡ true)
unfolding non_blank_range
range-blank i [] f l h = absurd (ground arith)
range-blank i (line ∷ lines) f l h = elim (Bool-cases (is_blank line)) [
  | inl b ↦
      let (x, y, p, q, le, u, v) = range-blank (suc i) lines f l (ground arith) in
      (suc x, suc y, omega arith, omega arith, omega arith, rw b u, v)
  | inr b ↦
      let (p, q) = range-last (suc i) i i lines f l (ground arith) in
      elim q [
        | inl (e, a) ↦ (0, 0, omega arith, omega arith, omega arith, refl, a)
        | inr (k, e, lt, a) ↦ (0, suc k, omega arith, omega arith, omega arith, refl, a)
      ]
]

-- The only window of the lines that matches these ones
pub record Window (content search : List (List ℕ)) : Type 0 where
  pub before : List (List ℕ)
  pub matched : List (List ℕ)
  pub after : List (List ℕ)
  pub whole : content ≡ before ++ (matched ++ after)
  pub same_length : length matched ≡ length search
  pub matches : matches_trimmed matched search ≡ true
  pub only :
      (k : ℕ) → k ≤ length content → matches_here search (drop k content) ≡ true → k ≡ length before

matches_here-parts :
    (search lines : List (List ℕ))
    → matches_here search lines ≡ true
    → (length search ≤ length lines) × (matches_trimmed (take (length search) lines) search ≡ true)
unfolding matches_here
matches_here-parts search lines h = ground arith

-- The window at a match that has no other beside it
match-Window :
    (content search : List (List ℕ)) (i : ℕ)
    → match_indices 0 search content ≡ i ∷ []
    → (w : Window content search) × (w.before ≡ take i content)
      × (w.matched ≡ take (length search) (drop i content))
      × (w.after ≡ drop (i + length search) content)
match-Window content search i e =
    let (k, p, q, m) = first-match 0 search content i [] e in
    let at : k ≡ i = omega arith in
    let (long, same) = matches_here-parts search (drop k content) m in
    (
      record {
        before = take i content;
        matched = take (length search) (drop i content);
        after = drop (i + length search) content;
        whole = take-window i (length search) content;
        same_length = rw (← at) (length-take (length search) (drop k content) long);
        matches = rw (← at) same;
        only = λ j le here_too.
            let found =
              subst (λ xs. In j xs) e
                (subst (λ t. In t (match_indices 0 search content)) (omega arith)
                  (match-found 0 search content j le here_too)) in
            In-only found ∙ sym (length-take i content (omega arith));
      },
      refl,
      refl,
      refl,
    )

pub replace_unique-Window :
    (content search : List (List ℕ)) (replace text : List ℕ)
    → replace_unique content search replace ≡ ok (some text)
    → (w : Window content search) × (text
        ≡ join 10 (w.before ++ (replacement w.matched search replace ++ w.after)))
unfolding replace_unique replace_matched_window
replace_unique-Window content search replace text h =
    elim (List-cases (match_indices 0 search content)) [
      | inl e ↦ absurd (ground arith)
      | inr (i, others, e) ↦
          let alone : others ≡ [] = ground (arith, ==→eq others []) in
          let only : match_indices 0 search content ≡ i ∷ [] = e ∙ ap (◌∷◌ i) alone in
          let (w, b, m, a) = match-Window content search i only in
          let out : text
              ≡ join 10 (
                  take i content
                  ++ (replacement (take (length search) (drop i content)) search replace
                      ++ drop (i + length search) content)) =
            ground (arith, only) in
          (w, rw (b, m, a) out)
    ]
