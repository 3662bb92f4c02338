-- ===== src/Patch/Occurrences.antt =====
-- core/mcp/patch/patch.go: what strings.Count says about the occurrences of a text.
use xops_cli.Base.{
  Bool-cases, List, Option-cases, [], arith, drop, has_prefix, has_prefix-append, inl, inr, length,
  refl, some, suc, true, zero, ℕ, ◌++◌, ◌∙◌, ◌≡◌, ◌≤◌, ◌∷◌, sym, nat_eq,
}
use xops_cli.Patch.Text.{count_from, count_text, cut}

drop_empty : (n : ℕ) → drop {A = ℕ} n [] ≡ []
drop_empty zero = refl
drop_empty (suc n) = refl

cut-here : (p s : List ℕ) → has_prefix s p ≡ true → cut p s ≡ some ([], drop (length p) s)
unfolding cut
cut-here p [] h = ground (arith, h, drop_empty (length p))
cut-here p (c ∷ s) h = ground (arith, h)

-- The place at which a text is cut is its first occurrence.
pub cut-first :
    (p x y before after : List ℕ)
    → cut p (x ++ (p ++ y)) ≡ some (before, after)
    → length before ≤ length x
unfolding cut
cut-first p [] y before after h =
    let e = cut-here p (p ++ y) (has_prefix-append p y) in
    let found : before ≡ [] = ground (arith, sym e ∙ h) in rw found (omega arith)
cut-first p (c ∷ x) y before after h = elim (Bool-cases (has_prefix (c ∷ (x ++ (p ++ y))) p)) [
  | inl e ↦ let found : before ≡ [] = ground (arith, e, h) in rw found (omega arith)
  | inr e ↦ elim (Option-cases (cut p (x ++ (p ++ y)))) [
    | inl f ↦ absurd (ground (arith, e, f, h))
    | inr ((b, a), f) ↦
        let found : before ≡ c ∷ b = ground (arith, e, f, h) in
        rw found (omega (arith, cut-first p x y b a f))
  ]
]

count-skip : (p s : List ℕ) (skip : ℕ) → count_from p skip s ≡ count_from p 0 (drop skip s)
unfolding count_from
count-skip p [] zero = refl
count-skip p [] (suc skip) = refl
count-skip p (c ∷ s) zero = refl
count-skip p (c ∷ s) (suc skip) = count-skip p s skip

-- A text with an occurrence has one that is counted.
count-occurrence : (c : ℕ) (p x y : List ℕ) → 1 ≤ count_from (c ∷ p) 0 (x ++ ((c ∷ p) ++ y))
unfolding count_from
count-occurrence c p [] y = ground (arith, has_prefix-append (c ∷ p) y)
count-occurrence c p (d ∷ x) y = ground (arith, count-occurrence c p x y)

-- Where one occurrence is counted, none is counted after the first.
count-after :
    (c : ℕ) (p s before after : List ℕ)
    → count_from (c ∷ p) 0 s ≡ 1
    → cut (c ∷ p) s ≡ some (before, after)
    → count_from (c ∷ p) 0 after ≡ 0
unfolding count_from cut
count-after c p [] before after n h = absurd (omega (arith, n))
count-after c p (d ∷ s) before after n h = elim (Bool-cases (has_prefix (d ∷ s) (c ∷ p))) [
  | inl e ↦
      let left : after ≡ drop (length p) s = ground (arith, e, h) in
      rw left (ground (arith, e, n, count-skip (c ∷ p) s (length p)))
  | inr e ↦ elim (Option-cases (cut (c ∷ p) s)) [
    | inl f ↦ absurd (ground (arith, e, f, h))
    | inr ((b, a), f) ↦
        let left : after ≡ a = ground (arith, e, f, h) in
        rw left (count-after c p s b a (ground (arith, e, n)) f)
  ]
]

-- Where strings.Count gives 1, no occurrence of the text stands after the first one.
pub count_text-last :
    (p s before after x y : List ℕ)
    → count_text s p ≡ 1
    → cut p s ≡ some (before, after)
    → after ≡ x ++ (p ++ y)
    → p ≡ []
unfolding count_text
count_text-last [] s before after x y n h e = refl
count_text-last (c ∷ p) s before after x y n h e =
    let none_left = count-after c p s before after n h in
    absurd (omega (arith, count-occurrence c p x y, rw e at none_left))
