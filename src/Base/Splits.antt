-- ===== src/Base/Splits.antt =====
-- What the program uses of Go's packages strings and path on texts cut at a character.
use Prim.Native.Nat.{ℕ}
use mathlib.Core.Path.{◌≡◌, refl, ap, ◌∙◌}
use mathlib.Core.Logic.{◌≢◌, inl, inr}
use mathlib.Core.Bool.{Bool, true, false, ◌||◌}
use mathlib.Core.List.{List, [], ◌∷◌, ◌++◌, reverse}
use native.Mathlib.Omega.{arith}
use xops_cli.Base.Tests.{◌==◌, nat_eq, if◌then◌else◌, Bool-cases, ==→eq}
use xops_cli.Base.Lists.{List-cases}
use xops_cli.Base.Strings.{codes, text_beq, text_eq}

extend_first : ℕ → List (List ℕ) → List (List ℕ)
extend_first c [] = (c ∷ []) ∷ []
extend_first c (w ∷ ws) = (c ∷ w) ∷ ws

-- strings.Split at one character: never empty
unfoldable pub split : ℕ → List ℕ → List (List ℕ)
unfolding extend_first
split sep [] = [] ∷ []
split sep (c ∷ s) = let rest = split sep s in if c == sep then [] ∷ rest else extend_first c rest

-- strings.Join with one character
unfoldable pub join : ℕ → List (List ℕ) → List ℕ
join sep [] = []
join sep (w ∷ []) = w
join sep (w ∷ v ∷ ws) = w ++ (sep ∷ join sep (v ∷ ws))

extend_first-append :
    (c : ℕ) (xs ys : List (List ℕ)) → xs ≢ [] → extend_first c (xs ++ ys) ≡ extend_first c xs ++ ys
unfolding extend_first
extend_first-append c [] ys h = absurd (h refl)
extend_first-append c (x ∷ xs) ys h = refl

split-ne-nil : (sep : ℕ) (s : List ℕ) → split sep s ≢ []
unfolding split
split-ne-nil sep [] = λ h. cc
split-ne-nil sep (c ∷ s) = λ h. elim (Bool-cases (c == sep)) [
  | inl e ↦ ground arith
  | inr e ↦ elim (List-cases (split sep s)) [
    | inl f ↦ split-ne-nil sep s f
    | inr (w, ws, f) ↦ ground (arith, f)
  ]
]

pub split-append :
    (sep : ℕ) (s t : List ℕ) → split sep (s ++ (sep ∷ t)) ≡ split sep s ++ split sep t
unfolding split
split-append sep [] t = ground arith
split-append sep (c ∷ s) t = elim (Bool-cases (c == sep)) [
  | inl e ↦ rw (e, split-append sep s t)
  | inr e ↦
      rw (e, split-append sep s t)
        (extend_first-append c (split sep s) (split sep t) (split-ne-nil sep s))
]

join-extend_first :
    (sep c : ℕ) (xs : List (List ℕ)) → xs ≢ [] → join sep (extend_first c xs) ≡ c ∷ join sep xs
unfolding extend_first join
join-extend_first sep c [] h = absurd (h refl)
join-extend_first sep c (x ∷ []) h = refl
join-extend_first sep c (x ∷ y ∷ xs) h = refl

pub join-split : (sep : ℕ) (s : List ℕ) → join sep (split sep s) ≡ s
unfolding split join
join-split sep [] = refl
join-split sep (c ∷ s) = elim (Bool-cases (c == sep)) [
  | inl e ↦ elim (List-cases (split sep s)) [
    | inl f ↦ absurd (split-ne-nil sep s f)
    | inr (w, ws, f) ↦ ground (arith, e, f, join-split sep s, ==→eq c sep)
  ]
  | inr e ↦
      rw e
        (join-extend_first sep c (split sep s) (split-ne-nil sep s) ∙ ap (◌∷◌ c) (join-split sep s))
]

-- path.Clean. The components come in order; the stack of those kept is reversed.
pop_component : Bool → List (List ℕ) → List (List ℕ)
pop_component rooted [] = if rooted then [] else codes ".." ∷ []
pop_component rooted (top ∷ stack) = if top == codes ".." then codes ".." ∷ top ∷ stack else stack

push_component : Bool → List ℕ → List (List ℕ) → List (List ℕ)
unfolding pop_component
push_component rooted c stack =
    if c == [] || c == codes "."
    then stack
    else if c == codes ".."
    then pop_component rooted stack
    else c ∷ stack

resolve_components : Bool → List (List ℕ) → List (List ℕ) → List (List ℕ)
unfolding push_component
resolve_components rooted [] stack = reverse stack
resolve_components rooted (c ∷ cs) stack =
    resolve_components rooted cs (push_component rooted c stack)

unfoldable pub path_clean : List ℕ → List ℕ
unfolding resolve_components split join text_beq
path_clean [] = codes "."
path_clean (c ∷ s) =
    if c == b'/'
    then b'/' ∷ join b'/' (resolve_components true (split b'/' s) [])
    else or_dot (join b'/' (resolve_components false (split b'/' (c ∷ s)) []))
  where
    or_dot : List ℕ → List ℕ
    or_dot [] = codes "."
    or_dot (d ∷ t) = d ∷ t

path_clean_dots : path_clean (codes "/a/./b/../../etc//x/") ≡ codes "/etc/x"
unfolding path_clean
path_clean_dots = refl

path_clean_relative : path_clean (codes "../a/..") ≡ codes ".."
unfolding path_clean
path_clean_relative = refl
