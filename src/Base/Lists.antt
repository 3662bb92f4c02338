-- ===== src/Base/Lists.antt =====
-- Lists measured by native numbers, under the library's names.
use Prim.Native.Nat.{ℕ, zero, suc, ◌+◌, ◌≤◌}
use mathlib.Core.Path.{◌≡◌, refl, ap, sym}
use mathlib.Core.Logic.{◌⊎◌, inl, inr}
use mathlib.Core.Bool.{Bool, true, false, ◌&&◌, ◌||◌}
use mathlib.Core.List.{List, [], ◌∷◌, ◌++◌, map}
use native.Mathlib.Nat.{zero-add, suc-add}
use native.Mathlib.Omega.{arith}
use xops_cli.Base.Tests.{Eq, ◌==◌, if◌then◌else◌, Bool-cases}

module _ {ℓ} {A : Type ℓ} where
  abbrev pub length : List A → ℕ
  length [] = 0
  length (x ∷ xs) = suc (length xs)

  abbrev pub take : ℕ → List A → List A
  take zero xs = []
  take (suc n) [] = []
  take (suc n) (x ∷ xs) = x ∷ take n xs

  abbrev pub drop : ℕ → List A → List A
  drop zero xs = xs
  drop (suc n) [] = []
  drop (suc n) (x ∷ xs) = drop n xs

  abbrev pub any : (A → Bool) → List A → Bool
  any p [] = false
  any p (x ∷ xs) = p x || any p xs

  abbrev pub all : (A → Bool) → List A → Bool
  all p [] = true
  all p (x ∷ xs) = p x && all p xs

  -- How many entries pass a test.
  abbrev pub count : (A → Bool) → List A → ℕ
  count p [] = 0
  count p (x ∷ xs) = if p x then suc (count p xs) else count p xs

  pub length-append : (xs ys : List A) → length (xs ++ ys) ≡ length xs + length ys
  length-append [] ys = omega arith
  length-append (x ∷ xs) ys = omega (arith, length-append xs ys)

  pub count-append : (p : A → Bool) (xs ys : List A) → count p (xs ++ ys) ≡ count p xs + count p ys
  count-append p [] ys = omega arith
  count-append p (x ∷ xs) ys = ground (arith, count-append p xs ys)

  -- Every entry has the property; computes to tuples.
  abbrev pub All {κ} : (A → Type κ) → List A → Type κ
  All P [] = Unit
  All P (x ∷ xs) = P x × All P xs

module _ {ℓ} {A : Type ℓ} ⦃e : Eq A⦄ where
  -- slices.Contains
  abbrev pub contains : List A → A → Bool
  contains [] a = false
  contains (x ∷ xs) a = x == a || contains xs a

pub length-map {ℓ κ} :
    {A : Type ℓ} {B : Type κ} (f : A → B) (xs : List A) → length (map f xs) ≡ length xs
length-map f [] = refl
length-map f (x ∷ xs) = omega (arith, length-map f xs)

-- Membership that can be matched.
pub data In {ℓ} {A : Type ℓ} (a : A) : List A → Type ℓ where
  here : {xs : List A} → In a (a ∷ xs)
  there : {x : A} {xs : List A} → In a xs → In a (x ∷ xs)

module _ {ℓ} {A : Type ℓ} (p : A → Bool) where
  pub any-In : (xs : List A) → any p xs ≡ true → (x : A) × In x xs × (p x ≡ true)
  any-In [] h = cc
  any-In (x ∷ xs) h = elim (Bool-cases (p x)) [
    | inl e ↦ (x, here, e)
    | inr e ↦ let (y, m, q) = any-In xs (rw e at h) in (y, there m, q)
  ]

  pub In-any : {x : A} {xs : List A} → In x xs → p x ≡ true → any p xs ≡ true
  In-any (here {xs = xs}) e = rw e
  In-any (there {x = y} {xs = xs} m) e = ground (arith, In-any m e)

  pub any-false-In : {x : A} {xs : List A} → any p xs ≡ false → In x xs → p x ≡ false
  any-false-In h (here {xs = xs}) = ground arith
  any-false-In h (there {x = y} {xs = xs} m) = any-false-In (ground arith) m

  pub In-any-false : (xs : List A) → ((x : A) → In x xs → p x ≡ false) → any p xs ≡ false
  In-any-false [] h = refl
  In-any-false (x ∷ xs) h = ground (arith, h x here, In-any-false xs (λ y m. h y (there m)))

  pub all-In : {x : A} {xs : List A} → all p xs ≡ true → In x xs → p x ≡ true
  all-In h (here {xs = xs}) = ground arith
  all-In h (there {x = y} {xs = xs} m) = all-In (ground arith) m

  pub In-all : (xs : List A) → ((x : A) → In x xs → p x ≡ true) → all p xs ≡ true
  In-all [] h = refl
  In-all (x ∷ xs) h = ground (arith, h x here, In-all xs (λ y m. h y (there m)))

pub In-map {ℓ ℓ'} :
    {A : Type ℓ} {B : Type ℓ'} (f : A → B) (xs : List A) {y : B}
    → In y (map f xs)
    → (x : A) × In x xs × (f x ≡ y)
In-map f [] m = elim m [ ]
In-map f (x ∷ xs) here = (x, here, refl)
In-map f (x ∷ xs) (there m) = let (z, i, e) = In-map f xs m in (z, there i, e)

pub In-append_left {ℓ} :
    {A : Type ℓ} {a : A} {xs : List A} (ys : List A) → In a xs → In a (xs ++ ys)
In-append_left ys here = here
In-append_left ys (there m) = there (In-append_left ys m)

pub In-append_right {ℓ} :
    {A : Type ℓ} {a : A} (xs : List A) {ys : List A} → In a ys → In a (xs ++ ys)
In-append_right [] m = m
In-append_right (x ∷ xs) m = there (In-append_right xs m)

pub In-append {ℓ} :
    {A : Type ℓ} {a : A} (xs : List A) {ys : List A} → In a (xs ++ ys) → In a xs ⊎ In a ys
In-append [] m = inr m
In-append (x ∷ xs) here = inl here
In-append (x ∷ xs) (there m) = elim (In-append xs m) [ inl l ↦ inl (there l) | inr r ↦ inr r ]

module _ {ℓ} {A : Type ℓ} where
  pub take-append-drop : (n : ℕ) (xs : List A) → take n xs ++ drop n xs ≡ xs
  take-append-drop zero xs = refl
  take-append-drop (suc n) [] = refl
  take-append-drop (suc n) (x ∷ xs) = ap (◌∷◌ x) (take-append-drop n xs)

  pub drop-drop : (n k : ℕ) (xs : List A) → drop n (drop k xs) ≡ drop (k + n) xs
  drop-drop n zero xs = rw (zero-add n)
  drop-drop zero (suc k) [] = rw (suc-add k 0) refl
  drop-drop (suc n) (suc k) [] = rw (suc-add k (suc n)) refl
  drop-drop n (suc k) (x ∷ xs) = rw (suc-add k n) (drop-drop n k xs)

  pub length-take : (n : ℕ) (xs : List A) → n ≤ length xs → length (take n xs) ≡ n
  length-take zero xs h = refl
  length-take (suc n) [] h = absurd (omega arith)
  length-take (suc n) (x ∷ xs) h = omega (arith, length-take n xs (omega arith))

  pub take-middle :
      (a n : ℕ) (xs : List A) → a ≤ n → xs ≡ take a xs ++ (drop a (take n xs) ++ drop n xs)
  take-middle zero n xs h = sym (take-append-drop n xs)
  take-middle (suc a) zero xs h = absurd (omega arith)
  take-middle (suc a) (suc n) [] h = refl
  take-middle (suc a) (suc n) (x ∷ xs) h = ap (◌∷◌ x) (take-middle a n xs (omega arith))

  pub List-cases : (xs : List A) → (xs ≡ []) ⊎ ((y : A) × (ys : List A) × (xs ≡ y ∷ ys))
  List-cases [] = inl refl
  List-cases (x ∷ xs) = inr (x, xs, refl)

  -- The entries around a window
  pub take-window :
      (i n : ℕ) (xs : List A) → xs ≡ take i xs ++ (take n (drop i xs) ++ drop (i + n) xs)
  take-window i n xs =
      rw (← drop-drop n i xs, take-append-drop n (drop i xs), take-append-drop i xs)

  pub In-only : {a x : A} → In a (x ∷ []) → a ≡ x
  In-only here = refl
  In-only (there m) = elim m [ ]
