-- ===== src/Base/Strings.antt =====
-- Texts as code points, for code that walks them, and what the program uses of Go's packages
-- strings and path on them.
use Prim.Native.Nat.{ℕ}
use Prim.Native.Char.{code}
use Prim.Native.String.{String}
use Prim.Native.String
use mathlib.Core.Path.{◌≡◌, refl}
use mathlib.Core.Logic.{◌↔◌}
use mathlib.Core.Bool.{Bool, true, false, ◌&&◌, ◌||◌}
use mathlib.Core.List.{List, [], ◌∷◌, ◌++◌, reverse}
use native.Mathlib.Omega.{arith}
use xops_cli.Base.Tests.{Eq, ◌==◌, nat_eq, if◌then◌else◌, leb}
use xops_cli.Base.Lists.{any}

-- The code points of a text: its bytes, if it is ASCII.
abbrev pub codes : String → List ℕ
codes String.[] = []
codes (String.◌∷◌ c s) = code c ∷ codes s

-- len of a Go string: its bytes
abbrev pub byte_length : String → ℕ
byte_length s = String.len s

unfoldable pub text_beq : List ℕ → List ℕ → Bool
text_beq [] [] = true
text_beq [] (d ∷ t) = false
text_beq (c ∷ s) [] = false
text_beq (c ∷ s) (d ∷ t) = c == d && text_beq s t

text_beq→eq : (s t : List ℕ) → text_beq s t ≡ true → s ≡ t
unfolding text_beq
text_beq→eq [] [] h = refl
text_beq→eq [] (d ∷ t) h = cc
text_beq→eq (c ∷ s) [] h = cc
text_beq→eq (c ∷ s) (d ∷ t) h = ground (arith, text_beq→eq s t)

text_beq_refl : (s : List ℕ) → text_beq s s ≡ true
unfolding text_beq
text_beq_refl [] = refl
text_beq_refl (c ∷ s) = ground (arith, text_beq_refl s)

pub text_beq_iff : (s t : List ℕ) → (text_beq s t ≡ true) ↔ (s ≡ t)
text_beq_iff s t = (text_beq→eq s t, λ p. rw p (text_beq_refl t))

instance abbrev pub text_eq : Eq (List ℕ)
text_eq = record { beq = text_beq; beq_iff = text_beq_iff }

-- strings.HasPrefix
unfoldable pub has_prefix : List ℕ → List ℕ → Bool
has_prefix s [] = true
has_prefix [] (p ∷ ps) = false
has_prefix (c ∷ s) (p ∷ ps) = c == p && has_prefix s ps

pub has_prefix-append : (s t : List ℕ) → has_prefix (s ++ t) s ≡ true
unfolding has_prefix
has_prefix-append [] t = refl
has_prefix-append (c ∷ s) t = ground (arith, has_prefix-append s t)

-- strings.Contains
unfoldable pub has_infix : List ℕ → List ℕ → Bool
unfolding has_prefix
has_infix [] p = has_prefix [] p
has_infix (c ∷ s) p = has_prefix (c ∷ s) p || has_infix s p

-- unicode.IsSpace
unfoldable pub is_space : ℕ → Bool
is_space c =
    (leb 9 c && leb c 13)
    || c == 32
    || c == 0x85
    || c == 0xa0
    || c == 0x1680
    || (leb 0x2000 c && leb c 0x200a)
    || c == 0x2028
    || c == 0x2029
    || c == 0x202f
    || c == 0x205f
    || c == 0x3000

-- strings.TrimLeftFunc and strings.TrimRightFunc
unfoldable pub trim_left : (ℕ → Bool) → List ℕ → List ℕ
trim_left p [] = []
trim_left p (c ∷ s) = if p c then trim_left p s else c ∷ s

unfoldable pub trim_right : (ℕ → Bool) → List ℕ → List ℕ
unfolding trim_left
trim_right p s = reverse (trim_left p (reverse s))

unfoldable pub trim_space : List ℕ → List ℕ
unfolding trim_left trim_right is_space
trim_space s = trim_right is_space (trim_left is_space s)

-- strings.ContainsAny
unfoldable pub contains_any : List ℕ → List ℕ → Bool
contains_any s set = any (λ c. any (λ d. c == d) set) s

-- strings.ReplaceAll of one character by another
unfoldable pub replace_char : ℕ → ℕ → List ℕ → List ℕ
replace_char from to [] = []
replace_char from to (c ∷ s) = (if c == from then to else c) ∷ replace_char from to s

trim_space_text : trim_space (codes " \ta b ") ≡ codes "a b"
unfolding trim_space
trim_space_text = refl
