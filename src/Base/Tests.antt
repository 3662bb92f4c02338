-- ===== src/Base/Tests.antt =====
-- Boolean tests on numbers and texts, one equality test for every type, and a case split.
use Prim.Native.Nat.{ℕ, ◌≤◌, ◌<◌, compare, Ordering}
use Prim.Native.String.{String}
use mathlib.Core.Path.{◌≡◌, refl}
use mathlib.Core.Logic.{◌↔◌, ◌⊎◌, inl, inr, ◌≢◌}
use mathlib.Core.Bool.{Bool, true, false, ◌&&◌, ◌||◌}
use mathlib.Core.Option.{Option, none, some}
use native.Mathlib.Omega.{arith}
use text.Mathlib.Text.{◌==◌ as str_eq}
use text.Mathlib.TextEquality.{eq_iff}

abbrev pub ltb : ℕ → ℕ → Bool
ltb a b = elim (compare a b) [ Ordering.lt ↦ true | _ ↦ false ]

abbrev pub leb : ℕ → ℕ → Bool
leb a b = elim (compare a b) [ Ordering.gt ↦ false | _ ↦ true ]

abbrev nat_beq : ℕ → ℕ → Bool
nat_beq a b = elim (compare a b) [ Ordering.eq ↦ true | _ ↦ false ]

infix 1 if◌then◌else◌
abbrev pub if◌then◌else◌ {ℓ} : {A : Type ℓ} → Bool → A → A → A
if true then x else y = x
if false then x else y = y

pub ltb→lt : (a b : ℕ) → ltb a b ≡ true → a < b
ltb→lt a b h = ground arith

pub lt→ltb : (a b : ℕ) → a < b → ltb a b ≡ true
lt→ltb a b h = ground arith

pub leb→le : (a b : ℕ) → leb a b ≡ true → a ≤ b
leb→le a b h = ground arith

pub le→leb : (a b : ℕ) → a ≤ b → leb a b ≡ true
le→leb a b h = ground arith

pub nat_beq_iff : (a b : ℕ) → (nat_beq a b ≡ true) ↔ (a ≡ b)
nat_beq_iff a b = (λ h. ground arith, λ h. ground arith)

abbrev pub negate : Bool → Bool
negate true = false
negate false = true

-- Types whose values Go compares by ==.
pub record Eq {ℓ} (T : Type ℓ) : Type ℓ where
  pub beq : T → T → Bool
  pub beq_iff : (x y : T) → (beq x y ≡ true) ↔ (x ≡ y)

instance abbrev pub string_eq : Eq String
string_eq = record { beq_iff = eq_iff; beq = str_eq }

infix 50 ◌!=◌ ◌==◌
abbrev pub ◌!=◌ {ℓ} : {T : Type ℓ} ⦃eq : Eq T⦄ → T → T → Bool
◌!=◌ ⦃eq⦄ x y = negate (eq.beq x y)

instance abbrev pub nat_eq : Eq ℕ
nat_eq = record { beq_iff = nat_beq_iff; beq = nat_beq }

abbrev pub ◌==◌ {ℓ} : {T : Type ℓ} ⦃eq : Eq T⦄ → T → T → Bool
◌==◌ ⦃eq⦄ x y = eq.beq x y

-- To split on a computed value and keep the equation.
pub Bool-cases : (b : Bool) → (b ≡ true) ⊎ (b ≡ false)
Bool-cases true = inl refl
Bool-cases false = inr refl

pub Option-cases {ℓ} : {A : Type ℓ} (o : Option A) → (o ≡ none) ⊎ ((a : A) × (o ≡ some a))
Option-cases none = inl refl
Option-cases (some a) = inr (a, refl)

module _ {ℓ} {A : Type ℓ} ⦃e : Eq A⦄ where
  pub ==_refl : (a : A) → (a == a) ≡ true
  ==_refl a = (e.beq_iff a a).1 refl

  pub ==→eq : (a b : A) → (a == b) ≡ true → a ≡ b
  ==→eq a b = (e.beq_iff a b).0

  pub ==_false : (a b : A) → (a == b) ≡ false → a ≢ b
  ==_false a b h p = cc ((e.beq_iff a b).1 p)

  pub ne→==_false : (a b : A) → a ≢ b → (a == b) ≡ false
  ne→==_false a b h = elim (Bool-cases (a == b)) [ inl p ↦ absurd (h (==→eq a b p)) | inr p ↦ p ]

pub ruleset tests = (arith, ltb→lt, lt→ltb, leb→le, le→leb)

pub or_cases : {a b : Bool} → (a || b) ≡ true → (a ≡ true) ⊎ (b ≡ true)
or_cases {a = true} h = inl refl
or_cases {a = false} h = inr h

pub and_parts : {a b : Bool} → (a && b) ≡ true → (a ≡ true) × (b ≡ true)
and_parts {a = true} h = (refl, h)
and_parts {a = false} h = cc

pub negate-true : {a : Bool} → negate a ≡ true → a ≡ false
negate-true {a = true} h = cc
negate-true {a = false} h = refl

pub !=→ne {ℓ} : {A : Type ℓ} ⦃e : Eq A⦄ (a b : A) → (a != b) ≡ true → a ≢ b
!=→ne a b h p = absurd (==_false a b (negate-true h) p)

pub ne→!= {ℓ} : {A : Type ℓ} ⦃e : Eq A⦄ (a b : A) → a ≢ b → (a != b) ≡ true
ne→!= a b h = rw (ne→==_false a b h)
