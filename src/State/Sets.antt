-- ===== src/State/Sets.antt =====
-- core/mcp/state: membership in the sets of nodes, and in those of deleted ones.
use xops_cli.Base.{
  Bool-cases, In, In-any-false, List, String, [], any, any-false-In, arith, contains, false, here,
  inl, inr, negate, or_cases, refl, subst, there, true, ◌&&◌, ◌==◌, ◌||◌, ◌≡◌, ◌∷◌, ==→eq,
  string_eq,
}
use xops_cli.Base.Dict.{Dict, has}
use xops_cli.Ports.{Target}
use xops_cli.State.Views.{hop_ids, include, uses_any}
use xops_cli.State.Changes.{depends_on_removed}
use xops_cli.State.Updates.{include_each, reuses_identity}
use xops_cli.State.Removals.{In-has}

pub contains-In : (xs : List String) (a : String) → contains xs a ≡ true → In a xs
contains-In [] a h = absurd (cc h)
contains-In (x ∷ xs) a h = elim (or_cases {a = x == a} {b = contains xs a} h) [
  | inl e ↦ subst (λ y. In y (x ∷ xs)) (==→eq x a e) here
  | inr e ↦ there (contains-In xs a e)
]

pub has-In : (m : Dict String Target) (k : String) → has m k ≡ true → (t : Target) × In (k, t) m
unfolding has
has-In [] k h = absurd (cc h)
has-In ((j, t) ∷ m) k h = elim (or_cases {a = j == k} {b = has m k} h) [
  | inl e ↦ (t, subst (λ y. In (y, t) ((j, t) ∷ m)) (==→eq j k e) here)
  | inr e ↦ let (u, i) = has-In m k e in (u, there i)
]

pub include-contains :
    (set : List String) (y x : String) → contains (include set y) x ≡ (contains set x || y == x)
include-contains set y x = elim (Bool-cases (contains set y)) [
  | inl c ↦ ground (arith, c, ==→eq y x)
  | inr c ↦ ground (arith, c)
]

pub include_each-contains :
    (set xs : List String) (x : String)
    → contains (include_each set xs) x ≡ (contains set x || contains xs x)
unfolding include_each
include_each-contains set [] x = ground arith
include_each-contains set (y ∷ xs) x =
    ground (arith, include_each-contains (include set y) xs x, include-contains set y x)

include_each-uses :
    (set xs : List String) (t : Target)
    → uses_any set t ≡ false
    → uses_any xs t ≡ false
    → uses_any (include_each set xs) t ≡ false
include_each-uses set xs t p q = In-any-false (contains (include_each set xs)) (hop_ids t) (λ x m.
    ground (
      arith,
      include_each-contains set xs x,
      any-false-In (contains set) p m,
      any-false-In (contains xs) q m,
    ))

target-fresh :
    (deleted removed : List String) (id : String) (t : Target)
    → reuses_identity deleted (id, t) ≡ false
    → (negate t.disabled && uses_any removed t) ≡ false
    → contains removed id ≡ false
    → reuses_identity (include_each deleted removed) (id, t) ≡ false
unfolding reuses_identity
target-fresh deleted removed id t f n c = elim (Bool-cases t.disabled) [
  | inl b ↦ ground (arith, b, f, c, include_each-contains deleted removed id)
  | inr b ↦
      let p : uses_any deleted t ≡ false = ground (arith, b, f) in
      let q : uses_any removed t ≡ false = ground (arith, b, n) in
      ground (
        arith,
        b,
        f,
        c,
        include_each-contains deleted removed id,
        include_each-uses deleted removed t p q,
      )
]

pub removal-fresh :
    (deleted removed : List String) (targets : Dict String Target)
    → any (reuses_identity deleted) targets ≡ false
    → depends_on_removed removed targets ≡ false
    → ((x : String) → contains removed x ≡ true → has targets x ≡ false)
    → any (reuses_identity (include_each deleted removed)) targets ≡ false
unfolding depends_on_removed
removal-fresh deleted removed targets f n g =
    In-any-false (reuses_identity (include_each deleted removed)) targets (λ p m.
      target-fresh deleted removed (p.0) (p.1) (any-false-In (reuses_identity deleted) f m)
        (any-false-In (λ t. negate (t.1).disabled && uses_any removed (t.1)) n m)
        (elim (Bool-cases (contains removed (p.0))) [
          | inl c ↦ absurd (cc (g (p.0) c, In-has m))
          | inr c ↦ c
        ]))

nothing-uses : (hops : List String) → any (contains []) hops ≡ false
nothing-uses hops = In-any-false (contains []) hops (λ x m. refl)

pub nothing-reuses : (id : String) (t : Target) → reuses_identity [] (id, t) ≡ false
unfolding reuses_identity
nothing-reuses id t = ground (arith, nothing-uses (hop_ids t))
