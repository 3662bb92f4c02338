-- ===== src/Credential/Overtaken.antt =====
-- pkg/credential/cache.go: fetches whose token waits no longer.
use xops_cli.Base.{
  Bool-cases, List, Option-cases, String, [], ap, arith, length, inl, inr, refl, some, sym, ℕ, ◌!=◌,
  ◌+◌, ◌<◌, ◌==◌, ◌^◌, ◌||◌, ◌∙◌, ◌∷◌, ◌≡◌, ◌≢◌, ◌≤◌, nat_eq, string_eq, ==→eq,
}
use xops_cli.Base.Dict.{get}
use xops_cli.Credential.Cache.{
  Secret, FetchToken, Cache, next_uint64, is_disabled, is_current, put_if_match,
}
use xops_cli.Credential.Steps.{Op, step, run}
use xops_cli.Credential.Tokens.{Kept, Tokens, quiet, started, step-Tokens}

-- The fetch's token waits for the key no longer, and no later fetch can be given it.
pub record Overtaken (c : Cache) (key : String) (ft : FetchToken) : Type 0 where
  pub gone : get c.generations key ≢ some ft.token
  pub older : ft.token ≤ c.next_token

next_uint64-le : (n : ℕ) → next_uint64 n ≤ n + 1
next_uint64-le n = omega arith

pub next_uint64-small : (n : ℕ) → n + 1 < 2 ^ 64 → next_uint64 n ≡ n + 1
next_uint64-small n h = omega arith

Kept-ne :
    (key : String) (before after : Cache) (t : ℕ)
    → Kept key before.generations after.generations
    → get before.generations key ≢ some t
    → get after.generations key ≢ some t
Kept-ne key before after t (inl same) h = λ p. h (sym same ∙ p)
Kept-ne key before after t (inr gone) h = λ p. cc (gone, p)

step-Overtaken :
    (op : Op) (c : Cache) (key : String) (ft : FetchToken)
    → c.next_token + 1 < 2 ^ 64
    → Overtaken c key ft
    → Overtaken (step op c) key ft
step-Overtaken op c key ft small o = by_tokens (step op c) (step-Tokens op key c)
  where
    by_tokens : (d : Cache) → Tokens key c d → Overtaken d key ft
    by_tokens d (quiet kept next) = record {
      gone = Kept-ne key c d ft.token kept o.gone;
      older = omega (arith, o.older);
    }
    by_tokens d (started (inl kept) next) = record {
      gone = Kept-ne key c d ft.token kept o.gone;
      older = omega (arith, o.older, next_uint64-small c.next_token small);
    }
    by_tokens d (started (inr fresh) next) = record {
      gone = λ p.
          let same : d.next_token ≡ ft.token = ground (arith, fresh, p) in
          absurd (omega (arith, o.older, next_uint64-small c.next_token small));
      older = omega (arith, o.older, next_uint64-small c.next_token small);
    }

pub step-next_token :
    (op : Op) (c : Cache)
    → c.next_token + 1 < 2 ^ 64
    → (c.next_token ≤ (step op c).next_token) × ((step op c).next_token ≤ c.next_token + 1)
step-next_token op c small = by_tokens (step op c) (step-Tokens op "" c)
  where
    by_tokens :
        (d : Cache)
        → Tokens "" c d
        → (c.next_token ≤ d.next_token) × (d.next_token ≤ c.next_token + 1)
    by_tokens d (quiet kept next) = omega arith
    by_tokens d (started kept next) = omega (arith, next_uint64-small c.next_token small)

pub run-Overtaken :
    (ops : List Op) (c : Cache) (key : String) (ft : FetchToken)
    → c.next_token + length ops < 2 ^ 64
    → Overtaken c key ft
    → Overtaken (run ops c) key ft
unfolding run
run-Overtaken [] c key ft small o = o
run-Overtaken (op ∷ ops) c key ft small o =
    let (_, less) = step-next_token op c (omega arith) in
    run-Overtaken ops (step op c) key ft (omega arith) (step-Overtaken op c key ft (omega arith) o)

pub run-next_token :
    (ops : List Op) (c : Cache)
    → c.next_token + length ops < 2 ^ 64
    → (c.next_token ≤ (run ops c).next_token) × ((run ops c).next_token ≤ c.next_token + length ops)
unfolding run
run-next_token [] c small = omega arith
run-next_token (op ∷ ops) c small =
    let (more, less) = step-next_token op c (omega arith) in
    let (more', less') = run-next_token ops (step op c) (omega arith) in (omega arith, omega arith)

pub fill-Overtaken :
    (c : Cache) (key : String) (s : Secret) (ft : FetchToken) (now : ℕ)
    → get c.generations key ≢ some ft.token
    → put_if_match c key s ft now ≡ c
unfolding put_if_match is_current
fill-Overtaken c key s ft now gone =
    elim (Bool-cases (is_disabled c key || ft.token == 0 || ft.clear_epoch != c.clear_epoch)) [
      | inl e ↦ rw (put_if_match, e) refl
      | inr e ↦ elim (Option-cases (get c.generations key)) [
        | inl f ↦ rw (put_if_match, e, is_current, f) refl
        | inr (t, f) ↦ elim (Bool-cases (t == ft.token)) [
          | inl g ↦ absurd (gone (f ∙ ap some (==→eq t ft.token g)))
          | inr g ↦ rw (put_if_match, e, is_current, f, g) refl
        ]
      ]
    ]
