-- ===== src/Credential/Tokens.antt =====
-- pkg/credential/cache.go: what the operations do to the tokens of fetches.
use xops_cli.Base.{
  Bool-cases, if◌then◌else◌, List, Option-cases, String, [], ap, arith, inl, inr, leb, length, ltb,
  map, none, refl, some, ℕ, ◌!=◌, ◌==◌, ◌||◌, ◌∙◌, ◌∷◌, ◌≡◌, ◌⊎◌, nat_eq, string_eq, text_eq,
}
use xops_cli.Base.Dict.{Dict, get, put, delete, has, get-put, get-delete}
use xops_cli.Credential.Cache.{
  Secret, Cache, next_uint64, is_disabled, remove_key, remove_entry, cache_get, evict, make_room,
  start_fetch, drop_generation, is_current, cancel_fetch, calculate_expiry, put_locked, cache_put,
  put_if_match, invalidate, clear,
}
use xops_cli.Credential.Steps.{
  Op, reading, starting, cancelling, putting, filling, invalidating, clearing, step,
}

abbrev pub Kept : (key : String) → Dict String ℕ → Dict String ℕ → Type 0
Kept key before after = (get after key ≡ get before key) ⊎ (get after key ≡ none)

-- What an operation does to the tokens: it keeps or drops the one that waits for a key, or gives
-- the next one
pub data Tokens (key : String) (before after : Cache) : Type 0 where
  quiet :
      Kept key before.generations after.generations
      → after.next_token ≡ before.next_token
      → Tokens key before after
  started :
      Kept key before.generations after.generations
        ⊎ (get after.generations key ≡ some after.next_token)
      → after.next_token ≡ next_uint64 before.next_token
      → Tokens key before after

-- The tokens are left alone.
unfoldable pub SameTokens : Cache → Cache → Type 0
SameTokens before after =
    (after.generations ≡ before.generations) × (after.next_token ≡ before.next_token)

SameTokens-Tokens :
    (key : String) (before after : Cache) → SameTokens before after → Tokens key before after
unfolding SameTokens
SameTokens-Tokens key before after (g, n) = quiet (inl (ap (λ m. get m key) g)) n

delete-Kept : (m : Dict String ℕ) (k key : String) → Kept key m (delete m k)
delete-Kept m k key = elim (Bool-cases (k == key)) [
  | inl e ↦ inr (ground (arith, get-delete m k key))
  | inr e ↦ inl (ground (arith, get-delete m k key))
]

Kept-trans : (key : String) (a b c : Dict String ℕ) → Kept key a b → Kept key b c → Kept key a c
Kept-trans key a b c p (inl f) = elim p [ inl g ↦ inl (f ∙ g) | inr g ↦ inr (f ∙ g) ]
Kept-trans key a b c p (inr f) = inr f

evict-Kept :
    (capacity : ℕ) (keys : List String) (m : Dict String ℕ) (key : String)
    → Kept key m (evict capacity keys m).1
unfolding evict
evict-Kept capacity [] m key = inl refl
evict-Kept capacity (k ∷ keys) m key = elim (Bool-cases (leb capacity (length m))) [
  | inl e ↦ rw e (
      Kept-trans key m (delete m k) _ (delete-Kept m k key)
        (evict-Kept capacity keys (delete m k) key))
  | inr e ↦ rw e (inl refl)
]

make_room-Kept :
    (capacity : ℕ) (queue : List String) (m : Dict String ℕ) (key : String)
    → Kept key m (make_room capacity queue m).1
unfolding make_room
make_room-Kept capacity queue m key =
    let left = (evict capacity queue m).1 in
    Kept-trans key m left _ (evict-Kept capacity queue m key)
      (evict-Kept capacity (map (λ g. g.0) left) left key)

pub put_locked-SameTokens :
    (c : Cache) (k : String) (s : Secret) (now : ℕ) → SameTokens c (put_locked c k s now)
unfolding put_locked remove_entry SameTokens
put_locked-SameTokens c k s now = elim (Option-cases (calculate_expiry c now s.expires_at)) [
  | inl e ↦ rw (put_locked, e) (refl, refl)
  | inr (x, e) ↦ elim (Bool-cases (has c.entries k)) [
    | inl f ↦ rw (put_locked, e, f) (refl, refl)
    | inr f ↦ rw (put_locked, e, f) (refl, refl)
  ]
]

pub get-SameTokens : (c : Cache) (k : String) (now : ℕ) → SameTokens c (cache_get c k now).1
unfolding cache_get remove_entry SameTokens
get-SameTokens c k now = elim (Bool-cases (is_disabled c k)) [
  | inl e ↦ rw (cache_get, e) (refl, refl)
  | inr e ↦ elim (Option-cases (get c.entries k)) [
    | inl f ↦ rw (cache_get, e, f) (refl, refl)
    | inr (entry, f) ↦ elim (Bool-cases (ltb entry.expires_at now)) [
      | inl l ↦ rw (cache_get, e, f, l) (refl, refl)
      | inr l ↦ rw (cache_get, e, f, l) (refl, refl)
    ]
  ]
]

refl-Tokens : (key : String) (c : Cache) → Tokens key c c
refl-Tokens key c = quiet (inl refl) refl

drop-Tokens : (key k : String) (c : Cache) → Tokens key c (drop_generation c k)
unfolding drop_generation
drop-Tokens key k c = quiet (delete-Kept c.generations k key) refl

then-same : (key : String) (a b c : Cache) → Tokens key a b → SameTokens b c → Tokens key a c
unfolding SameTokens
then-same key a b c (quiet kept next) (g, n) = quiet (rw g kept) (n ∙ next)
then-same key a b c (started kept next) (g, n) = started (rw (g, n) kept) (n ∙ next)

put-Kept :
    (m gens : Dict String ℕ) (k key : String) (t : ℕ)
    → Kept key m gens
    → Kept key m (put gens k t) ⊎ (get (put gens k t) key ≡ some t)
put-Kept m gens k key t kept = elim (Bool-cases (k == key)) [
  | inl e ↦ inr (get-put gens k t key ∙ rw e)
  | inr e ↦
      let same : get (put gens k t) key ≡ get gens key = get-put gens k t key ∙ rw e in
      inl (elim kept [ inl f ↦ inl (same ∙ f) | inr f ↦ inr (same ∙ f) ])
]

start-Tokens : (key k : String) (c : Cache) → Tokens key c (start_fetch c k).1
unfolding start_fetch
start-Tokens key k c = elim (Bool-cases (is_disabled c k)) [
  | inl e ↦ rw (start_fetch, e) (refl-Tokens key c)
  | inr e ↦
      let queue =
        if has c.generations k then remove_key c.generation_keys k else c.generation_keys in
      rw (start_fetch, e)
        (started
          (put-Kept c.generations (make_room c.capacity queue c.generations).1 k key _
            (make_room-Kept c.capacity queue c.generations key))
          refl)
]

pub step-Tokens : (op : Op) (key : String) (c : Cache) → Tokens key c (step op c)
unfolding step cancel_fetch cache_put put_if_match invalidate clear remove_entry SameTokens get
step-Tokens (reading k now) key c = SameTokens-Tokens key c _ (get-SameTokens c k now)
step-Tokens (starting k) key c = start-Tokens key k c
step-Tokens (cancelling k ft) key c = elim (Bool-cases (ft.token == 0 || k == "")) [
  | inl e ↦ rw (cancel_fetch, e) (refl-Tokens key c)
  | inr e ↦ elim (Bool-cases (is_current c k ft)) [
    | inl f ↦ rw (cancel_fetch, e, f) (drop-Tokens key k c)
    | inr f ↦ rw (cancel_fetch, e, f) (refl-Tokens key c)
  ]
]
step-Tokens (putting k s now) key c = elim (Bool-cases (is_disabled c k)) [
  | inl e ↦ rw (cache_put, e) (refl-Tokens key c)
  | inr e ↦
      rw (cache_put, e)
        (then-same key c (drop_generation c k) _ (drop-Tokens key k c)
          (put_locked-SameTokens (drop_generation c k) k s now))
]
step-Tokens (filling k s ft now) key c =
    elim (Bool-cases (is_disabled c k || ft.token == 0 || ft.clear_epoch != c.clear_epoch)) [
      | inl e ↦ rw (put_if_match, e) (refl-Tokens key c)
      | inr e ↦ elim (Bool-cases (is_current c k ft)) [
        | inl f ↦
            rw (put_if_match, e, f)
              (then-same key c (drop_generation c k) _ (drop-Tokens key k c)
                (put_locked-SameTokens (drop_generation c k) k s now))
        | inr f ↦ rw (put_if_match, e, f) (refl-Tokens key c)
      ]
    ]
step-Tokens (invalidating k) key c = elim (Bool-cases (k == "")) [
  | inl e ↦ rw (invalidate, e) (refl-Tokens key c)
  | inr e ↦ elim (Bool-cases (has (drop_generation c k).entries k)) [
    | inl f ↦
        rw (invalidate, e, f)
          (then-same key c (drop_generation c k) _ (drop-Tokens key k c) (refl, refl))
    | inr f ↦ rw (invalidate, e, f) (drop-Tokens key k c)
  ]
]
step-Tokens clearing key c = quiet (inr refl) refl
