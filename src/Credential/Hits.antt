-- ===== src/Credential/Hits.antt =====
-- pkg/credential/cache.go: what a reader finds in the cache.
use xops_cli.Base.{
  Bool-cases, Option, String, [], arith, false, inl, inr, ltb, none, refl, some, ℕ, ◌^◌, ◌+◌, ◌<◌,
  ◌∙◌, ◌≡◌, ◌≤◌, ==_refl, nat_eq, string_eq, text_eq,
}
use xops_cli.Base.Dict.{get, has, get-put}
use xops_cli.Credential.Cache.{
  Secret, Cache, is_disabled, cache_get, start_fetch, drop_generation, is_current, calculate_expiry,
  put_locked, put_if_match,
}
use xops_cli.Credential.Limits.{
  SameLimits, SameLimits-is_disabled, step-SameLimits, put_locked-SameLimits,
}
use xops_cli.Credential.Fence.{start-Started, start-is_disabled}
use xops_cli.Credential.Overtaken.{next_uint64-small}
use xops_cli.Credential.Tokens.{SameTokens, get-SameTokens}
use xops_cli.Credential.Steps.{reading, starting, step, run, fetched, source_get}

put_locked-get :
    (c : Cache) (key : String) (s : Secret) (now expires : ℕ)
    → calculate_expiry c now s.expires_at ≡ some expires
    → get (put_locked c key s now).entries key ≡ some (record { secret = s; expires_at = expires })
unfolding put_locked
put_locked-get c key s now expires h = elim (Bool-cases (has c.entries key)) [
  | inl f ↦ rw (put_locked, h, f) (get-put _ key _ key ∙ rw (==_refl key))
  | inr f ↦ rw (put_locked, h, f) (get-put _ key _ key ∙ rw (==_refl key))
]

hit :
    (c : Cache) (key : String) (s : Secret) (expires later : ℕ)
    → is_disabled c key ≡ false
    → get c.entries key ≡ some (record { secret = s; expires_at = expires })
    → later ≤ expires
    → (cache_get c key later).0 ≡ some s
unfolding cache_get
hit c key s expires later on held h =
    let fresh : ltb expires later ≡ false = ground arith in rw (cache_get, on, held, fresh) refl

SameLimits-calculate_expiry :
    (before after : Cache) (now : ℕ) (backend : Option ℕ)
    → SameLimits before after
    → calculate_expiry after now backend ≡ calculate_expiry before now backend
unfolding calculate_expiry
SameLimits-calculate_expiry before after now backend same = ground arith

-- A fetch that nothing has come between is stored.
fill-start :
    (c : Cache) (key : String) (s : Secret) (stored : ℕ)
    → is_disabled c key ≡ false
    → c.next_token + 1 < 2 ^ 64
    → let st = (start_fetch c key).1 in
      put_if_match st key s (start_fetch c key).0 stored
      ≡ put_locked (drop_generation st key) key s stored
unfolding put_if_match is_current
fill-start c key s stored on small =
    let first = start-Started c key on in
    let token : (start_fetch c key).0.token ≡ c.next_token + 1 =
      first.token ∙ next_uint64-small c.next_token small in
    let on' = start-is_disabled c key ∙ on in
    ground (arith, on', token, first.epoch, first.waits, first.token)

stored-get :
    (c : Cache) (key : String) (s : Secret) (stored expires later : ℕ)
    → is_disabled c key ≡ false
    → calculate_expiry c stored s.expires_at ≡ some expires
    → later ≤ expires
    → (cache_get (put_locked c key s stored) key later).0 ≡ some s
stored-get c key s stored expires later on alive h =
    hit (put_locked c key s stored) key s expires later
      (SameLimits-is_disabled c _ key (put_locked-SameLimits c key s stored) ∙ on)
      (put_locked-get c key s stored expires alive) h

start-SameLimits :
    (c : Cache) (key : String) (now : ℕ)
    → SameLimits c (drop_generation (start_fetch (cache_get c key now).1 key).1 key)
unfolding step drop_generation
start-SameLimits c key now =
    let first = step-SameLimits (reading key now) c in
    let second = step-SameLimits (starting key) (cache_get c key now).1 in
    record { capacity = second.capacity ∙ first.capacity; ttl = second.ttl ∙ first.ttl }

get-is_disabled :
    (c : Cache) (key : String) (now : ℕ)
    → is_disabled (cache_get c key now).1 key ≡ is_disabled c key
unfolding step
get-is_disabled c key now = SameLimits-is_disabled c _ key (step-SameLimits (reading key now) c)

-- A source's read that finds nothing in the cache, and that no other operation comes between,
-- leaves the secret in it: a read up to the secret's expiry finds the same one. The conditions:
-- the cache is not switched off, its counter does not wrap around and the secret is not stale.
pub source_get-cache_get {ℓ} :
    (E : Type ℓ) (c : Cache) (key : String) (s : Secret) (now stored expires later : ℕ)
    → is_disabled c key ≡ false
    → (cache_get c key now).0 ≡ none
    → c.next_token + 1 < 2 ^ 64
    → calculate_expiry c stored s.expires_at ≡ some expires
    → later ≤ expires
    → (cache_get (source_get {E = E} c key now (fetched s) [] stored).1 key later).0 ≡ some s
unfolding source_get run
source_get-cache_get E c key s now stored expires later on miss small alive h =
    let c' = (cache_get c key now).1 in
    let same : c'.next_token ≡ c.next_token = unfold SameTokens in (get-SameTokens c key now).1 in
    let limits = start-SameLimits c key now in
    let filled =
      fill-start c' key s stored (get-is_disabled c key now ∙ on) (omega (arith, same)) in
    rw (miss, source_get)
      (rw filled (
        stored-get _ key s stored expires later (SameLimits-is_disabled c _ key limits ∙ on)
          (SameLimits-calculate_expiry c _ stored s.expires_at limits ∙ alive) h))
