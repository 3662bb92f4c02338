-- ===== src/Credential/Fence.antt =====
-- pkg/credential/cache.go: fetches that are overtaken.
use xops_cli.Base.{
  Bool, Bool-cases, List, String, ap, arith, false, length, inl, inr, none, refl, some, sym, true,
  ℕ, ◌++◌, ◌+◌, ◌<◌, ◌==◌, ◌^◌, ◌∙◌, ◌∷◌, ◌≡◌, ◌≢◌, ◌≤◌, nat_eq, string_eq, ==_refl, ==→eq, subst,
}
use xops_cli.Base.Dict.{get, get-put, get-delete}
use xops_cli.Credential.Cache.{
  Secret, FetchToken, Cache, next_uint64, is_disabled, remove_entry, cache_get, start_fetch,
  drop_generation, put_locked, cache_put, put_if_match, invalidate, clear,
}
use xops_cli.Credential.Steps.{
  Op, reading, starting, cancelling, putting, filling, invalidating, clearing, step, run,
  run-append, fetched, source_get,
}
use xops_cli.Credential.Limits.{step-SameLimits, run-SameLimits, SameLimits-is_disabled}
use xops_cli.Credential.Tokens.{SameTokens, put_locked-SameTokens, get-SameTokens}
use xops_cli.Credential.Overtaken.{
  next_uint64-small, step-next_token, run-Overtaken, run-next_token, fill-Overtaken,
}

-- The operation overtakes the fetches of a reference: it invalidates or writes it, starts another
-- fetch of it, or clears the cache.
unfoldable pub overtakes : String → Op → Bool
overtakes key (starting k) = k == key
overtakes key (putting k s now) = k == key
overtakes key (invalidating k) = k == key
overtakes key clearing = true
overtakes key _ = false

fill-no_token :
    (c : Cache) (key : String) (s : Secret) (ft : FetchToken) (now : ℕ)
    → is_disabled c key ≡ true
    → put_if_match c key s ft now ≡ c
unfolding put_if_match
fill-no_token c key s ft now h = rw h refl

put_locked-generations :
    (c : Cache) (key : String) (s : Secret) (now : ℕ)
    → (put_locked c key s now).generations ≡ c.generations
put_locked-generations c key s now = unfold SameTokens in (put_locked-SameTokens c key s now).0

dropped : (c : Cache) (key : String) → get (drop_generation c key).generations key ≡ none
unfolding drop_generation
dropped c key = get-delete c.generations key key ∙ rw (==_refl key)

invalidate-gone :
    (c : Cache) (key : String) (t : ℕ)
    → (key == "") ≡ false
    → get (invalidate c key).generations key ≢ some t
unfolding invalidate remove_entry
invalidate-gone c key t h = λ p. ground (arith, dropped c key)

-- What a fetch that is not switched off leaves
pub record Started (c : Cache) (key : String) : Type 0 where
  pub token : (start_fetch c key).0.token ≡ next_uint64 c.next_token
  pub next : (start_fetch c key).1.next_token ≡ next_uint64 c.next_token
  pub epoch : (start_fetch c key).0.clear_epoch ≡ (start_fetch c key).1.clear_epoch
  pub waits : get (start_fetch c key).1.generations key ≡ some (next_uint64 c.next_token)

pub start-Started : (c : Cache) (key : String) → is_disabled c key ≡ false → Started c key
unfolding start_fetch
start-Started c key on = record {
  token = rw (start_fetch, on) refl;
  next = rw (start_fetch, on) refl;
  epoch = rw (start_fetch, on) refl;
  waits = rw (start_fetch, on) (get-put _ key _ key ∙ rw (==_refl key));
}

start-gone :
    (c : Cache) (key : String) (t : ℕ)
    → is_disabled c key ≡ false
    → t ≤ c.next_token
    → c.next_token + 1 < 2 ^ 64
    → get (start_fetch c key).1.generations key ≢ some t
start-gone c key t on old small = λ p.
    let same : next_uint64 c.next_token ≡ t = ground (arith, (start-Started c key on).waits, p) in
    absurd (omega (arith, next_uint64-small c.next_token small))

put-gone :
    (c : Cache) (key : String) (s : Secret) (now t : ℕ)
    → is_disabled c key ≡ false
    → get (cache_put c key s now).generations key ≢ some t
unfolding cache_put
put-gone c key s now t on = λ p. cc (
  dropped c key,
  ap (λ m. get m key) (put_locked-generations (drop_generation c key) key s now),
  rw (cache_put, on) at p,
)

overtakes-gone :
    (op : Op) (c : Cache) (key : String) (t : ℕ)
    → overtakes key op ≡ true
    → is_disabled c key ≡ false
    → t ≤ c.next_token
    → c.next_token + 1 < 2 ^ 64
    → get (step op c).generations key ≢ some t
unfolding overtakes step cache_put clear is_disabled get
overtakes-gone (reading k now) c key t over on old small = cc
overtakes-gone (cancelling k ft) c key t over on old small = cc
overtakes-gone (filling k s ft now) c key t over on old small = cc
overtakes-gone (starting k) c key t over on old small =
    subst (λ j. get (start_fetch c j).1.generations key ≢ some t) (sym (==→eq k key over))
      (start-gone c key t on old small)
overtakes-gone (putting k s now) c key t over on old small =
    subst (λ j. get (cache_put c j s now).generations key ≢ some t) (sym (==→eq k key over))
      (put-gone c key s now t on)
overtakes-gone (invalidating k) c key t over on old small =
    subst (λ j. get (invalidate c j).generations key ≢ some t) (sym (==→eq k key over))
      (invalidate-gone c key t (ground arith))
overtakes-gone clearing c key t over on old small = λ p. cc

pub start-is_disabled :
    (c : Cache) (key : String) → is_disabled (start_fetch c key).1 key ≡ is_disabled c key
unfolding step
start-is_disabled c key =
    SameLimits-is_disabled c (start_fetch c key).1 key (step-SameLimits (starting key) c)

overtaken-gone :
    (c : Cache) (key : String) (before after : List Op) (op : Op)
    → is_disabled c key ≡ false
    → overtakes key op ≡ true
    → c.next_token + length before + length after + 2 < 2 ^ 64
    → get (run (before ++ op ∷ after) (start_fetch c key).1).generations key
      ≢ some (start_fetch c key).0.token
unfolding run
overtaken-gone c key before after op on over small =
    let ft = (start_fetch c key).0 in
    let st = (start_fetch c key).1 in
    let first = start-Started c key on in
    let count = next_uint64-small c.next_token (omega arith) in
    let d = run before st in
    let (low, high) = run-next_token before st (omega (arith, first.next)) in
    let still_on : is_disabled d key ≡ false =
      SameLimits-is_disabled st d key (run-SameLimits before st) ∙ start-is_disabled c key ∙ on in
    let old : ft.token ≤ d.next_token = omega (arith, first.token, first.next) in
    let (low', high') = step-next_token op d (omega (arith, first.next)) in
    let gone = overtakes-gone op d key ft.token over still_on old (omega (arith, first.next)) in
    let o =
      run-Overtaken after (step op d) key ft (omega (arith, first.next))
        (record { gone = gone; older = omega arith }) in
    subst (λ e. get e.generations key ≢ some ft.token) (sym (run-append before (op ∷ after) st))
      o.gone

overtaken-fill :
    (c : Cache) (key : String) (s : Secret) (before after : List Op) (op : Op) (later : ℕ)
    → overtakes key op ≡ true
    → c.next_token + length before + length after + 2 < 2 ^ 64
    → put_if_match
        (run (before ++ op ∷ after) (start_fetch c key).1)
        key
        s
        (start_fetch c key).0
        later
      ≡ run (before ++ op ∷ after) (start_fetch c key).1
overtaken-fill c key s before after op later over small = elim (Bool-cases (is_disabled c key)) [
  | inl off ↦ fill-no_token _ key s _ later (
      SameLimits-is_disabled _ _ key (run-SameLimits (before ++ op ∷ after) (start_fetch c key).1)
      ∙ start-is_disabled c key
      ∙ off)
  | inr on ↦ fill-Overtaken _ key s _ later (overtaken-gone c key before after op on over small)
]

-- A source's read that is overtaken returns what the backend gave and leaves the cache as the
-- others' operations leave it. The conditions: the cache holds no valid secret for the reference
-- beforehand; while the backend is read, an operation invalidates or writes the reference, starts
-- another fetch of it or clears the cache; and the counter of tokens does not wrap around.
pub source_get-overtaken {ℓ} :
    {E : Type ℓ} (c : Cache) (key : String) (now : ℕ) (s : Secret) (before after : List Op)
    (op : Op) (later : ℕ)
    → (cache_get c key now).0 ≡ none
    → overtakes key op ≡ true
    → c.next_token + length before + length after + 2 < 2 ^ 64
    → source_get {E = E} c key now (fetched s) (before ++ op ∷ after) later
      ≡ (fetched s, run (before ++ op ∷ after) (start_fetch (cache_get c key now).1 key).1)
unfolding source_get
source_get-overtaken c key now s before after op later miss over small =
    let same : (cache_get c key now).1.next_token ≡ c.next_token =
      unfold SameTokens in (get-SameTokens c key now).1 in
    rw (miss, source_get)
      (ap (λ d. (fetched s, d))
        (overtaken-fill (cache_get c key now).1 key s before after op later over
          (omega (arith, same))))
