-- ===== src/Credential/Steps.antt =====
-- pkg/credential/cache.go: sequences of operations, and the sources and stores that use the cache.
use xops_cli.Base.{List, String, [], none, refl, some, ℕ, ◌++◌, ◌∷◌, ◌≡◌}
use xops_cli.Credential.Cache.{
  Secret, FetchToken, Cache, cache_get, start_fetch, cancel_fetch, cache_put, put_if_match,
  invalidate, clear,
}

-- The operations of the cache, each of which holds its lock
pub data Op : Type 0 where
  reading : String → ℕ → Op
  starting : String → Op
  cancelling : String → FetchToken → Op
  putting : String → Secret → ℕ → Op
  filling : String → Secret → FetchToken → ℕ → Op
  invalidating : String → Op
  clearing : Op

unfoldable pub step : Op → Cache → Cache
step (reading key now) c = (cache_get c key now).1
step (starting key) c = (start_fetch c key).1
step (cancelling key ft) c = cancel_fetch c key ft
step (putting key s now) c = cache_put c key s now
step (filling key s ft now) c = put_if_match c key s ft now
step (invalidating key) c = invalidate c key
step clearing c = clear c

unfoldable pub run : List Op → Cache → Cache
unfolding step
run [] c = c
run (op ∷ ops) c = run ops (step op c)

pub run-append : (ops more : List Op) (c : Cache) → run (ops ++ more) c ≡ run more (run ops c)
unfolding run
run-append [] more c = refl
run-append (op ∷ ops) more c = run-append ops more (step op c)

-- What the backend gives: a secret or an error
pub data Fetched {ℓ} (E : Type ℓ) : Type ℓ where
  fetched : Secret → Fetched E
  fetch_failed : E → Fetched E

-- CachedSource.Get: the operations that others run while the backend is read come between the
-- two halves.
unfoldable pub source_get {ℓ} :
    {E : Type ℓ} → Cache → String → ℕ → Fetched E → List Op → ℕ → Fetched E × Cache
unfolding run
source_get c key now backend meanwhile later =
    let (hit, c') = cache_get c key now in
    elim hit [
      | some s ↦ (fetched s, c')
      | none ↦
          let (ft, started) = start_fetch c' key in
          let after = run meanwhile started in
          elim backend [
            | fetch_failed e ↦ (fetch_failed e, cancel_fetch after key ft)
            | fetched s ↦ (fetched s, put_if_match after key s ft later)
          ]
    ]

-- CachedStore.Put and Delete, where the backend is written between the two invalidations
unfoldable pub store_write : Cache → String → List Op → Cache
unfolding run
store_write c key meanwhile = invalidate (run meanwhile (invalidate c key)) key
