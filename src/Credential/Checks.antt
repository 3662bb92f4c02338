-- ===== src/Credential/Checks.antt =====
-- pkg/credential/cache.go: a small cache in use.
use xops_cli.Base.{
  ◌↔◌, ◌⊎◌, codes, true, trim_space, String, [], arith, none, refl, some, ◌++◌, ◌∷◌, ◌≡◌,
}
use xops_cli.Base.Dict.{get, put, delete, has}
use xops_cli.Credential.Cache.{
  Secret, Cache, new_cache, cache_get, start_fetch, cache_put, is_disabled, calculate_expiry,
  move_to_head, remove_key,
}
use xops_cli.Credential.Steps.{
  reading, starting, putting, invalidating, step, run, fetched, source_get,
}
use xops_cli.Credential.Refs.{Ref, empty_ref, parse_ref, ref_string, validate_ref}
use xops_cli.Credential.References.{parse_ref_iff}
use xops_cli.Credential.Fence.{overtakes, source_get-overtaken}
use xops_cli.Credential.Bounds.{IsBounded, new_cache-IsBounded}
use xops_cli.Credential.Hits.{source_get-cache_get}

abbrev small : Cache
small = new_cache 2 100

abbrev password : Secret
password = record { value = 7 ∷ []; expires_at = none }

abbrev renewed : Secret
renewed = record { value = 8 ∷ []; expires_at = none }

-- The third secret evicts the one that was read least recently.
evicted :
    (cache_get
      (run
        (putting "a/1" password 10
          ∷ putting "a/2" password 11
          ∷ reading "a/1" 12
          ∷ putting "a/3" renewed 13
          ∷ [])
        small)
      "a/2"
      14).0
    ≡ none
unfolding run step cache_put cache_get get put delete has new_cache move_to_head remove_key
evicted = refl

new_cache-IsBounded_example : IsBounded (
    run
      (putting "a/1" password 10 ∷ starting "a/1" ∷ putting "a/2" renewed 12 ∷ [])
      (new_cache 1 100))
new_cache-IsBounded_example =
    new_cache-IsBounded 1 100
      (putting "a/1" password 10 ∷ starting "a/1" ∷ putting "a/2" renewed 12 ∷ [])

source_get-overtaken_example :
    source_get {E = String} small "a/1" 10 (fetched password) ([] ++ invalidating "a/1" ∷ []) 20 ≡ (
      fetched password,
      run ([] ++ invalidating "a/1" ∷ []) (start_fetch (cache_get small "a/1" 10).1 "a/1").1,
    )
unfolding cache_get new_cache get overtakes
source_get-overtaken_example =
    source_get-overtaken small "a/1" 10 password [] [] (invalidating "a/1") 20 refl refl
      (omega arith)

source_get-cache_get_example :
    (cache_get (source_get {E = String} small "a/1" 10 (fetched password) [] 20).1 "a/1" 90).0
    ≡ some password
unfolding cache_get new_cache get is_disabled calculate_expiry
source_get-cache_get_example =
    source_get-cache_get String small "a/1" password 10 20 120 90 refl refl (omega arith) refl
      (omega arith)

abbrev login : Ref
login = record { store_id = codes "vault"; item_id = codes "web-1" }

parse_ref_iff_example : (parse_ref (codes "vault/web-1") ≡ some login) ↔ (
    (validate_ref login ≡ true)
    × ((ref_string login ≡ codes "vault/web-1")
        ⊎ ((login ≡ empty_ref)
            × ((trim_space (codes "vault/web-1") ≡ []) ⊎ (codes "vault/web-1" ≡ b'/' ∷ [])))))
parse_ref_iff_example = parse_ref_iff (codes "vault/web-1") login
