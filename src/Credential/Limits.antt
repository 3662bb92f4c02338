-- ===== src/Credential/Limits.antt =====
-- pkg/credential/cache.go: the limits that a cache is made with.
use xops_cli.Base.{List, String, [], arith, refl, ℕ, ◌∙◌, ◌∷◌, ◌≡◌, nat_eq, string_eq, text_eq}
use xops_cli.Credential.Cache.{
  Secret, Cache, is_disabled, remove_entry, cache_get, start_fetch, drop_generation, cancel_fetch,
  put_locked, cache_put, put_if_match, invalidate, clear,
}
use xops_cli.Credential.Steps.{Op, putting, filling, step, run}

-- The capacity and the time to live are left alone.
pub record SameLimits (before after : Cache) : Type 0 where
  pub capacity : after.capacity ≡ before.capacity
  pub ttl : after.default_ttl ≡ before.default_ttl

pub put_locked-SameLimits :
    (c : Cache) (k : String) (s : Secret) (now : ℕ) → SameLimits c (put_locked c k s now)
unfolding put_locked remove_entry
put_locked-SameLimits c k s now = ground arith

pub step-SameLimits : (op : Op) (c : Cache) → SameLimits c (step op c)
unfolding step cache_get start_fetch cancel_fetch drop_generation cache_put put_if_match invalidate
    clear remove_entry
step-SameLimits (putting k s now) c =
    ground (arith, put_locked-SameLimits (drop_generation c k) k s now)
step-SameLimits (filling k s ft now) c =
    ground (arith, put_locked-SameLimits (drop_generation c k) k s now)
step-SameLimits op c = ground arith

pub run-SameLimits : (ops : List Op) (c : Cache) → SameLimits c (run ops c)
unfolding run
run-SameLimits [] c = record { capacity = refl; ttl = refl }
run-SameLimits (op ∷ ops) c =
    let first = step-SameLimits op c in
    let rest = run-SameLimits ops (step op c) in
    record { capacity = rest.capacity ∙ first.capacity; ttl = rest.ttl ∙ first.ttl }

pub SameLimits-is_disabled :
    (before after : Cache) (key : String)
    → SameLimits before after
    → is_disabled after key ≡ is_disabled before key
unfolding is_disabled
SameLimits-is_disabled before after key same = rw (same.capacity, same.ttl) refl
