-- ===== src/Credential/Bounds.antt =====
-- pkg/credential/cache.go: how much a cache holds.
use xops_cli.Base.{
  Bool-cases, if◌then◌else◌, In, List, Option-cases, String, [], arith, false, here, inl, inr,
  length, ltb, or_cases, sym, there, true, ℕ, ◌!=◌, ◌<◌, ◌==◌, ◌||◌, ◌∙◌, ◌∷◌, ◌≡◌, ◌≤◌, ==→eq,
  nat_eq, string_eq, text_eq,
}
use mathlib.Core.List.{reverse}
use xops_cli.Base.Dict.{get, put, has, has-put, length-put-le, length-delete-le}
use xops_cli.Credential.Evictions.{
  Covers, In-remove_key, evict-lt, evict-Covers, has-delete_cases, In-reverse, make_room-lt,
  In-move_to_head,
}
use xops_cli.Credential.Cache.{
  Secret, CacheEntry, Cache, is_disabled, remove_key, remove_entry, move_to_head, cache_get, evict,
  new_cache, next_uint64, make_room, start_fetch, drop_generation, is_current, cancel_fetch,
  calculate_expiry, put_locked, cache_put, put_if_match, invalidate, clear,
}
use xops_cli.Credential.Steps.{
  Op, reading, starting, cancelling, putting, filling, invalidating, clearing, step, run,
}

-- The maps hold at most as many entries as the capacity says, and the linked list has the key of
-- every secret.
pub record IsBounded (c : Cache) : Type 0 where
  pub secrets : length c.entries ≤ c.capacity
  pub fetches : length c.generations ≤ c.capacity
  pub listed : (k : String) → has c.entries k ≡ true → In k c.order

remove_entry-IsBounded : (c : Cache) (k : String) → IsBounded c → IsBounded (remove_entry c k)
unfolding remove_entry
remove_entry-IsBounded c k b = record {
  secrets = omega (arith, b.secrets, length-delete-le c.entries k);
  fetches = b.fetches;
  listed = λ j h.
      let (other, held) = has-delete_cases c.entries k j h in
      In-remove_key k (b.listed j held) other;
}

drop_generation-IsBounded : (c : Cache) (k : String) → IsBounded c → IsBounded (drop_generation c k)
unfolding drop_generation
drop_generation-IsBounded c k b = record {
  secrets = b.secrets;
  fetches = omega (arith, b.fetches, length-delete-le c.generations k);
  listed = b.listed;
}

move-IsBounded :
    (c : Cache) (k : String) → IsBounded c → IsBounded (record c { order = move_to_head c.order k })
move-IsBounded c k b = record {
  secrets = b.secrets;
  fetches = b.fetches;
  listed = λ j h. In-move_to_head k (b.listed j h);
}

-- A secret is stored after the eviction of others.
store-IsBounded :
    (d : Cache) (k : String) (entry : CacheEntry)
    → 0 < d.capacity
    → IsBounded d
    → let kept = evict d.capacity (reverse d.order) d.entries in
      IsBounded (record d { entries = put kept.1 k entry; order = k ∷ reverse kept.0 })
store-IsBounded d k entry room b =
    let covers : Covers (reverse d.order) d.entries = λ j h. In-reverse (b.listed j h) in
    let kept = evict d.capacity (reverse d.order) d.entries in
    record {
      secrets = omega (
        arith,
        evict-lt d.capacity (reverse d.order) d.entries room covers,
        length-put-le kept.1 k entry,
      );
      fetches = b.fetches;
      listed = λ j h. elim (or_cases (sym (has-put kept.1 k entry j) ∙ h)) [
        | inl e ↦ rw (==→eq k j e) here
        | inr held ↦
            there (In-reverse (evict-Covers d.capacity (reverse d.order) d.entries covers j held))
      ];
    }

put_locked-IsBounded :
    (c : Cache) (k : String) (s : Secret) (now : ℕ)
    → 0 < c.capacity
    → IsBounded c
    → IsBounded (put_locked c k s now)
unfolding put_locked
put_locked-IsBounded c k s now room b = elim (Option-cases (calculate_expiry c now s.expires_at)) [
  | inl e ↦ rw (put_locked, e) b
  | inr (x, e) ↦ elim (Bool-cases (has c.entries k)) [
    | inl f ↦
        rw (put_locked, e, f)
          (store-IsBounded (remove_entry c k) k _ (unfold remove_entry in room)
            (remove_entry-IsBounded c k b))
    | inr f ↦ rw (put_locked, e, f) (store-IsBounded c k _ room b)
  ]
]

is_disabled-room : (c : Cache) (k : String) → is_disabled c k ≡ false → 0 < c.capacity
unfolding is_disabled
is_disabled-room c k h = ground arith

get-IsBounded : (c : Cache) (k : String) (now : ℕ) → IsBounded c → IsBounded (cache_get c k now).1
unfolding cache_get
get-IsBounded c k now b = elim (Bool-cases (is_disabled c k)) [
  | inl e ↦ rw (cache_get, e) b
  | inr e ↦ elim (Option-cases (get c.entries k)) [
    | inl f ↦ rw (cache_get, e, f) b
    | inr (entry, f) ↦ elim (Bool-cases (ltb entry.expires_at now)) [
      | inl l ↦ rw (cache_get, e, f, l) (remove_entry-IsBounded c k b)
      | inr l ↦ rw (cache_get, e, f, l) (move-IsBounded c k b)
    ]
  ]
]

start-IsBounded : (c : Cache) (k : String) → IsBounded c → IsBounded (start_fetch c k).1
unfolding start_fetch
start-IsBounded c k b = elim (Bool-cases (is_disabled c k)) [
  | inl e ↦ rw (start_fetch, e) b
  | inr e ↦
      let queue =
        if has c.generations k then remove_key c.generation_keys k else c.generation_keys in
      let left = (make_room c.capacity queue c.generations).1 in
      let less = make_room-lt c.capacity queue c.generations (is_disabled-room c k e) in
      rw (start_fetch, e)
        (record {
          secrets = b.secrets;
          fetches = omega (arith, less, length-put-le left k (next_uint64 c.next_token));
          listed = b.listed;
        })
]

fill-IsBounded :
    (c : Cache) (k : String) (s : Secret) (now : ℕ)
    → is_disabled c k ≡ false
    → IsBounded c
    → IsBounded (put_locked (drop_generation c k) k s now)
unfolding drop_generation
fill-IsBounded c k s now on b =
    put_locked-IsBounded (drop_generation c k) k s now (is_disabled-room c k on)
      (drop_generation-IsBounded c k b)

-- Every operation keeps the bounds.
pub step-IsBounded : (op : Op) (c : Cache) → IsBounded c → IsBounded (step op c)
unfolding step cancel_fetch cache_put put_if_match invalidate clear has
step-IsBounded (reading k now) c b = get-IsBounded c k now b
step-IsBounded (starting k) c b = start-IsBounded c k b
step-IsBounded (cancelling k ft) c b = elim (Bool-cases (ft.token == 0 || k == "")) [
  | inl e ↦ rw (cancel_fetch, e) b
  | inr e ↦ elim (Bool-cases (is_current c k ft)) [
    | inl f ↦ rw (cancel_fetch, e, f) (drop_generation-IsBounded c k b)
    | inr f ↦ rw (cancel_fetch, e, f) b
  ]
]
step-IsBounded (putting k s now) c b = elim (Bool-cases (is_disabled c k)) [
  | inl e ↦ rw (cache_put, e) b
  | inr e ↦ rw (cache_put, e) (fill-IsBounded c k s now e b)
]
step-IsBounded (filling k s ft now) c b = elim (Bool-cases (is_disabled c k)) [
  | inl e ↦ rw (put_if_match, e) b
  | inr e ↦ elim (Bool-cases (ft.token == 0 || ft.clear_epoch != c.clear_epoch)) [
    | inl f ↦ rw (put_if_match, e, f) b
    | inr f ↦ elim (Bool-cases (is_current c k ft)) [
      | inl g ↦ rw (put_if_match, e, f, g) (fill-IsBounded c k s now e b)
      | inr g ↦ rw (put_if_match, e, f, g) b
    ]
  ]
]
step-IsBounded (invalidating k) c b = elim (Bool-cases (k == "")) [
  | inl e ↦ rw (invalidate, e) b
  | inr e ↦ elim (Bool-cases (has (drop_generation c k).entries k)) [
    | inl f ↦
        rw (invalidate, e, f)
          (remove_entry-IsBounded (drop_generation c k) k (drop_generation-IsBounded c k b))
    | inr f ↦ rw (invalidate, e, f) (drop_generation-IsBounded c k b)
  ]
]
step-IsBounded clearing c b = record {
  secrets = omega arith;
  fetches = omega arith;
  listed = λ j h. absurd (cc);
}

new-IsBounded : (capacity ttl : ℕ) → IsBounded (new_cache capacity ttl)
unfolding new_cache has
new-IsBounded capacity ttl = record {
  secrets = omega arith;
  fetches = omega arith;
  listed = λ j h. absurd (cc);
}

run-IsBounded : (ops : List Op) (c : Cache) → IsBounded c → IsBounded (run ops c)
unfolding run
run-IsBounded [] c b = b
run-IsBounded (op ∷ ops) c b = run-IsBounded ops (step op c) (step-IsBounded op c b)

-- After any sequence of operations on a new cache it holds at most as many secrets, and tracks at
-- most as many fetches, as its capacity says, and the linked list has the key of every secret.
pub new_cache-IsBounded :
    (capacity ttl : ℕ) (ops : List Op) → IsBounded (run ops (new_cache capacity ttl))
new_cache-IsBounded capacity ttl ops =
    run-IsBounded ops (new_cache capacity ttl) (new-IsBounded capacity ttl)
