-- ===== src/Credential/Cache.antt =====
-- pkg/credential/cache.go: the cache and its operations. A reference is given by its text, times
-- are in nanoseconds, and the linked list is the list of its entries' keys from its head to its tail.
use xops_cli.Base.{
  Bool, List, Option, String, [], false, if◌then◌else◌, leb, length, ltb, map, none, some, ℕ, ◌!=◌,
  ◌%◌, ◌++◌, ◌+◌, ◌==◌, ◌^◌, ◌||◌, ◌∷◌, nat_eq, string_eq, text_eq,
}
use mathlib.Core.List.{reverse}
use xops_cli.Base.Dict.{Dict, get, put, delete, has}

pub record Secret : Type 0 where
  pub value : List ℕ
  pub expires_at : Option ℕ

pub record CacheEntry : Type 0 where
  pub secret : Secret
  pub expires_at : ℕ

pub record FetchToken : Type 0 where
  pub token : ℕ
  pub clear_epoch : ℕ

pub record Cache : Type 0 where
  pub capacity : ℕ
  pub default_ttl : ℕ
  pub entries : Dict String CacheEntry
  pub order : List String
  pub generations : Dict String ℕ
  pub generation_keys : List String
  pub clear_epoch : ℕ
  pub next_token : ℕ

-- A capacity or a time to live below 0 counts as 0.
unfoldable pub new_cache : ℕ → ℕ → Cache
new_cache capacity default_ttl = record {
  capacity = capacity;
  default_ttl = default_ttl;
  entries = [];
  order = [];
  generations = [];
  generation_keys = [];
  clear_epoch = 0;
  next_token = 0;
}

-- uint64
abbrev pub next_uint64 : ℕ → ℕ
next_uint64 n = (n + 1) % 2 ^ 64

-- A cache without room or lifetime, or a reference without a text
unfoldable pub is_disabled : Cache → String → Bool
is_disabled c key = c.capacity == 0 || c.default_ttl == 0 || key == ""

-- The keys but one: detachLocked, and removeGenerationKeyLocked
unfoldable pub remove_key : List String → String → List String
remove_key [] k = []
remove_key (j ∷ ks) k = let rest = remove_key ks k in if j == k then rest else j ∷ rest

unfoldable pub move_to_head : List String → String → List String
move_to_head [] k = k ∷ []
move_to_head (j ∷ ks) k = if j == k then j ∷ ks else k ∷ remove_key (j ∷ ks) k

unfoldable pub remove_entry : Cache → String → Cache
remove_entry c k = record c { entries = delete c.entries k; order = remove_key c.order k }

unfoldable pub cache_get : Cache → String → ℕ → Option Secret × Cache
unfolding is_disabled remove_entry
cache_get c key now = if is_disabled c key then (none, c) else elim (get c.entries key) [
  | none ↦ (none, c)
  | some entry ↦
      if ltb entry.expires_at now
      then (none, remove_entry c key)
      else (some entry.secret, record c { order = move_to_head c.order key })
]

-- A loop that removes entries under the keys of a list, in order, until there is room
unfoldable pub evict {ℓ} :
    {V : Type ℓ} → ℕ → List String → Dict String V → List String × Dict String V
evict capacity [] entries = ([], entries)
evict capacity (key ∷ keys) entries =
    let after = evict capacity keys (delete entries key) in
    if leb capacity (length entries) then after else (key ∷ keys, entries)

-- The loop that makes room for a token: it drops those of the queue, and where the queue is empty
-- arbitrary ones.
unfoldable pub make_room : ℕ → List String → Dict String ℕ → List String × Dict String ℕ
unfolding evict
make_room capacity queue gens =
    let (keys, left) = evict capacity queue gens in
    (keys, (evict capacity (map (λ g. g.0) left) left).1)

unfoldable pub start_fetch : Cache → String → FetchToken × Cache
unfolding is_disabled make_room
start_fetch c key =
    if is_disabled c key
    then (record { token = 0; clear_epoch = 0 }, c)
    else let token = next_uint64 c.next_token in
      let queue =
        if has c.generations key then remove_key c.generation_keys key else c.generation_keys in
      let (keys, gens) = make_room c.capacity queue c.generations in
      (
        record { token = token; clear_epoch = c.clear_epoch },
        record c {
          next_token = token;
          generations = put gens key token;
          generation_keys = keys ++ key ∷ [];
        },
      )

unfoldable pub drop_generation : Cache → String → Cache
drop_generation c key = record c {
  generations = delete c.generations key;
  generation_keys = remove_key c.generation_keys key;
}

-- The token is the one that waits for the key.
unfoldable pub is_current : Cache → String → FetchToken → Bool
is_current c key ft = elim (get c.generations key) [ none ↦ false | some t ↦ t == ft.token ]

unfoldable pub cancel_fetch : Cache → String → FetchToken → Cache
unfolding drop_generation is_current
cancel_fetch c key ft =
    if ft.token == 0 || key == ""
    then c
    else if is_current c key ft
    then drop_generation c key
    else c

-- calculateExpiry: none where the secret is not to be stored
unfoldable pub calculate_expiry : Cache → ℕ → Option ℕ → Option ℕ
calculate_expiry c now backend =
    let ttl = now + c.default_ttl in
    if c.default_ttl == 0 then none else elim backend [
      | none ↦ some ttl
      | some e ↦ if ltb e ttl then if ltb e now then none else some e else some ttl
    ]

unfoldable pub put_locked : Cache → String → Secret → ℕ → Cache
unfolding calculate_expiry remove_entry evict
put_locked c key secret now = elim (calculate_expiry c now secret.expires_at) [
  | none ↦ c
  | some expires ↦
      -- The loop that removes the tail runs on the keys from the tail to the head.
      let d = if has c.entries key then remove_entry c key else c in
      let (order, entries) = evict d.capacity (reverse d.order) d.entries in
      record d {
        entries = put entries key (record { secret = secret; expires_at = expires });
        order = key ∷ reverse order;
      }
]

unfoldable pub cache_put : Cache → String → Secret → ℕ → Cache
unfolding is_disabled drop_generation put_locked
cache_put c key secret now =
    if is_disabled c key then c else put_locked (drop_generation c key) key secret now

unfoldable pub put_if_match : Cache → String → Secret → FetchToken → ℕ → Cache
unfolding is_disabled is_current drop_generation put_locked
put_if_match c key secret ft now =
    if is_disabled c key || ft.token == 0 || ft.clear_epoch != c.clear_epoch
    then c
    else if is_current c key ft
    then put_locked (drop_generation c key) key secret now
    else c

unfoldable pub invalidate : Cache → String → Cache
unfolding drop_generation remove_entry
invalidate c key =
    if key == ""
    then c
    else let d = drop_generation c key in if has d.entries key then remove_entry d key else d

unfoldable pub clear : Cache → Cache
clear c = record c {
  clear_epoch = next_uint64 c.clear_epoch;
  generations = [];
  generation_keys = [];
  entries = [];
  order = [];
}
