-- ===== src/Concurrent/Shards.antt =====
-- core/concurrent/concurrent_map.go: the map, its shards and its operations.
use xops_cli.Base.{
  Bool, Eq, List, Option, [], false, if◌then◌else◌, map, none, some, suc, true, zero, ℕ, ◌%◌, ◌==◌,
  ◌∷◌, nat_eq,
}
use xops_cli.Base.Dict.{Dict, delete, get, put}

-- Map, whose locks each operation holds while it uses a shard
pub record ShardMap {ℓ κ} (K : Type κ) (V : Type ℓ) : Type (ℓ ⊔ κ) where
  pub shards : List (Dict K V)
  pub shard_count : ℕ

-- The operations on one key. The argument of Upsert gets the old value, if there is one.
pub data KeyOp {ℓ} (V : Type ℓ) : Type ℓ where
  set : V → KeyOp V
  look_up remove pop : KeyOp V
  remove_if_match : V → KeyOp V
  upsert : (Option V → V) → KeyOp V
  set_if_absent : V → KeyOp V

pub data Answer {ℓ} (V : Type ℓ) : Type ℓ where
  done : Answer V
  found : Option V → Answer V
  removed : Bool → Answer V
  value : V → Answer V
  stored : V → Bool → Answer V

pub data Op {ℓ κ} (K : Type κ) (V : Type ℓ) : Type (ℓ ⊔ κ) where
  on_key : K → KeyOp V → Op K V
  clear : Op K V
  set_all : Dict K V → Op K V

unfoldable pub empty_shards {ℓ κ} : {K : Type κ} {V : Type ℓ} → ℕ → List (Dict K V)
empty_shards zero = []
empty_shards (suc n) = [] ∷ empty_shards n

-- NewMap, with 32 shards or the number that WithShardCount gives
unfoldable pub new_map {ℓ κ} : {K : Type κ} {V : Type ℓ} → Option ℕ → ShardMap K V
unfolding empty_shards
new_map none = record { shards = empty_shards 32; shard_count = 32 }
new_map (some count) = record { shards = empty_shards count; shard_count = count }

unfoldable pub shard_at {ℓ} : {A : Type ℓ} → List A → ℕ → Option A
shard_at [] i = none
shard_at (x ∷ xs) zero = some x
shard_at (x ∷ xs) (suc i) = shard_at xs i

unfoldable pub with_shard {ℓ} : {A : Type ℓ} → List A → ℕ → A → List A
with_shard [] i a = []
with_shard (x ∷ xs) zero a = a ∷ xs
with_shard (x ∷ xs) (suc i) a = x ∷ with_shard xs i a

module _ {ℓ κ} {K : Type κ} {V : Type ℓ} ⦃e : Eq K⦄ where
  -- maps.Copy
  unfoldable pub copy_items : Dict K V → Dict K V → Dict K V
  copy_items items [] = items
  copy_items items ((k, v) ∷ batch) = copy_items (put items k v) batch

  unfoldable pub copy_shards : List (Dict K V) → List (Dict K V) → List (Dict K V)
  unfolding copy_items
  copy_shards [] batches = []
  copy_shards (items ∷ shards) [] = items ∷ shards
  copy_shards (items ∷ shards) (batch ∷ batches) =
      copy_items items batch ∷ copy_shards shards batches

module _ {ℓ κ} {K : Type κ} {V : Type ℓ} ⦃e : Eq K⦄ ⦃f : Eq V⦄ where
  -- What is done to the items of the key's shard: Set, Get, Remove, Pop, RemoveIfMatch, Upsert and
  -- SetIfAbsent
  unfoldable pub act : K → KeyOp V → Dict K V → Answer V × Dict K V
  act k (set v) items = (done, put items k v)
  act k look_up items = (found (get items k), items)
  act k remove items = (done, delete items k)
  act k pop items = elim (get items k) [
    | none ↦ (found none, items)
    | some v ↦ (found (some v), delete items k)
  ]
  act k (remove_if_match expected) items = elim (get items k) [
    | none ↦ (removed false, items)
    | some v ↦ if v == expected then (removed true, delete items k) else (removed false, items)
  ]
  act k (upsert cb) items = let v = cb (get items k) in (value v, put items k v)
  act k (set_if_absent v) items = elim (get items k) [
    | some old ↦ (stored old false, items)
    | none ↦ (stored v true, put items k v)
  ]

  module _ (hash : K → ℕ) where
    -- getShard: `none` is the panic of a division by 0 or of an index out of range.
    unfoldable pub get_shard : ShardMap K V → K → Option (ℕ × Dict K V)
    unfolding shard_at
    get_shard m k =
        let i = hash k % m.shard_count in
        if m.shard_count == 0
        then none
        else elim (shard_at m.shards i) [ none ↦ none | some items ↦ some (i, items) ]

    unfoldable pub apply_key : ShardMap K V → K → KeyOp V → Option (Answer V × ShardMap K V)
    unfolding get_shard act with_shard
    apply_key m k op = elim (get_shard m k) [
      | none ↦ none
      | some (i, items) ↦
          let (answer, items') = act k op items in
          some (answer, record m { shards = with_shard m.shards i items' })
    ]

    -- Clear
    unfoldable pub clear_map : ShardMap K V → ShardMap K V
    clear_map m = record m { shards = map (λ items. []) m.shards }

    -- MSet sorts the entries into batches, one per shard. `none` is getShard's panic.
    unfoldable pub batch_all : ShardMap K V → Dict K V → Option (ShardMap K V)
    unfolding apply_key
    batch_all batches [] = some batches
    batch_all batches ((k, v) ∷ entries) = elim (apply_key batches k (set v)) [
      | none ↦ none
      | some (answer, batches') ↦ batch_all batches' entries
    ]

    -- MSet
    unfoldable pub set_map : ShardMap K V → Dict K V → Option (ShardMap K V)
    unfolding batch_all copy_shards
    set_map m entries =
        elim (batch_all
          (record { shards = empty_shards m.shard_count; shard_count = m.shard_count }) entries) [
            | none ↦ none
            | some batches ↦ some (record m { shards = copy_shards m.shards batches.shards })
          ]

    unfoldable pub apply_op : ShardMap K V → Op K V → Option (Answer V × ShardMap K V)
    unfolding apply_key clear_map set_map
    apply_op m (on_key k op) = apply_key m k op
    apply_op m clear = some (done, clear_map m)
    apply_op m (set_all entries) = elim (set_map m entries) [
      | none ↦ none
      | some m' ↦ some (done, m')
    ]

    -- A sequence of operations, with their answers in order
    unfoldable pub apply_all :
        ShardMap K V → List (Op K V) → Option (List (Answer V) × ShardMap K V)
    unfolding apply_op
    apply_all m [] = some ([], m)
    apply_all m (op ∷ ops) = elim (apply_op m op) [
      | none ↦ none
      | some (answer, m') ↦ elim (apply_all m' ops) [
        | none ↦ none
        | some (answers, last) ↦ some (answer ∷ answers, last)
      ]
    ]
