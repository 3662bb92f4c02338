-- ===== src/Concurrent/Views.antt =====
-- core/concurrent/concurrent_map.go: one shard, and the shards of a map.
use xops_cli.Base.{
  Eq, List, Option, [], ap, arith, false, if◌then◌else◌, length, none, refl, some, suc, true, zero,
  ℕ, ◌<◌, ◌==◌, ◌≡◌, ◌≢◌, ◌∷◌,
}
use xops_cli.Base.Dict.{Dict, get, get-delete, get-put}
use xops_cli.Concurrent.Shards.{
  Answer, KeyOp, act, done, found, look_up, pop, remove, remove_if_match, removed, set,
  set_if_absent, shard_at, stored, upsert, value, with_shard,
}

-- What an operation answers, and what it leaves under its key, given what was there
unfoldable pub slot {ℓ} : {V : Type ℓ} ⦃f : Eq V⦄ → KeyOp V → Option V → Answer V × Option V
slot (set v) old = (done, some v)
slot look_up old = (found old, old)
slot remove old = (done, none)
slot pop old = (found old, none)
slot (remove_if_match expected) none = (removed false, none)
slot (remove_if_match expected) (some v) =
    if v == expected then (removed true, none) else (removed false, some v)
slot (upsert cb) old = (value (cb old), some (cb old))
slot (set_if_absent v) none = (stored v true, some v)
slot (set_if_absent v) (some old) = (stored old false, some old)

module _ {ℓ κ} {K : Type κ} {V : Type ℓ} ⦃e : Eq K⦄ ⦃f : Eq V⦄ where
  pub act-answer :
      (k : K) (op : KeyOp V) (items : Dict K V) → (act k op items).0 ≡ (slot op (get items k)).0
  unfolding act slot
  act-answer k (set v) items = refl
  act-answer k look_up items = refl
  act-answer k remove items = refl
  act-answer k pop items = ground arith
  act-answer k (remove_if_match v) items = ground arith
  act-answer k (upsert cb) items = refl
  act-answer k (set_if_absent v) items = ground arith

  pub act-get :
      (k : K) (op : KeyOp V) (items : Dict K V) (j : K)
      → get (act k op items).1 j ≡ (if k == j then (slot op (get items k)).1 else get items j)
  unfolding act slot
  act-get k (set v) items j = get-put items k v j
  act-get k look_up items j = ground (arith, e.beq_iff k j)
  act-get k remove items j = get-delete items k j
  act-get k pop items j = ground (arith, e.beq_iff k j, get-delete items k j)
  act-get k (remove_if_match v) items j = ground (arith, e.beq_iff k j, get-delete items k j)
  act-get k (upsert cb) items j = get-put items k (cb (get items k)) j
  act-get k (set_if_absent v) items j = ground (arith, e.beq_iff k j, get-put items k v j)

module _ {ℓ} {A : Type ℓ} where
  pub shard_at-some : (xs : List A) (i : ℕ) → i < length xs → (x : A) × (shard_at xs i ≡ some x)
  unfolding shard_at
  shard_at-some [] i h = absurd (omega arith)
  shard_at-some (x ∷ xs) zero h = (x, refl)
  shard_at-some (x ∷ xs) (suc i) h = shard_at-some xs i (omega arith)

  pub with_shard-same :
      (xs : List A) (i : ℕ) (a : A) → i < length xs → shard_at (with_shard xs i a) i ≡ some a
  unfolding shard_at with_shard
  with_shard-same [] i a h = absurd (omega arith)
  with_shard-same (x ∷ xs) zero a h = refl
  with_shard-same (x ∷ xs) (suc i) a h = with_shard-same xs i a (omega arith)

  pub with_shard-other :
      (xs : List A) (i j : ℕ) (a : A) → i ≢ j → shard_at (with_shard xs i a) j ≡ shard_at xs j
  unfolding shard_at with_shard
  with_shard-other [] i j a n = refl
  with_shard-other (x ∷ xs) zero zero a n = absurd (n refl)
  with_shard-other (x ∷ xs) zero (suc j) a n = refl
  with_shard-other (x ∷ xs) (suc i) zero a n = refl
  with_shard-other (x ∷ xs) (suc i) (suc j) a n = with_shard-other xs i j a (λ p. n (ap suc p))

  pub length-with_shard : (xs : List A) (i : ℕ) (a : A) → length (with_shard xs i a) ≡ length xs
  unfolding with_shard
  length-with_shard [] i a = refl
  length-with_shard (x ∷ xs) zero a = refl
  length-with_shard (x ∷ xs) (suc i) a = omega (arith, length-with_shard xs i a)
