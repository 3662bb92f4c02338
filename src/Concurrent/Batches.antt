-- ===== src/Concurrent/Batches.antt =====
-- core/concurrent/concurrent_map.go: copying a batch into a shard.
use xops_cli.Base.{
  Bool, Bool-cases, Eq, List, Option, [], arith, false, if◌then◌else◌, inl, inr, length, none, refl,
  some, suc, true, zero, ℕ, ◌==◌, ◌≡◌, ◌∷◌, ==→eq, subst,
}
use xops_cli.Base.Dict.{Dict, IsUnique, get, get-put, has, has-get, no_keys, one_more, put}
use xops_cli.Concurrent.Shards.{copy_items, copy_shards, shard_at, with_shard, empty_shards}

-- The value of the second one, where it has one
abbrev pub over {ℓ} : {V : Type ℓ} → Option V → Option V → Option V
over old none = old
over old (some v) = some v

pub over-if {ℓ} :
    {V : Type ℓ} (b : Bool) (old new : Option V) (v : V)
    → (if b then some v else over old new) ≡ over old (if b then some v else new)
over-if true old new v = refl
over-if false old new v = refl

module _ {ℓ κ} {K : Type κ} {V : Type ℓ} ⦃e : Eq K⦄ where
  pub copy_items-get :
      (items batch : Dict K V) (j : K)
      → IsUnique batch
      → get (copy_items items batch) j ≡ over (get items j) (get batch j)
  unfolding copy_items get
  copy_items-get items [] j u = refl
  copy_items-get items ((k, v) ∷ batch) j (one_more n u) = elim (Bool-cases (k == j)) [
    | inl c ↦
        let none_later : get batch j ≡ none =
          ground (arith, has-get batch j, subst (λ x. has batch x ≡ false) (==→eq k j c) n) in
        ground (arith, copy_items-get (put items k v) batch j u, get-put items k v j, c, none_later)
    | inr c ↦ ground (arith, copy_items-get (put items k v) batch j u, get-put items k v j, c)
  ]

  -- What is at a place of both lists is copied there.
  pub shard_at-copy :
      (shards batches : List (Dict K V)) (i : ℕ) (items batch : Dict K V)
      → shard_at shards i ≡ some items
      → shard_at batches i ≡ some batch
      → shard_at (copy_shards shards batches) i ≡ some (copy_items items batch)
  unfolding shard_at copy_shards
  shard_at-copy [] batches i items batch s b = absurd (cc s)
  shard_at-copy (x ∷ shards) [] i items batch s b = absurd (cc b)
  shard_at-copy (x ∷ shards) (y ∷ batches) zero items batch s b = ground (arith, s, b)
  shard_at-copy (x ∷ shards) (y ∷ batches) (suc i) items batch s b =
      shard_at-copy shards batches i items batch s b

  pub length-copy :
      (shards batches : List (Dict K V)) → length (copy_shards shards batches) ≡ length shards
  unfolding copy_shards
  length-copy [] batches = refl
  length-copy (x ∷ shards) [] = refl
  length-copy (x ∷ shards) (y ∷ batches) = omega (arith, length-copy shards batches)

  -- Every shard has each key once.
  abbrev pub AllUnique : List (Dict K V) → Type (ℓ ⊔ κ)
  AllUnique shards = (i : ℕ) (items : Dict K V) → shard_at shards i ≡ some items → IsUnique items

  some-same : {x y : Dict K V} → some x ≡ some y → x ≡ y
  some-same h = ground (arith, h)

  pub with_shard-AllUnique :
      (shards : List (Dict K V)) (i : ℕ) (next : Dict K V)
      → AllUnique shards
      → IsUnique next
      → AllUnique (with_shard shards i next)
  unfolding shard_at with_shard
  with_shard-AllUnique [] i next a u j items h = absurd (cc h)
  with_shard-AllUnique (x ∷ shards) zero next a u zero items h = subst IsUnique (some-same h) u
  with_shard-AllUnique (x ∷ shards) zero next a u (suc j) items h = a (suc j) items h
  with_shard-AllUnique (x ∷ shards) (suc i) next a u zero items h = a zero items h
  with_shard-AllUnique (x ∷ shards) (suc i) next a u (suc j) items h =
      with_shard-AllUnique shards i next (λ l its h'. a (suc l) its h') u j items h

  pub empty_shards-AllUnique : (n : ℕ) → AllUnique (empty_shards n)
  unfolding shard_at empty_shards
  empty_shards-AllUnique zero i items h = absurd (cc h)
  empty_shards-AllUnique (suc n) zero items h = subst IsUnique (some-same h) no_keys
  empty_shards-AllUnique (suc n) (suc i) items h = empty_shards-AllUnique n i items h
