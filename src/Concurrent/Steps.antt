-- ===== src/Concurrent/Steps.antt =====
-- core/concurrent/concurrent_map.go: one operation on a shard, and on the plain map.
use xops_cli.Base.{
  Bool-cases, Eq, List, Option, [], ap, arith, false, if◌then◌else◌, inl, inr, length, length-map,
  map, none, refl, some, subst, suc, sym, zero, ℕ, ◌%◌, ◌<◌, ◌==◌, ◌≡◌, ◌≢◌, ◌∷◌, ◌∙◌, ==→eq,
  ==_false, if◌then◌else◌, nat_eq,
}
use xops_cli.Base.Dict.{Dict, get}
use xops_cli.Concurrent.Shards.{
  Answer, KeyOp, Op, ShardMap, act, apply_key, clear, clear_map, done, empty_shards, get_shard,
  on_key, set_all, shard_at, with_shard,
}
use xops_cli.Concurrent.Views.{
  act-answer, act-get, length-with_shard, shard_at-some, slot, with_shard-other, with_shard-same,
}
use native.Mathlib.Nat.{mod-lt}

length-empty_shards {ℓ κ} :
    (K : Type κ) (V : Type ℓ) (n : ℕ) → length (empty_shards {K = K} {V = V} n) ≡ n
unfolding empty_shards
length-empty_shards K V zero = refl
length-empty_shards K V (suc n) = omega (arith, length-empty_shards K V n)

module _ {ℓ κ} {K : Type κ} {V : Type ℓ} ⦃e : Eq K⦄ ⦃f : Eq V⦄ where
  -- The plain map that a key's value is looked up in, and its operations
  unfoldable pub spec_set : (K → Option V) → Dict K V → K → Option V
  spec_set values [] = values
  spec_set values ((k, v) ∷ entries) = spec_set (λ j. if k == j then some v else values j) entries

  unfoldable pub spec_op : (K → Option V) → Op K V → Answer V × (K → Option V)
  unfolding spec_set
  spec_op values (on_key k op) =
      ((slot op (values k)).0, λ j. if k == j then (slot op (values k)).1 else values j)
  spec_op values clear = (done, λ j. none)
  spec_op values (set_all entries) = (done, spec_set values entries)

  unfoldable pub spec_all : (K → Option V) → List (Op K V) → List (Answer V) × (K → Option V)
  unfolding spec_op
  spec_all values [] = ([], values)
  spec_all values (op ∷ ops) =
      let (answer, values') = spec_op values op in
      let (answers, last) = spec_all values' ops in (answer ∷ answers, last)

  pub some-same : {x y : Dict K V} → some x ≡ some y → x ≡ y
  some-same h = ground (arith, h)

  cleared-get :
      (shards : List (Dict K V)) (i : ℕ) (items : Dict K V) (j : K)
      → shard_at (map (λ items. []) shards) i ≡ some items
      → get items j ≡ none
  unfolding shard_at get
  cleared-get [] i items j h = absurd (cc h)
  cleared-get (s ∷ shards) zero items j h = ap (λ d. get d j) (sym (some-same h))
  cleared-get (s ∷ shards) (suc i) items j h = cleared-get shards i items j h

  empty_shards-get :
      (n i : ℕ) (items : Dict K V) (j : K)
      → shard_at (empty_shards n) i ≡ some items
      → get items j ≡ none
  unfolding shard_at get empty_shards
  empty_shards-get zero i items j h = absurd (cc h)
  empty_shards-get (suc n) zero items j h = ap (λ d. get d j) (sym (some-same h))
  empty_shards-get (suc n) (suc i) items j h = empty_shards-get n i items j h

  module _ (hash : K → ℕ) where
    -- Each key has in its own shard the value that the plain map has.
    pub record Represents (m : ShardMap K V) (values : K → Option V) : Type (ℓ ⊔ κ) where
      pub some_shards : 0 < m.shard_count
      pub all_shards : length m.shards ≡ m.shard_count
      pub agrees :
          (k : K) (items : Dict K V)
          → shard_at m.shards (hash k % m.shard_count) ≡ some items
          → get items k ≡ values k

    -- An operation that has no panic, with the answer and the map of the plain one
    pub record Refines (result : Option (Answer V × ShardMap K V))
        (spec : Answer V × (K → Option V)) : Type (ℓ ⊔ κ) where
      pub after : ShardMap K V
      pub runs : result ≡ some (spec.0, after)
      pub represents : Represents after spec.1

    pub get_shard-found :
        (m : ShardMap K V) (values : K → Option V) (k : K)
        → Represents m values
        → (items : Dict K V) × (shard_at m.shards (hash k % m.shard_count) ≡ some items)
          × (get_shard hash m k ≡ some (hash k % m.shard_count, items))
    unfolding get_shard
    get_shard-found m values k r =
        let bound = mod-lt (hash k) r.some_shards in
        let (items, at) =
          shard_at-some m.shards (hash k % m.shard_count) (omega (arith, bound, r.all_shards)) in
        let positive : (m.shard_count == 0) ≡ false = ground (arith, r.some_shards) in
        (items, at, simp (get_shard, positive, at) refl)

    same-shard :
        (m : ShardMap K V) (values : K → Option V) (k j : K) (op : KeyOp V) (items next : Dict K V)
        → Represents m values
        → shard_at m.shards (hash k % m.shard_count) ≡ some items
        → hash k % m.shard_count ≡ hash j % m.shard_count
        → (act k op items).1 ≡ next
        → get next j ≡ (spec_op values (on_key k op)).1 j
    unfolding spec_op
    same-shard m values k j op items next r at i n =
        let here_k = r.agrees k items at in
        let here_j = r.agrees j items (subst (λ x. shard_at m.shards x ≡ some items) i at) in
        ap (λ d. get d j) (sym n)
        ∙ act-get k op items j
        ∙ ap (λ v. if k == j then (slot op v).1 else get items j) here_k
        ∙ ap (λ v. if k == j then (slot op (values k)).1 else v) here_j

    other-shard :
        (m : ShardMap K V) (values : K → Option V) (k j : K) (op : KeyOp V) (items : Dict K V)
        → get items j ≡ values j
        → hash k % m.shard_count ≢ hash j % m.shard_count
        → get items j ≡ (spec_op values (on_key k op)).1 j
    unfolding spec_op
    other-shard m values k j op items same n = elim (Bool-cases (k == j)) [
      | inl c ↦ absurd (n (ap (λ x. hash x % m.shard_count) (==→eq k j c)))
      | inr c ↦ rw c same
    ]

    pub key-Refines :
        (m : ShardMap K V) (values : K → Option V) (k : K) (op : KeyOp V)
        → Represents m values
        → Refines (apply_key hash m k op) (spec_op values (on_key k op))
    unfolding apply_key spec_op
    key-Refines m values k op r =
        let (items, at, g) = get_shard-found m values k r in
        let i = hash k % m.shard_count in
        let next = (act k op items).1 in
        let bound : i < length m.shards =
          omega (arith, mod-lt (hash k) r.some_shards, r.all_shards) in
        record {
          after = record m { shards = with_shard m.shards i next };
          runs =
              simp (apply_key, g)
                (ap (λ a. some (a, record m { shards = with_shard m.shards i next }))
                  (act-answer k op items ∙ ap (λ v. (slot op v).0) (r.agrees k items at)));
          represents = record {
            some_shards = r.some_shards;
            all_shards = length-with_shard m.shards i next ∙ r.all_shards;
            agrees = λ j its h. elim (Bool-cases (i == hash j % m.shard_count)) [
              | inl c ↦
                  let same = ==→eq i (hash j % m.shard_count) c in
                  let h' =
                    subst (λ x. shard_at (with_shard m.shards i next) x ≡ some its) (sym same) h in
                  same-shard m values k j op items its r at same
                    (some-same (sym (with_shard-same m.shards i next bound) ∙ h'))
              | inr c ↦
                  let n = ==_false i (hash j % m.shard_count) c in
                  other-shard m values k j op its
                    (r.agrees j its
                      (sym (with_shard-other m.shards i (hash j % m.shard_count) next n) ∙ h))
                    n
            ];
          };
        }

    pub clear-Refines :
        (m : ShardMap K V) (values : K → Option V)
        → Represents m values
        → Refines (some (done, clear_map hash m)) (spec_op values clear)
    unfolding clear_map spec_op
    clear-Refines m values r = record {
      after = clear_map hash m;
      runs = refl;
      represents = record {
        some_shards = r.some_shards;
        all_shards = length-map (λ items. []) m.shards ∙ r.all_shards;
        agrees = λ j its h. cleared-get m.shards (hash j % m.shard_count) its j h;
      };
    }

    pub empty-Represents :
        (count : ℕ)
        → 0 < count
        → Represents (record { shards = empty_shards count; shard_count = count }) (λ k. none)
    empty-Represents count c = record {
      some_shards = c;
      all_shards = length-empty_shards K V count;
      agrees = λ k items h. empty_shards-get count (hash k % count) items k h;
    }
