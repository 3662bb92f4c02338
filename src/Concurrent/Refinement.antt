-- ===== src/Concurrent/Refinement.antt =====
-- core/concurrent/concurrent_map.go: the shards together are one map.
use xops_cli.Base.{
  Eq, List, Option, [], ap, arith, if◌then◌else◌, none, refl, some, subst, sym, ℕ, ◌%◌, ◌<◌, ◌==◌,
  ◌≡◌, ◌∷◌, ◌∙◌, if◌then◌else◌, nat_eq,
}
use xops_cli.Base.Dict.{Dict, get, put, put-IsUnique}
use xops_cli.Concurrent.Shards.{
  Answer, Op, ShardMap, act, apply_all, batch_all, copy_shards, set, set_all, set_map, apply_key,
  apply_op, clear, done, empty_shards, new_map, on_key, shard_at, with_shard,
}
use xops_cli.Concurrent.Views.{shard_at-some, slot}
use native.Mathlib.Nat.{mod-lt}
use mathlib.Core.Path.{fun_ext}
use xops_cli.Concurrent.Batches.{
  AllUnique, copy_items-get, empty_shards-AllUnique, length-copy, over, over-if, shard_at-copy,
  with_shard-AllUnique,
}
use xops_cli.Concurrent.Steps.{
  Refines, Represents, clear-Refines, empty-Represents, get_shard-found, key-Refines, some-same,
  spec_all, spec_op, spec_set,
}

module _ {ℓ κ} {K : Type κ} {V : Type ℓ} ⦃e : Eq K⦄ ⦃f : Eq V⦄ where
  spec_set-over :
      (values batch : K → Option V) (entries : Dict K V) (j : K)
      → spec_set (λ x. over (values x) (batch x)) entries j
        ≡ over (values j) (spec_set batch entries j)
  unfolding spec_set
  spec_set-over values batch [] j = refl
  spec_set-over values batch ((k, v) ∷ entries) j =
      ap (λ g. spec_set g entries j) (fun_ext (λ x. over-if (k == x) (values x) (batch x) v))
      ∙ spec_set-over values (λ x. if k == x then some v else batch x) entries j

  module _ (hash : K → ℕ) where
    -- The batches of the entries, each with a key once
    record Batched (count : ℕ) (result : Option (ShardMap K V)) (values : K → Option V)
        : Type (ℓ ⊔ κ) where
      pub after : ShardMap K V
      pub runs : result ≡ some after
      pub represents : Represents hash after values
      pub unique : AllUnique after.shards
      pub same_count : after.shard_count ≡ count

    some-inj : {a b : Answer V × ShardMap K V} → some a ≡ some b → a ≡ b
    some-inj h = ground (arith, h)

    -- One entry is put into the batch of its shard.
    one-Batched :
        (k : K) (v : V) (b : ShardMap K V) (values : K → Option V)
        → Represents hash b values
        → AllUnique b.shards
        → (next : ShardMap K V) × (apply_key hash b k (set v) ≡ some (done, next))
          × Represents hash next (spec_op values (on_key k (set v))).1
          × AllUnique next.shards
          × (next.shard_count ≡ b.shard_count)
    unfolding apply_key act
    one-Batched k v b values r u =
        let (items, at, g) = get_shard-found hash b values k r in
        let i = hash k % b.shard_count in
        let next : ShardMap K V = record b { shards = with_shard b.shards i (put items k v) } in
        let made : apply_key hash b k (set v) ≡ some (done, next) = simp (apply_key, g) refl in
        let one = key-Refines hash b values k (set v) r in
        let same : one.after ≡ next = ap (λ x. x.1) (some-inj (sym one.runs ∙ made)) in
        (
          next,
          made,
          subst (λ m. Represents hash m (spec_op values (on_key k (set v))).1) same one.represents,
          with_shard-AllUnique b.shards i (put items k v) u (put-IsUnique items k v (u i items at)),
          refl,
        )

    all-Batched :
        (entries : Dict K V) (b : ShardMap K V) (values : K → Option V)
        → Represents hash b values
        → AllUnique b.shards
        → Batched b.shard_count (batch_all hash b entries) (spec_set values entries)
    unfolding batch_all spec_set spec_op slot
    all-Batched [] b values r u = record {
      after = b;
      runs = refl;
      represents = r;
      unique = u;
      same_count = refl;
    }
    all-Batched ((k, v) ∷ entries) b values r u =
        let (next, made, represents, unique, same) = one-Batched k v b values r u in
        let rest =
          all-Batched entries next (λ j. if k == j then some v else values j) represents unique in
        record {
          after = rest.after;
          runs = simp (batch_all, made) rest.runs;
          represents = rest.represents;
          unique = rest.unique;
          same_count = rest.same_count ∙ same;
        }

    copied-agrees :
        (m b : ShardMap K V) (values batch : K → Option V) (j : K) (its : Dict K V)
        → Represents hash m values
        → Represents hash b batch
        → AllUnique b.shards
        → b.shard_count ≡ m.shard_count
        → shard_at (copy_shards m.shards b.shards) (hash j % m.shard_count) ≡ some its
        → get its j ≡ over (values j) (batch j)
    copied-agrees m b values batch j its r q u c h =
        let i = hash j % m.shard_count in
        let bound = mod-lt (hash j) r.some_shards in
        let (items, at) = shard_at-some m.shards i (omega (arith, bound, r.all_shards)) in
        let (new, at') = shard_at-some b.shards i (omega (arith, bound, q.all_shards, c)) in
        let its_same = some-same (sym (shard_at-copy m.shards b.shards i items new at at') ∙ h) in
        let there' = subst (λ n. shard_at b.shards (hash j % n) ≡ some new) (sym c) at' in
        ap (λ d. get d j) (sym its_same)
        ∙ copy_items-get items new j (u i new at')
        ∙ ap (λ x. over x (get new j)) (r.agrees j items at)
        ∙ ap (λ x. over (values j) x) (q.agrees j new there')

    set_map-runs :
        (m b : ShardMap K V) (entries : Dict K V)
        → batch_all hash
            (record { shards = empty_shards m.shard_count; shard_count = m.shard_count })
            entries
          ≡ some b
        → set_map hash m entries ≡ some (record m { shards = copy_shards m.shards b.shards })
    unfolding set_map
    set_map-runs m b entries h = ground (arith, h)

    set_all-runs :
        (m next : ShardMap K V) (entries : Dict K V)
        → set_map hash m entries ≡ some next
        → apply_op hash m (set_all entries) ≡ some (done, next)
    unfolding apply_op
    set_all-runs m next entries h = ground (arith, h)

    set-Refines :
        (m : ShardMap K V) (values : K → Option V) (entries : Dict K V)
        → Represents hash m values
        → Refines hash (apply_op hash m (set_all entries)) (spec_op values (set_all entries))
    unfolding spec_op
    set-Refines m values entries r =
        let b =
          all-Batched entries
            (record { shards = empty_shards m.shard_count; shard_count = m.shard_count })
            (λ j. none) (empty-Represents hash m.shard_count r.some_shards)
            (empty_shards-AllUnique m.shard_count) in
        record {
          after = record m { shards = copy_shards m.shards b.after.shards };
          runs =
              set_all-runs m (record m { shards = copy_shards m.shards b.after.shards }) entries
                (set_map-runs m b.after entries b.runs);
          represents = record {
            some_shards = r.some_shards;
            all_shards = length-copy m.shards b.after.shards ∙ r.all_shards;
            agrees = λ j its h.
                copied-agrees m b.after values (spec_set (λ x. none) entries) j its r b.represents
                  b.unique b.same_count h
                ∙ sym (spec_set-over values (λ x. none) entries j);
          };
        }

    op-Refines :
        (m : ShardMap K V) (values : K → Option V) (op : Op K V)
        → Represents hash m values
        → Refines hash (apply_op hash m op) (spec_op values op)
    unfolding apply_op
    op-Refines m values (on_key k op) r = key-Refines hash m values k op r
    op-Refines m values (set_all entries) r = set-Refines m values entries r
    op-Refines m values clear r = clear-Refines hash m values r

    -- Operations that all run, with the answers and the map of the plain ones
    pub record Implements (result : Option (List (Answer V) × ShardMap K V))
        (spec : List (Answer V) × (K → Option V)) : Type (ℓ ⊔ κ) where
      pub last : ShardMap K V
      pub runs : result ≡ some (spec.0, last)
      pub represents : Represents hash last spec.1

    all-Implements :
        (ops : List (Op K V)) (m : ShardMap K V) (values : K → Option V)
        → Represents hash m values
        → Implements (apply_all hash m ops) (spec_all values ops)
    unfolding apply_all spec_all
    all-Implements [] m values r = record { last = m; runs = refl; represents = r }
    all-Implements (op ∷ ops) m values r =
        let one = op-Refines m values op r in
        let rest = all-Implements ops one.after (spec_op values op).1 one.represents in
        record {
          last = rest.last;
          runs = simp (apply_all, one.runs, rest.runs) refl;
          represents = rest.represents;
        }

    -- A map of any positive number of shards, whatever the hash function, behaves as one plain map
    -- does: from a new map on, no sequence of operations panics, each operation answers what it
    -- answers on the plain map, and afterwards the shard of each key has the plain map's value.
    pub new_map-Implements :
        (count : ℕ) (ops : List (Op K V))
        → 0 < count
        → Implements (apply_all hash (new_map (some count)) ops) (spec_all (λ k. none) ops)
    unfolding new_map
    new_map-Implements count ops c =
        all-Implements ops (new_map (some count)) (λ k. none) (empty-Represents hash count c)
