-- ===== src/Base/Dict.antt =====
-- Go's maps, as association lists in the order in which a range visits them.
use mathlib.Core.Path.{◌≡◌, refl, subst}
use mathlib.Core.Bool.{Bool, true, false, ◌||◌}
use mathlib.Core.List.{List, [], ◌∷◌}
use mathlib.Core.Option.{Option, none, some}
use mathlib.Core.Logic.{inl, inr}
use Prim.Native.Nat.{suc, ◌≤◌}
use native.Mathlib.Omega.{arith}
use xops_cli.Base.Tests.{==→eq, Bool-cases, Eq, ◌==◌, if◌then◌else◌}
use xops_cli.Base.Lists.{length}

abbrev pub Dict {ℓ κ} : Type κ → Type ℓ → Type (ℓ ⊔ κ)
Dict K V = List (K × V)

module _ {ℓ κ} {K : Type κ} {V : Type ℓ} ⦃e : Eq K⦄ where
  unfoldable pub get : Dict K V → K → Option V
  get [] k = none
  get ((j, v) ∷ m) k = if j == k then some v else get m k

  -- m[k] = v
  unfoldable pub put : Dict K V → K → V → Dict K V
  put [] k v = (k, v) ∷ []
  put ((j, w) ∷ m) k v = if j == k then (k, v) ∷ m else (j, w) ∷ put m k v

  -- delete(m, k)
  unfoldable pub delete : Dict K V → K → Dict K V
  delete [] k = []
  delete ((j, w) ∷ m) k = if j == k then delete m k else (j, w) ∷ delete m k

  -- _, ok := m[k]
  unfoldable pub has : Dict K V → K → Bool
  has [] k = false
  has ((j, w) ∷ m) k = j == k || has m k

  pub get-put :
      (m : Dict K V) (k : K) (v : V) (j : K)
      → get (put m k v) j ≡ (if k == j then some v else get m j)
  unfolding get put
  get-put [] k v j = refl
  get-put ((i, w) ∷ m) k v j =
      ground (arith, e.beq_iff i k, e.beq_iff i j, e.beq_iff k j, get-put m k v j)

  pub get-delete :
      (m : Dict K V) (k j : K) → get (delete m k) j ≡ (if k == j then none else get m j)
  unfolding get delete
  get-delete [] k j = ground arith
  get-delete ((i, w) ∷ m) k j =
      ground (arith, e.beq_iff i k, e.beq_iff i j, e.beq_iff k j, get-delete m k j)

  pub has-put : (m : Dict K V) (k : K) (v : V) (j : K) → has (put m k v) j ≡ (k == j || has m j)
  unfolding has put
  has-put [] k v j = refl
  has-put ((i, w) ∷ m) k v j =
      ground (arith, e.beq_iff i k, e.beq_iff i j, e.beq_iff k j, has-put m k v j)

  pub has-delete :
      (m : Dict K V) (k j : K) → has (delete m k) j ≡ (if k == j then false else has m j)
  unfolding has delete
  has-delete [] k j = ground arith
  has-delete ((i, w) ∷ m) k j =
      ground (arith, e.beq_iff i k, e.beq_iff i j, e.beq_iff k j, has-delete m k j)

  pub length-put-le : (m : Dict K V) (k : K) (v : V) → length (put m k v) ≤ suc (length m)
  unfolding put
  length-put-le [] k v = omega arith
  length-put-le ((i, w) ∷ m) k v = ground (arith, length-put-le m k v)

  pub length-delete-le : (m : Dict K V) (k : K) → length (delete m k) ≤ length m
  unfolding delete
  length-delete-le [] k = omega arith
  length-delete-le ((i, w) ∷ m) k = ground (arith, length-delete-le m k)

  pub has-get : (m : Dict K V) (k : K) → has m k ≡ elim (get m k) [ none ↦ false | some v ↦ true ]
  unfolding has get
  has-get [] k = refl
  has-get ((j, v) ∷ m) k = ground (arith, has-get m k)

  -- No key comes twice.
  pub data IsUnique : Dict K V → Type (ℓ ⊔ κ) where
    no_keys : IsUnique []
    one_more : {k : K} {v : V} {d : Dict K V} → has d k ≡ false → IsUnique d → IsUnique ((k, v) ∷ d)

  pub put-IsUnique : (d : Dict K V) (k : K) (v : V) → IsUnique d → IsUnique (put d k v)
  unfolding put has
  put-IsUnique [] k v u = one_more refl no_keys
  put-IsUnique ((j, w) ∷ d) k v (one_more n u) = elim (Bool-cases (j == k)) [
    | inl c ↦ simp (put, c) (one_more (subst (λ x. has d x ≡ false) (==→eq j k c) n) u)
    | inr c ↦
        simp (put, c)
          (one_more (ground (arith, has-put d k v j, n, c, e.beq_iff k j, e.beq_iff j k))
            (put-IsUnique d k v u))
  ]

  pub delete-IsUnique : (d : Dict K V) (k : K) → IsUnique d → IsUnique (delete d k)
  unfolding delete
  delete-IsUnique [] k u = no_keys
  delete-IsUnique ((j, w) ∷ d) k (one_more n u) = elim (Bool-cases (j == k)) [
    | inl c ↦ simp (delete, c) (delete-IsUnique d k u)
    | inr c ↦
        simp (delete, c) (one_more (ground (arith, has-delete d k j, n, c)) (delete-IsUnique d k u))
  ]

  pub delete-absent : (d : Dict K V) (k : K) → has d k ≡ false → delete d k ≡ d
  unfolding has delete
  delete-absent [] k h = refl
  delete-absent ((j, w) ∷ d) k h = ground (arith, h, delete-absent d k)

pub ruleset dict_laws = (get-put, get-delete, has-put, has-delete)
