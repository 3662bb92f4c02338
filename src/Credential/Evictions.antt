-- ===== src/Credential/Evictions.antt =====
-- pkg/credential/cache.go: evictions from the cache's maps and lists.
use xops_cli.Base.{
  Bool-cases, In, In-append_left, In-append_right, List, String, [], arith, false, here, inl, inr,
  leb, length, map, ==_false, ne→==_false, sym, there, true, ℕ, ◌<◌, ◌==◌, ◌∷◌, ◌≡◌, ==→eq, ==_refl,
  nat_eq, string_eq, text_eq,
}
use mathlib.Core.List.{reverse, reverse-append}
use xops_cli.Base.Dict.{Dict, delete, has, has-delete}
use xops_cli.Credential.Cache.{remove_key, move_to_head, evict, make_room}

-- Every key of the map is in the list.
abbrev pub Covers {ℓ} : {V : Type ℓ} → List String → Dict String V → Type 0
Covers keys m = (k : String) → has m k ≡ true → In k keys

pub In-reverse {ℓ} : {A : Type ℓ} {a : A} {xs : List A} → In a xs → In a (reverse xs)
In-reverse (here {xs = xs}) = rw (reverse-append (_ ∷ []) xs) (In-append_right (reverse xs) here)
In-reverse (there {x = y} {xs = xs} m) =
    rw (reverse-append (y ∷ []) xs) (In-append_left (y ∷ []) (In-reverse m))

pub In-remove_key :
    {j : String} {keys : List String} (k : String)
    → In j keys
    → (k == j) ≡ false
    → In j (remove_key keys k)
unfolding remove_key
In-remove_key {j} k (here {xs = xs}) h = elim (Bool-cases (j == k)) [
  | inl e ↦ absurd (ground (arith, e, ==→eq j k e, string_eq.beq_iff k j))
  | inr e ↦ rw e here
]
In-remove_key {j} k (there {x = y} {xs = xs} m) h = elim (Bool-cases (y == k)) [
  | inl e ↦ rw e (In-remove_key k m h)
  | inr e ↦ rw e (there (In-remove_key k m h))
]

In-tail : {j k : String} {keys : List String} → In j (k ∷ keys) → (k == j) ≡ false → In j keys
In-tail {j = j} here h = absurd (ground (arith, h, ==_refl j))
In-tail (there m) h = m

pub has-delete_cases {ℓ} :
    {V : Type ℓ} (m : Dict String V) (k j : String)
    → has (delete m k) j ≡ true
    → ((k == j) ≡ false) × (has m j ≡ true)
has-delete_cases m k j h = ground (arith, has-delete m k j)

delete-Covers {ℓ} :
    {V : Type ℓ} (keys : List String) (m : Dict String V) (k : String)
    → Covers (k ∷ keys) m
    → Covers keys (delete m k)
delete-Covers keys m k c j h =
    let (other, held) = has-delete_cases m k j h in In-tail (c j held) other

has-first {ℓ} : {V : Type ℓ} (k : String) (v : V) (m : Dict String V) → has ((k, v) ∷ m) k ≡ true
unfolding has
has-first k v m = rw (==_refl k)

none-In : {k : String} → In k [] → ⊥
none-In m = elim m [ ]

pub evict-lt {ℓ} :
    {V : Type ℓ} (capacity : ℕ) (keys : List String) (m : Dict String V)
    → 0 < capacity
    → Covers keys m
    → length (evict capacity keys m).1 < capacity
unfolding evict
evict-lt capacity [] [] room c = room
evict-lt capacity [] ((k, v) ∷ m) room c = absurd (none-In (c k (has-first k v m)))
evict-lt capacity (k ∷ keys) m room c = elim (Bool-cases (leb capacity (length m))) [
  | inl e ↦ rw e (evict-lt capacity keys (delete m k) room (delete-Covers keys m k c))
  | inr e ↦ rw e (ground arith)
]

pub evict-Covers {ℓ} :
    {V : Type ℓ} (capacity : ℕ) (keys : List String) (m : Dict String V)
    → Covers keys m
    → Covers (evict capacity keys m).0 (evict capacity keys m).1
unfolding evict
evict-Covers capacity [] m c = c
evict-Covers capacity (k ∷ keys) m c = elim (Bool-cases (leb capacity (length m))) [
  | inl e ↦ rw e (evict-Covers capacity keys (delete m k) (delete-Covers keys m k c))
  | inr e ↦ rw e c
]

map-Covers {ℓ} : {V : Type ℓ} (m : Dict String V) → Covers (map (λ g. g.0) m) m
unfolding has
map-Covers [] k h = cc
map-Covers ((j, v) ∷ m) k h = elim (Bool-cases (j == k)) [
  | inl e ↦ rw (==→eq j k e) here
  | inr e ↦ there (map-Covers m k (rw e at h))
]

pub make_room-lt :
    (capacity : ℕ) (queue : List String) (m : Dict String ℕ)
    → 0 < capacity
    → length (make_room capacity queue m).1 < capacity
unfolding make_room
make_room-lt capacity queue m room =
    let left = (evict capacity queue m).1 in
    evict-lt capacity (map (λ g. g.0) left) left room (map-Covers left)

pub In-move_to_head :
    {j : String} {keys : List String} (k : String) → In j keys → In j (move_to_head keys k)
unfolding move_to_head
In-move_to_head {j = j} k (here {xs = xs}) = elim (Bool-cases (j == k)) [
  | inl e ↦ rw e here
  | inr e ↦ rw e (there (In-remove_key k here (other e)))
]
  where
    other : (j == k) ≡ false → (k == j) ≡ false
    other e = ne→==_false k j (λ p. absurd (==_false j k e (sym p)))
In-move_to_head {j = j} k (there {x = y} {xs = xs} m) = elim (Bool-cases (y == k)) [
  | inl e ↦ rw e (there m)
  | inr e ↦ rw e (elim (Bool-cases (k == j)) [
    | inl f ↦ rw (==→eq k j f) here
    | inr f ↦ there (In-remove_key k (there m) f)
  ])
]
