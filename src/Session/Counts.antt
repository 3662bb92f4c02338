-- ===== src/Session/Counts.antt =====
-- core/mcp/session/manager.go: how the counts of sessions and of slots change.
use xops_cli.Base.{
  Bool, Bool-cases, List, String, [], arith, count, false, if◌then◌else◌, inl, inr, leb, length,
  map, ap, subst, ==→eq, ==_refl, refl, some, ℕ, ◌+◌, ◌-◌, ◌≤◌, ◌==◌, ◌≡◌, ◌∷◌, string_eq, nat_eq,
}
use xops_cli.Base.Dict.{
  Dict, IsUnique, delete, delete-absent, delete-IsUnique, put-IsUnique, get, get-delete, get-put,
  has, one_more, put,
}
use xops_cli.Session.Table.{
  Key, Session, in_scope, key_eq, pending_of, release_slot, total, without_expired,
}
use xops_cli.Session.Steps.{Dial, find_dial, without_dial}

module _ {ℓ} {A : Type ℓ} (p : A → Bool) where
  pub count-map :
      (g : A → A) (xs : List A) → ((x : A) → p (g x) ≡ p x) → count p (map g xs) ≡ count p xs
  count-map g [] h = refl
  count-map g (x ∷ xs) h = ground (arith, h x, count-map g xs h)

pub length-put :
    (d : Dict Key Session) (k : Key) (s : Session)
    → length (put d k s) ≡ (if has d k then length d else length d + 1)
unfolding put has
length-put [] k s = refl
length-put ((j, t) ∷ d) k s = ground (arith, length-put d k s)

pub scope-put :
    (d : Dict Key Session) (k : Key) (s : Session) (scope : String)
    → count (in_scope scope) (put d k s) ≡ (
        if has d k
        then count (in_scope scope) d
        else count (in_scope scope) d + (if k.scope == scope then 1 else 0))
unfolding put has
scope-put [] k s scope = ground arith
scope-put ((j, t) ∷ d) k s scope = ground (arith, scope-put d k s scope, key_eq.beq_iff j k)

pub scope-delete :
    (d : Dict Key Session) (k : Key) (scope : String)
    → count (in_scope scope) (delete d k) ≤ count (in_scope scope) d
unfolding delete
scope-delete [] k scope = omega arith
scope-delete ((j, t) ∷ d) k scope = ground (arith, scope-delete d k scope)

pub length-without_expired :
    (ttl now : ℕ) (d : Dict Key Session) → length (without_expired ttl now d) ≤ length d
unfolding without_expired
length-without_expired ttl now [] = omega arith
length-without_expired ttl now ((k, s) ∷ d) = ground (arith, length-without_expired ttl now d)

pub scope-without_expired :
    (ttl now : ℕ) (d : Dict Key Session) (scope : String)
    → count (in_scope scope) (without_expired ttl now d) ≤ count (in_scope scope) d
unfolding without_expired
scope-without_expired ttl now [] scope = omega arith
scope-without_expired ttl now ((k, s) ∷ d) scope =
    ground (arith, scope-without_expired ttl now d scope)

pub total-put :
    (d : Dict String ℕ) (scope : String) (n : ℕ)
    → total (put d scope n) + pending_of d scope ≡ total d + n
unfolding put get
total-put [] scope n = omega arith
total-put ((t, m) ∷ d) scope n = ground (arith, total-put d scope n)

pub total-delete :
    (d : Dict String ℕ) (scope : String)
    → IsUnique d
    → total (delete d scope) + pending_of d scope ≡ total d
unfolding delete get
total-delete [] scope u = refl
total-delete ((t, m) ∷ d) scope (one_more n u) = elim (Bool-cases (t == scope)) [
  | inl c ↦
      let gone = subst (λ x. has d x ≡ false) (==→eq t scope c) n in
      ground (arith, c, ap total (delete-absent d scope gone))
  | inr c ↦ ground (arith, c, total-delete d scope u)
]

pub find_dial-count :
    (dials : List Dial) (id : ℕ) (dial : Dial) (p : Dial → Bool)
    → find_dial dials id ≡ some dial
    → count p (without_dial dials id) + (if p dial then 1 else 0) ≡ count p dials
unfolding find_dial without_dial
find_dial-count [] id dial p h = absurd (ground (arith, h))
find_dial-count (d ∷ dials) id dial p h = elim (Bool-cases (d.call.id == id)) [
  | inl c ↦ let same : d ≡ dial = ground (arith, c, h) in rw (← same) (ground (arith, c))
  | inr c ↦ ground (arith, c, find_dial-count dials id dial p (simp (find_dial, c) at h))
]

pub find_dial-length :
    (dials : List Dial) (id : ℕ) (dial : Dial)
    → find_dial dials id ≡ some dial
    → length (without_dial dials id) + 1 ≡ length dials
unfolding find_dial without_dial
find_dial-length [] id dial h = absurd (ground (arith, h))
find_dial-length (d ∷ dials) id dial h = elim (Bool-cases (d.call.id == id)) [
  | inl c ↦ ground (arith, c)
  | inr c ↦ ground (arith, c, find_dial-length dials id dial (simp (find_dial, c) at h))
]

pub release_slot-of :
    (d : Dict String ℕ) (scope other : String)
    → pending_of (release_slot d scope) other
      ≡ (if scope == other then pending_of d other - 1 else pending_of d other)
unfolding release_slot
release_slot-of d scope other = elim (Bool-cases (scope == other)) [
  | inl c ↦
      let e = ==→eq scope other c in
      subst
        (λ x.
          pending_of (release_slot d scope) x
          ≡ (if scope == x then pending_of d x - 1 else pending_of d x))
        e
        (ground (
          arith,
          get-delete d scope scope,
          get-put d scope (pending_of d scope - 1) scope,
          ==_refl scope,
        ))
  | inr c ↦
      ground (arith, c, get-delete d scope other, get-put d scope (pending_of d scope - 1) other)
]

pub release_slot-IsUnique :
    (d : Dict String ℕ) (scope : String) → IsUnique d → IsUnique (release_slot d scope)
unfolding release_slot
release_slot-IsUnique d scope u = elim (Bool-cases (leb (pending_of d scope) 1)) [
  | inl c ↦ simp (release_slot, c) (delete-IsUnique d scope u)
  | inr c ↦ simp (release_slot, c) (put-IsUnique d scope (pending_of d scope - 1) u)
]

pub release_slot-total :
    (d : Dict String ℕ) (scope : String)
    → IsUnique d
    → 1 ≤ pending_of d scope
    → total (release_slot d scope) + 1 ≡ total d
unfolding release_slot
release_slot-total d scope u h = elim (Bool-cases (leb (pending_of d scope) 1)) [
  | inl c ↦ ground (arith, c, total-delete d scope u, h)
  | inr c ↦ ground (arith, c, total-put d scope (pending_of d scope - 1), h)
]
