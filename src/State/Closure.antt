-- ===== src/State/Closure.antt =====
-- core/mcp/state/change.go: the nodes that a change affects through others (expandAffected).
use xops_cli.Base.{
  Bool, Bool-cases, and_parts, any-In, In, In-any, here, there, List, String, [], arith, contains,
  false, if◌then◌else◌, inl, inr, length, negate, negate-true, or_cases, refl, suc, true, ℕ, zero,
  ◌+◌, ◌<◌, ◌≤◌, ◌&&◌, ◌||◌, ◌≡◌, ◌⊎◌, ◌∷◌, ==→eq, ==_refl, subst, string_eq,
}
use xops_cli.Base.Dict.{Dict}
use xops_cli.Ports.{OperationSnapshot, Target}
use xops_cli.State.Views.{hop_ids, uses_any}
use xops_cli.State.Changes.{expand_affected, expand_round, expand_rounds}

-- Every element of the first set is in the second.
abbrev pub Within : List String → List String → Type 0
Within set next = (x : String) → contains set x ≡ true → contains next x ≡ true

-- Every target that goes through a node of the set is in it.
abbrev pub IsClosed : Dict String Target → List String → Type 0
IsClosed targets set =
    (id : String) (t : Target) → In (id, t) targets → uses_any set t ≡ true → contains set id ≡ true

-- The least set that contains the given one and is closed under the targets
pub record IsClosure (targets : Dict String Target) (set next : List String) : Type 0 where
  pub contained : Within set next
  pub is_closed : IsClosed targets next
  pub least : (other : List String) → Within set other → IsClosed targets other → Within next other

abbrev joins : List String → String → Target → Bool
joins set id t = negate (contains set id) && uses_any set t

Within-uses :
    (set next : List String) (t : Target)
    → Within set next
    → uses_any set t ≡ true
    → uses_any next t ≡ true
Within-uses set next t w h =
    let (x, m, c) = any-In (contains set) (hop_ids t) h in In-any (contains next) m (w x c)

Within-grow :
    (set : List String) (id : String) (b : Bool) → Within set (if b then id ∷ set else set)
Within-grow set id true x h = ground (arith, h)
Within-grow set id false x h = h

round-Within :
    (changed : Bool) (set : List String) (ts : Dict String Target)
    → Within set (expand_round changed set ts).0
unfolding expand_round
round-Within changed set [] x h = h
round-Within changed set ((id, t) ∷ rest) x h =
    round-Within (changed || joins set id t) (if joins set id t then id ∷ set else set) rest x
      (Within-grow set id (joins set id t) x h)

grow-least :
    (set other : List String) (id : String) (b : Bool)
    → (b ≡ true → contains other id ≡ true)
    → Within set other
    → Within (if b then id ∷ set else set) other
grow-least set other id true c w x h = elim (or_cases h) [
  | inl e ↦ subst (λ y. contains other y ≡ true) (==→eq id x e) (c refl)
  | inr e ↦ w x e
]
grow-least set other id false c w x h = w x h

round-least :
    (changed : Bool) (set other : List String) (ts : Dict String Target)
    → IsClosed ts other
    → Within set other
    → Within (expand_round changed set ts).0 other
unfolding expand_round
round-least changed set other [] k w = w
round-least changed set other ((id, t) ∷ rest) k w =
    round-least (changed || joins set id t) (if joins set id t then id ∷ set else set) other rest
      (λ j u m. k j u (there m))
      (grow-least set other id (joins set id t)
        (λ h. k id t here (Within-uses set other t w (and_parts h).1)) w)

-- A round that joins no target leaves the set as it was, closed.
pub record Quiet (set : List String) (ts : Dict String Target) (next : List String) : Type 0 where
  pub unchanged : next ≡ set
  pub quiet : IsClosed ts set

-- A target that was outside of the set and is in it after the round
pub record Joined (set : List String) (ts : Dict String Target) (next : List String) : Type 0 where
  pub id : String
  pub target : Target
  pub listed : In (id, target) ts
  pub outside : contains set id ≡ false
  pub inside : contains next id ≡ true

round-joins :
    (changed : Bool) (set : List String) (id : String) (t : Target) (rest : Dict String Target)
    → joins set id t ≡ true
    → expand_round changed set ((id, t) ∷ rest) ≡ expand_round true (id ∷ set) rest
unfolding expand_round
round-joins true set id t rest j = rw j refl
round-joins false set id t rest j = rw j refl

round-skips :
    (changed : Bool) (set : List String) (id : String) (t : Target) (rest : Dict String Target)
    → joins set id t ≡ false
    → expand_round changed set ((id, t) ∷ rest) ≡ expand_round changed set rest
unfolding expand_round
round-skips true set id t rest j = rw j refl
round-skips false set id t rest j = rw j refl

cons-IsClosed :
    (set : List String) (id : String) (t : Target) (rest : Dict String Target)
    → joins set id t ≡ false
    → IsClosed rest set
    → IsClosed ((id, t) ∷ rest) set
cons-IsClosed set id t rest j k i u here h = ground (arith, j, h)
cons-IsClosed set id t rest j k i u (there m) h = k i u m h

round-Quiet :
    (changed : Bool) (set : List String) (ts : Dict String Target)
    → (expand_round changed set ts).1 ≡ false
    → (changed ≡ false) × Quiet set ts (expand_round changed set ts).0
unfolding expand_round
round-Quiet changed set [] h = (h, record { unchanged = refl; quiet = λ id t m. elim m [ ] })
round-Quiet changed set ((id, t) ∷ rest) h = elim (Bool-cases (joins set id t)) [
  | inl j ↦
      absurd
        (cc ((round-Quiet true (id ∷ set) rest (rw (round-joins changed set id t rest j) at h)).0))
  | inr j ↦
      let e = round-skips changed set id t rest j in
      let (c, q) = round-Quiet changed set rest (rw e at h) in
      (c, record { unchanged = rw e q.unchanged; quiet = cons-IsClosed set id t rest j q.quiet })
]

round-Joined :
    (changed : Bool) (set : List String) (ts : Dict String Target)
    → (expand_round changed set ts).1 ≡ true
    → (changed ≡ true) ⊎ Joined set ts (expand_round changed set ts).0
unfolding expand_round
round-Joined changed set [] h = inl h
round-Joined changed set ((id, t) ∷ rest) h = elim (Bool-cases (joins set id t)) [
  | inl j ↦ inr (record {
    id = id;
    target = t;
    listed = here;
    outside = negate-true (and_parts j).0;
    inside =
        rw (round-joins changed set id t rest j)
          (round-Within true (id ∷ set) rest id (ground (arith, ==_refl id)));
  })
  | inr j ↦
      let e = round-skips changed set id t rest j in
      elim (round-Joined changed set rest (rw e at h)) [
        | inl c ↦ inl c
        | inr k ↦ inr (record {
          id = k.id;
          target = k.target;
          listed = there k.listed;
          outside = k.outside;
          inside = rw e k.inside;
        })
      ]
]

-- How many targets are outside of the set
missing : List String → Dict String Target → ℕ
missing set [] = 0
missing set ((id, t) ∷ rest) = missing set rest + (if contains set id then 0 else 1)

missing-le : (set : List String) (ts : Dict String Target) → missing set ts ≤ length ts
unfolding missing
missing-le set [] = omega arith
missing-le set ((id, t) ∷ rest) = ground (arith, missing-le set rest)

missing-Within :
    (set next : List String) (ts : Dict String Target)
    → Within set next
    → missing next ts ≤ missing set ts
unfolding missing
missing-Within set next [] w = omega arith
missing-Within set next ((id, t) ∷ rest) w = ground (arith, missing-Within set next rest w, w id)

missing-In :
    (set next : List String) {id : String} {t : Target} {ts : Dict String Target}
    → Within set next
    → In (id, t) ts
    → contains set id ≡ false
    → contains next id ≡ true
    → missing next ts < missing set ts
unfolding missing
missing-In set next w (here {xs = rest}) o i = ground (arith, missing-Within set next rest w, o, i)
missing-In set next w (there {x = (j, u)} {xs = rest} m) o i =
    ground (arith, missing-In set next w m o i, w j)

rounds-IsClosure :
    (fuel : ℕ) (targets : Dict String Target) (set : List String)
    → missing set targets < fuel
    → IsClosure targets set (expand_rounds fuel targets set)
unfolding expand_rounds
rounds-IsClosure zero targets set f = absurd (omega arith)
rounds-IsClosure (suc fuel) targets set f = elim (Bool-cases (expand_round false set targets).1) [
  | inr e ↦
      let q = (round-Quiet false set targets e).1 in
      simp (expand_rounds, e, q.unchanged)
        (record { contained = λ x h. h; is_closed = q.quiet; least = λ other w k. w })
  | inl e ↦ elim (round-Joined false set targets e) [
    | inl c ↦ absurd cc
    | inr j ↦
        let next = (expand_round false set targets).0 in
        let w = round-Within false set targets in
        let k =
          rounds-IsClosure fuel targets next
            (omega (arith, missing-In set next w j.listed j.outside j.inside)) in
        simp (expand_rounds, e)
          (record {
            contained = λ x h. k.contained x (w x h);
            is_closed = k.is_closed;
            least = λ other v c. k.least other (round-least false set other targets c v) c;
          })
  ]
]

-- The nodes that are affected through others are found: the loop, in one round more than there are
-- targets, ends with a set that contains the given one, in which every target is that goes through
-- a node of it, and which is within every other such set.
pub expand_affected-IsClosure :
    (view : OperationSnapshot) (set : List String)
    → IsClosure view.targets set (expand_affected view set)
unfolding expand_affected
expand_affected-IsClosure view set =
    rounds-IsClosure (suc (length view.targets)) view.targets set
      (omega (arith, missing-le set view.targets))
