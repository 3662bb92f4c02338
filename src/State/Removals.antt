-- ===== src/State/Removals.antt =====
-- core/mcp/state/change.go: the nodes that a change removes.
use xops_cli.Base.{
  Bool-cases, In, here, there, List, Option-cases, String, [], arith, contains, false, inl, inr,
  or_cases, refl, true, ◌++◌, ◌||◌, ◌==◌, ◌≡◌, ◌∙◌, ◌⊎◌, ◌∷◌, ==→eq, ==_refl, ==_refl, subst, sym,
  string_eq,
}
use xops_cli.Base.Dict.{Dict, get, has, has-get}
use xops_cli.Ports.{Hashes, OperationSnapshot, Target, ok}
use xops_cli.State.Changes.{
  Change, DeepEqual, calculate_change, compare_plans, compare_target, compare_targets,
  complete_change, depends_on_removed, policy_changed,
}
use xops_cli.State.Effects.{Result-cases}

pub contains-append :
    (xs ys : List String) (x : String) → contains (xs ++ ys) x ≡ (contains xs x || contains ys x)
contains-append [] ys x = refl
contains-append (y ∷ xs) ys x = ground (arith, contains-append xs ys x)

pub In-has : {V : Type 0} {k : String} {v : V} {m : Dict String V} → In (k, v) m → has m k ≡ true
unfolding has
In-has {k = k} (here {xs = m}) = ground (arith, ==_refl k)
In-has {k = k} (there {x = (j, w)} {xs = m} i) = ground (arith, In-has i)

-- The removed nodes are those of the first targets that the second do not have, and the ones from
-- before.
record Removes (old next : Dict String Target) (before removed : List String) : Type 0 where
  sound :
      (x : String) → contains removed x ≡ true → (contains before x ≡ true) ⊎ (has next x ≡ false)
  complete : (x : String) → has old x ≡ true → has next x ≡ false → contains removed x ≡ true
  kept : (x : String) → contains before x ≡ true → contains removed x ≡ true

one-Removes :
    (id : String) (t : Target) (next : Dict String Target) (before : List String)
    → has next id ≡ false
    → Removes ((id, t) ∷ []) next before (before ++ id ∷ [])
unfolding has
one-Removes id t next before n = record {
  sound = λ x c. elim (or_cases (sym (contains-append before (id ∷ []) x) ∙ c)) [
    | inl l ↦ inl l
    | inr r ↦ inr (ground (arith, r, ==→eq id x, n))
  ];
  complete = λ x o m. ground (arith, o, contains-append before (id ∷ []) x);
  kept = λ x c. ground (arith, c, contains-append before (id ∷ []) x);
}

same-Removes :
    (id : String) (t : Target) (next : Dict String Target) (before : List String)
    → has next id ≡ true
    → Removes ((id, t) ∷ []) next before before
unfolding has
same-Removes id t next before y = record {
  sound = λ x c. inl c;
  complete = λ x o m. absurd (ground (arith, o, ==→eq id x, y, m));
  kept = λ x c. c;
}

then-Removes :
    (id : String) (t : Target) (rest next : Dict String Target) (before mid removed : List String)
    → Removes ((id, t) ∷ []) next before mid
    → Removes rest next mid removed
    → Removes ((id, t) ∷ rest) next before removed
unfolding has
then-Removes id t rest next before mid removed r s = record {
  sound = λ x c. elim (s.sound x c) [ inl m ↦ r.sound x m | inr n ↦ inr n ];
  complete = λ x o m. elim (or_cases {a = id == x} {b = has rest x} o) [
    | inl e ↦ s.kept x (r.complete x (ground (arith, e)) m)
    | inr e ↦ s.complete x e m
  ];
  kept = λ x c. s.kept x (r.kept x c);
}

module _ (h : Hashes) (d : DeepEqual) where
  compare_target-Removes :
      (id : String) (target : Target) (next : Dict String Target) (change change' : Change)
      → compare_target h d id target (get next id) change ≡ ok change'
      → Removes ((id, target) ∷ []) next change.removed change'.removed
  unfolding compare_target compare_plans
  compare_target-Removes id target next change change' k = elim (Option-cases (get next id)) [
    | inl n ↦
        let e : change.removed ++ id ∷ [] ≡ change'.removed = ground (arith, n, k) in
        subst (Removes ((id, target) ∷ []) next change.removed) e
          (one-Removes id target next change.removed (has-get next id ∙ rw n refl))
    | inr (updated, y) ↦ elim (Result-cases (h.connection_key target.plan)) [
      | inl (e, f) ↦ absurd (ground (arith, y, f, k))
      | inr (a, f) ↦ elim (Result-cases (h.connection_key updated.plan)) [
        | inl (e, g) ↦ absurd (ground (arith, y, f, g, k))
        | inr (b, g) ↦
            let e : change.removed ≡ change'.removed = ground (arith, y, f, g, k) in
            subst (Removes ((id, target) ∷ []) next change.removed) e
              (same-Removes id target next change.removed (has-get next id ∙ rw y refl))
      ]
    ]
  ]

  compare_targets-Removes :
      (old next : Dict String Target) (change change' : Change)
      → compare_targets h d old next change ≡ ok change'
      → Removes old next change.removed change'.removed
  unfolding compare_targets has
  compare_targets-Removes [] next change change' k =
      let e : change ≡ change' = ground (arith, k) in
      rw (← e) (record { sound = λ x c. inl c; complete = λ x o m. absurd (cc o); kept = λ x c. c })
  compare_targets-Removes ((id, t) ∷ rest) next change change' k =
      elim (Result-cases (compare_target h d id t (get next id) change)) [
        | inl (e, f) ↦ absurd (ground (arith, f, k))
        | inr (mid, f) ↦
            then-Removes id t rest next change.removed mid.removed change'.removed
              (compare_target-Removes id t next change mid f)
              (compare_targets-Removes rest next mid change' (ground (arith, f, k)))
      ]

-- The removed nodes of a change are exactly those that the new snapshot lacks, and no active
-- target of it goes through one.
pub record IsRemoval (old next : OperationSnapshot) (removed : List String) : Type 0 where
  pub gone : (x : String) → contains removed x ≡ true → has next.targets x ≡ false
  pub found :
      (x : String)
      → has old.targets x ≡ true
      → has next.targets x ≡ false
      → contains removed x ≡ true
  pub unused : depends_on_removed removed next.targets ≡ false

pub calculate_change-IsRemoval :
    (h : Hashes) (d : DeepEqual) (old next : OperationSnapshot) (change : Change)
    → calculate_change h d old next ≡ ok change
    → IsRemoval old next change.removed
unfolding calculate_change complete_change
calculate_change-IsRemoval h d old next change k =
    let empty : Change = record {
      affected = [];
      revoke = [];
      removed = [];
      retired = [];
      policy = policy_changed d old next;
    } in
    elim (Result-cases (compare_targets h d old.targets next.targets empty)) [
      | inl (e, f) ↦ absurd (ground (arith, f, k))
      | inr (mid, f) ↦ elim (Bool-cases (depends_on_removed mid.removed next.targets)) [
        | inl g ↦ absurd (ground (arith, f, g, k))
        | inr g ↦
            let r = compare_targets-Removes h d old.targets next.targets empty mid f in
            let e : mid.removed ≡ change.removed = ground (arith, f, g, k) in
            subst (IsRemoval old next) e (record {
              gone = λ x c. elim (r.sound x c) [ inl n ↦ absurd (cc n) | inr n ↦ n ];
              found = r.complete;
              unused = g;
            })
      ]
    ]
