-- ===== src/Transfer/Advances.antt =====
-- core/mcp/transfer: a relation between the records before calls and those after them.
use xops_cli.Base.{
  ==→eq, Bool, Bool-cases, Option, Option-cases, String, arith, false, if◌then◌else◌, inl, inr,
  none, refl, some, subst, sym, true, ◌!=◌, ◌&&◌, ◌==◌, ◌||◌, ◌∙◌, ◌≡◌, ◌≢◌, ◌⊎◌, nat_eq, string_eq,
  text_eq,
}
use xops_cli.Base.Dict
use xops_cli.Base.Dict.{Dict}
use xops_cli.Transfer.Record.{
  State, ready, transferring, verifying, committing, completed, streamed, failed, cancelled,
  timed_out, unknown, other_state, state_eq, state_beq, Record, Codec, encode_record,
}
use xops_cli.Transfer.Manager.{Manager, next_outcome, save}

-- The states that a task may come to from each state, in one call or in many. Nothing is said of
-- a state that is no known text.
unfoldable pub may_become : State → State → Bool
may_become ready s = s != other_state
may_become transferring s = s != other_state && s != ready && s != timed_out
may_become verifying s = s != other_state && s != ready && s != timed_out && s != transferring
may_become committing s = s == committing || s == completed || s == unknown || s == failed
may_become completed s = s == completed
may_become streamed s = s == streamed
may_become failed s = s == failed
may_become cancelled s = s == cancelled
may_become timed_out s = s == timed_out
may_become unknown s = s == unknown
may_become other_state s = true

pub may_become_refl : (s : State) → may_become s s ≡ true
unfolding may_become state_beq
may_become_refl s = ground arith

pub may_become_trans :
    (a b c : State) → may_become a b ≡ true → may_become b c ≡ true → may_become a c ≡ true
unfolding may_become state_beq
may_become_trans a b c h k = ground arith

-- A call that prepares no task adds none: a record keeps its specification and moves on, or is
-- dropped.
abbrev pub Follows : Option Record → Option Record → Type 0
Follows none none = Unit {0}
Follows none (some r) = ⊥
Follows (some r) none = Unit {0}
Follows (some r) (some r') = (r'.spec ≡ r.spec) × (may_become r.state r'.state ≡ true)

-- Every record stands under its own identity.
pub record IsKeyed (rs : Dict String Record) : Type 0 where
  pub at_id : (id : String) (r : Record) → Dict.get rs id ≡ some r → r.id ≡ id

pub record Advances (rs rs' : Dict String Record) : Type 0 where
  pub follows : (j : String) → Follows (Dict.get rs j) (Dict.get rs' j)
  pub keyed : IsKeyed rs'

Follows-refl : (o : Option Record) → Follows o o
Follows-refl none = tt
Follows-refl (some r) = (refl, may_become_refl r.state)

pub Advances_refl : {rs : Dict String Record} → IsKeyed rs → Advances rs rs
Advances_refl {rs} k = record { follows = λ j. Follows-refl (Dict.get rs j); keyed = k }

module _ {rs : Dict String Record} (k : IsKeyed rs) where
  put-Follows :
      (id : String) (r r' : Record)
      → Dict.get rs id ≡ some r
      → r'.spec ≡ r.spec
      → may_become r.state r'.state ≡ true
      → (j : String) → Follows (Dict.get rs j) (if id == j then some r' else Dict.get rs j)
  put-Follows id r r' e s b j = elim (Bool-cases (id == j)) [
    | inl h ↦ rw (h, ← ==→eq id j h, e) (s, b)
    | inr h ↦ rw h (Follows-refl (Dict.get rs j))
  ]

  put-IsKeyed : (id : String) (r' : Record) → r'.id ≡ id → IsKeyed (Dict.put rs id r')
  put-IsKeyed id r' e = record {
    at_id = λ j r h. ground (arith, ==→eq id j, Dict.get-put rs id r' j, k.at_id j r);
  }

  pub put-Advances :
      (id : String) (r r' : Record)
      → Dict.get rs id ≡ some r
      → r'.id ≡ r.id
      → r'.spec ≡ r.spec
      → may_become r.state r'.state ≡ true
      → Advances rs (Dict.put rs id r')
  put-Advances id r r' e i s b = record {
    follows = λ j. rw (Dict.get-put rs id r' j) (put-Follows id r r' e s b j);
    keyed = put-IsKeyed id r' (i ∙ k.at_id id r e);
  }

  drop-Follows : (o : Option Record) (b : Bool) → Follows o (if b then none else o)
  drop-Follows none true = tt
  drop-Follows (some r) true = tt
  drop-Follows o false = Follows-refl o

  pub delete-Advances : (id : String) → Advances rs (Dict.delete rs id)
  delete-Advances id = record {
    follows = λ j. rw (Dict.get-delete rs id j) (drop-Follows (Dict.get rs j) (id == j));
    keyed = record { at_id = λ j r h. ground (arith, Dict.get-delete rs id j, k.at_id j r) };
  }

-- A save that fails leaves the records as they are.
pub save-records :
    (c : Codec) (m : Manager) (r : Record)
    → ((save c m r).0 ≢ none) × ((save c m r).1.records ≡ m.records)
      ⊎ ((save c m r).0 ≡ none) × ((save c m r).1.records ≡ Dict.put m.records r.id r)
unfolding save
save-records c m r = elim (Option-cases (encode_record c r)) [
  | inr (e, h) ↦ inl (ground arith, ground arith)
  | inl h ↦ elim (Bool-cases (next_outcome m.store.outcomes)) [
    | inl o ↦ inr (ground arith, ground arith)
    | inr o ↦ inl (ground arith, ground arith)
  ]
]

pub save-Advances :
    (c : Codec) (m : Manager) (r r' : Record)
    → IsKeyed m.records
    → Dict.get m.records r.id ≡ some r
    → r'.id ≡ r.id
    → r'.spec ≡ r.spec
    → may_become r.state r'.state ≡ true
    → Advances m.records (save c m r').1.records
save-Advances c m r r' k e i s b = elim (save-records c m r') [
  | inl (_, h) ↦ rw h (Advances_refl k)
  | inr (_, h) ↦ rw h (
      subst (λ id. Advances m.records (Dict.put m.records id r')) (sym i)
        (put-Advances k r.id r r' e i s b))
]

Follows-trans : (a b c : Option Record) → Follows a b → Follows b c → Follows a c
Follows-trans none none c f g = g
Follows-trans none (some b) c f g = absurd f
Follows-trans (some a) none none f g = tt
Follows-trans (some a) none (some c) f g = absurd g
Follows-trans (some a) (some b) none f g = tt
Follows-trans (some a) (some b) (some c) f g =
    (g.0 ∙ f.0, may_become_trans a.state b.state c.state f.1 g.1)

pub Advances_trans :
    {rs ss ts : Dict String Record} → Advances rs ss → Advances ss ts → Advances rs ts
Advances_trans {rs} {ss} {ts} a b = record {
  follows = λ j.
      Follows-trans (Dict.get rs j) (Dict.get ss j) (Dict.get ts j) (a.follows j) (b.follows j);
  keyed = b.keyed;
}
