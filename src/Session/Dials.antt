-- ===== src/Session/Dials.antt =====
-- core/mcp/session/manager.go: the slots of the dials under way, and the end of a dial.
use xops_cli.Base.{
  Bool, Bool-cases, List, Option-cases, String, arith, count, false, if◌then◌else◌, inl, inr,
  length, some, subst, sym, true, ℕ, ◌+◌, ◌≤◌, ◌==◌, ◌⊎◌, ◌≡◌, ◌&&◌, ==_refl, string_eq, nat_eq,
}
use xops_cli.Base.Dict.{Dict, IsUnique, get, put}
use xops_cli.Session.Table.{
  DialCall, Key, Manager, Session, check_capacity, finish_dial, in_scope, key_eq, pending_of,
  publish_session, release_slot, store_session, total,
}
use xops_cli.Session.Steps.{Dial, find_dial, without_dial}
use xops_cli.Session.Counts.{
  find_dial-count, find_dial-length, length-put, release_slot-IsUnique, release_slot-of,
  release_slot-total, scope-put,
}

abbrev pub of_scope : String → Dial → Bool
of_scope scope dial = dial.key.scope == scope

-- The slots are those of the dials under way, and with these the sessions are within the limits.
pub record Fits (m : Manager) (dials : List Dial) : Type 0 where
  pub total_limit : m.max_total_sessions ≡ 64
  pub scope_limit : m.max_sessions ≡ 16
  pub unique : IsUnique m.pending
  pub total_same : total m.pending ≡ length dials
  pub scope_same : (scope : String) → pending_of m.pending scope ≡ count (of_scope scope) dials
  pub total_few : length m.sessions + length dials ≤ 64
  pub scope_few :
      (scope : String) → count (in_scope scope) m.sessions + count (of_scope scope) dials ≤ 16

-- A table with no more sessions than before
pub fewer-Fits :
    (m : Manager) (dials : List Dial) (sessions : Dict Key Session) (closed : Bool)
    → Fits m dials
    → length sessions ≤ length m.sessions
    → ((scope : String) → count (in_scope scope) sessions ≤ count (in_scope scope) m.sessions)
    → Fits (record m { sessions = sessions; closed = closed }) dials
fewer-Fits m dials sessions closed f l c = record {
  total_limit = f.total_limit;
  scope_limit = f.scope_limit;
  unique = f.unique;
  total_same = f.total_same;
  scope_same = f.scope_same;
  total_few = omega (arith, l, f.total_few);
  scope_few = λ scope. omega (arith, c scope, f.scope_few scope);
}

-- The end of a dial, with its slot, where the sessions are within the limits
end-Fits :
    (m : Manager) (dials : List Dial) (id : ℕ) (dial : Dial) (sessions : Dict Key Session)
    → Fits m dials
    → find_dial dials id ≡ some dial
    → length sessions + length (without_dial dials id) ≤ 64
    → ((scope : String)
        → count (in_scope scope) sessions + count (of_scope scope) (without_dial dials id) ≤ 16)
    → Fits
        (record (finish_dial m dial.key dial.call) { sessions = sessions })
        (without_dial dials id)
unfolding finish_dial
end-Fits m dials id dial sessions f h l c =
    let s = dial.key.scope in
    let here : 1 ≤ pending_of m.pending s =
      ground (arith, find_dial-count dials id dial (of_scope s) h, f.scope_same s, ==_refl s) in
    record {
      total_limit = f.total_limit;
      scope_limit = f.scope_limit;
      unique = release_slot-IsUnique m.pending s f.unique;
      total_same = omega (
        arith,
        release_slot-total m.pending s f.unique here,
        find_dial-length dials id dial h,
        f.total_same,
      );
      scope_same = λ scope. ground (
        arith,
        release_slot-of m.pending s scope,
        f.scope_same scope,
        find_dial-count dials id dial (of_scope scope) h,
      );
      total_few = l;
      scope_few = c;
    }

-- The end of a dial that changes no session
pub finish-Fits :
    (m : Manager) (dials : List Dial) (id : ℕ) (dial : Dial)
    → Fits m dials
    → find_dial dials id ≡ some dial
    → Fits (finish_dial m dial.key dial.call) (without_dial dials id)
unfolding finish_dial
finish-Fits m dials id dial f h =
    end-Fits m dials id dial m.sessions f h
      (omega (arith, f.total_few, find_dial-length dials id dial h))
      (λ scope. ground (arith, f.scope_few scope, find_dial-count dials id dial (of_scope scope) h))

-- The end of a dial that stores its session
store-Fits :
    (m : Manager) (dials : List Dial) (id : ℕ) (dial : Dial) (s : Session)
    → Fits m dials
    → find_dial dials id ≡ some dial
    → Fits (store_session m dial.key dial.call s) (without_dial dials id)
unfolding store_session finish_dial
store-Fits m dials id dial s f h =
    end-Fits m dials id dial (put m.sessions dial.key s) f h
      (ground
        (arith, f.total_few, find_dial-length dials id dial h, length-put m.sessions dial.key s))
      (λ scope. ground (
        arith,
        f.scope_few scope,
        find_dial-count dials id dial (of_scope scope) h,
        scope-put m.sessions dial.key s scope,
      ))

publish_session-ends :
    (m : Manager) (key : Key) (generation : String) (call : DialCall) (s : Session)
    → ((publish_session m key generation call s).1 ≡ finish_dial m key call)
      ⊎ ((publish_session m key generation call s).1 ≡ store_session m key call s)
unfolding publish_session
publish_session-ends m key generation call s = elim (Bool-cases m.closed) [
  | inl c ↦ inl (ground (arith, c))
  | inr c ↦ elim (Option-cases (get m.sessions key)) [
    | inr (raced, g) ↦
        elim (Bool-cases
          (raced.generation == generation && (if raced.is_closed then false else true))) [
            | inl k ↦ inl (ground (arith, c, g, k))
            | inr k ↦ inr (ground (arith, c, g, k))
          ]
    | inl g ↦
        let released : Manager = record m { pending = release_slot m.pending key.scope } in
        elim (Option-cases (check_capacity released key.scope)) [
          | inr (e, k) ↦ inl (ground (arith, c, g, k))
          | inl k ↦ inr (ground (arith, c, g, k))
        ]
  ]
]

pub publish-Fits :
    (m : Manager) (dials : List Dial) (id : ℕ) (dial : Dial) (generation : String) (s : Session)
    → Fits m dials
    → find_dial dials id ≡ some dial
    → Fits (publish_session m dial.key generation dial.call s).1 (without_dial dials id)
publish-Fits m dials id dial generation s f h =
    elim (publish_session-ends m dial.key generation dial.call s) [
      | inl e ↦
          subst (λ x. Fits x (without_dial dials id)) (sym e) (finish-Fits m dials id dial f h)
      | inr e ↦
          subst (λ x. Fits x (without_dial dials id)) (sym e) (store-Fits m dials id dial s f h)
    ]
