-- ===== src/Guardrail/Approval/Served.antt =====
-- core/mcp/guardrail/approval_roundtrip.go: sequences of calls of advanceApproval.
use xops_cli.Base.{
  ==→eq, Bool, Bool-cases, List, String, [], arith, count, false, if◌then◌else◌, inl, inr, length,
  none, some, subst, suc, sym, ℕ, ◌+◌, ◌==◌, ◌∷◌, ◌≡◌, ◌≤◌, nat_eq, string_eq, text_eq,
}
use xops_cli.Base.Dict.{get, put, get-put, length-put-le}
use xops_cli.Guardrail.Approval.Challenges.{
  max_pending, PendingApproval, Pendings, Visit, Approval, granted, challenge, refused,
  advance_approval,
}
use xops_cli.Guardrail.Approval.Ends.{
  Shrinks, Advanced, dropped, consumed, issued, advance-Advanced,
}

-- A call and its outcome
abbrev pub Event : Type 0
Event = Visit × Approval

-- What has been served, the latest first, and what is pending then.
pub data Served : List Event → Pendings → Type 0 where
  started : Served [] []
  served :
      {events : List Event} {pendings next : Pendings} (v : Visit) (a : Approval)
      → advance_approval v pendings ≡ (a, next)
      → Served events pendings
      → Served ((v, a) ∷ events) next

unfoldable pub issues : String → Event → Bool
issues token (v, granted) = false
issues token (v, refused e) = false
issues token (v, challenge t) = t == token

unfoldable pub grants : String → Event → Bool
grants token (v, granted) = v.request_state == token
grants token (v, refused e) = false
grants token (v, challenge t) = false

unfoldable waits : Pendings → String → ℕ
waits pendings token = elim (get pendings token) [ none ↦ 0 | some p ↦ 1 ]

-- How many calls of a history pass a test, for a challenge
abbrev pub count_issues : String → List Event → ℕ
count_issues token = count (issues token)

abbrev pub count_grants : String → List Event → ℕ
count_grants token = count (grants token)

waits-Shrinks :
    (before after : Pendings) (token : String)
    → Shrinks before after
    → waits after token ≤ waits before token
unfolding waits Shrinks
waits-Shrinks before after token s = elim (s token) [
  | inl e ↦ ground (arith, e)
  | inr e ↦ ground (arith, e)
]

waits-found :
    (m : Pendings) (token : String) (p : PendingApproval) → get m token ≡ some p → waits m token ≡ 1
unfolding waits
waits-found m token p h = ground arith

waits-none : (m : Pendings) (token : String) → get m token ≡ none → waits m token ≡ 0
unfolding waits
waits-none m token h = ground arith

waits-put :
    (m : Pendings) (k : String) (p : PendingApproval) (token : String)
    → waits (put m k p) token ≤ (if k == token then 1 else waits m token)
unfolding waits
waits-put m k p token = ground (arith, get-put m k p token)

-- A challenge that waits has been issued once more than it has been granted.
balance-step :
    (v : Visit) (before after : Pendings) (a : Approval) (token : String)
    (granted_before issued_before : ℕ)
    → Advanced v before after a
    → granted_before + waits before token ≤ issued_before
    → (if grants token (v, a) then suc granted_before else granted_before) + waits after token
      ≤ (if issues token (v, a) then suc issued_before else issued_before)
unfolding grants issues
balance-step v before after (refused e) token g i (dropped e' shrinks shorter) h =
    omega (arith, waits-Shrinks before after token shrinks)
balance-step v before after granted token g i (consumed p found early s d r shrinks gone shorter)
      h =
    let less = waits-Shrinks before after token shrinks in
    elim (Bool-cases (v.request_state == token)) [
      | inl e ↦
          let same = ==→eq v.request_state token e in
          let one = waits-found before token p (subst (λ t. get before t ≡ some p) same found) in
          let zero = waits-none after token (subst (λ t. get after t ≡ none) same gone) in
          ground (arith, one, zero)
      | inr e ↦ ground (arith, e)
    ]
balance-step v before after (challenge t) token g i (issued t' live shrinks room e) h =
    let less = waits-Shrinks before live token shrinks in
    let more =
      subst (λ m. waits m token ≤ (if t == token then 1 else waits live token)) (sym e)
        (waits-put live t _ token) in
    elim (Bool-cases (t == token)) [
      | inl same ↦ rw same (let bound = rw same at more in omega arith)
      | inr other ↦ rw other (let bound = rw other at more in omega arith)
    ]

balance :
    (token : String) {events : List Event} {pendings : Pendings}
    → Served events pendings
    → count_grants token events + waits pendings token ≤ count_issues token events
balance token started = unfold waits get in omega arith
balance token (served {pendings = pendings} {next = next} v a h before) =
    balance-step v pendings next a token _ _ (advance-Advanced v pendings a next h)
      (balance token before)

Advanced-length :
    (v : Visit) (before after : Pendings) (a : Approval)
    → Advanced v before after a
    → length before ≤ max_pending
    → length after ≤ max_pending
Advanced-length v before after (refused e) (dropped e' s shorter) h = omega arith
Advanced-length v before after granted (consumed p f t s d r k g shorter) h = omega arith
Advanced-length v before after (challenge t) (issued t' live s room e) h =
    rw e (omega (arith, length-put-le live t _))

-- In any sequence of calls from an empty table, a challenge is granted at most as often as it has been
-- issued: an answer is taken once.
pub grants-issues :
    (token : String) {events : List Event} {pendings : Pendings}
    → Served events pendings
    → count_grants token events ≤ count_issues token events
grants-issues token s = omega (arith, balance token s)

-- At any point of a sequence of calls from an empty table, at most 256 challenges are pending.
pub length-served :
    {events : List Event} {pendings : Pendings}
    → Served events pendings
    → length pendings ≤ max_pending
length-served started = omega arith
length-served (served {pendings = pendings} {next = next} v a h before) =
    Advanced-length v pendings next a (advance-Advanced v pendings a next h) (length-served before)
