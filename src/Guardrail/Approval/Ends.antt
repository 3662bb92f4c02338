-- ===== src/Guardrail/Approval/Ends.antt =====
-- core/mcp/guardrail/approval_roundtrip.go: how a call of advanceApproval ends.
use xops_cli.Base.{
  ==_refl, ==→eq, Bool-cases, Option-cases, String, [], arith, false, inl, inr, leb, length, ltb,
  none, refl, some, subst, sym, ℕ, ◌!=◌, ◌<◌, ◌==◌, ◌||◌, ◌∙◌, ◌∷◌, ◌≡◌, ◌≤◌, ◌⊎◌, nat_eq,
  string_eq, text_eq,
}
use xops_cli.Base.Dict.{Dict, get, put, delete, get-delete, length-delete-le}
use xops_cli.Guardrail.Approval.Answers.{
  ApprovalError, challenge_expired, challenge_mismatch, invalid_response, too_many_pending,
  no_token, interpret_approval,
}
use xops_cli.Guardrail.Approval.Challenges.{
  max_pending, PendingApproval, Pendings, Response, Visit, Approval, granted, challenge, refused,
  elicit_response, other_response, delete_expired, read_response, consume, expiry, issue,
  names_expired, advance_approval,
}

-- What deleting leaves of an entry
unfoldable pub Shrinks : Pendings → Pendings → Type 0
Shrinks before after =
    (token : String) → (get after token ≡ get before token) ⊎ (get after token ≡ none)

Shrinks-trans : (a b c : Pendings) → Shrinks a b → Shrinks b c → Shrinks a c
unfolding Shrinks
Shrinks-trans a b c p q token = elim (q token) [
  | inl f ↦ elim (p token) [ inl g ↦ inl (f ∙ g) | inr g ↦ inr (f ∙ g) ]
  | inr f ↦ inr f
]

delete-Shrinks : (m : Pendings) (k : String) → Shrinks m (delete m k)
unfolding Shrinks
delete-Shrinks m k token = elim (Bool-cases (k == token)) [
  | inl e ↦ inr (ground (arith, get-delete m k token))
  | inr e ↦ inl (ground (arith, get-delete m k token))
]

expired-Shrinks : (now : ℕ) (range m : Pendings) → Shrinks m (delete_expired now range m)
unfolding Shrinks delete_expired
expired-Shrinks now [] m = λ token. inl refl
expired-Shrinks now ((k, p) ∷ range) m = elim (Bool-cases (leb p.expires now)) [
  | inl e ↦
      rw e (
        Shrinks-trans m (delete m k) _ (delete-Shrinks m k)
          (expired-Shrinks now range (delete m k)))
  | inr e ↦ rw e (expired-Shrinks now range m)
]

expired-length : (now : ℕ) (range m : Pendings) → length (delete_expired now range m) ≤ length m
unfolding delete_expired
expired-length now [] m = omega arith
expired-length now ((k, p) ∷ range) m =
    let kept = expired-length now range m in
    let less = expired-length now range (delete m k) in
    ground (arith, kept, less, length-delete-le m k)

-- The three ways in which advance_approval ends
pub data Advanced (v : Visit) (before after : Pendings) : Approval → Type 0 where
  dropped :
      (e : _)
      → Shrinks before after
      → length after ≤ length before
      → Advanced v before after (refused e)
  consumed :
      (p : PendingApproval)
      → get before v.request_state ≡ some p
      → v.now < p.expires
      → p.session ≡ v.session
      → p.digest ≡ v.digest
      → read_response v.input_responses ≡ granted
      → Shrinks before after
      → get after v.request_state ≡ none
      → length after ≤ length before
      → Advanced v before after granted
  issued :
      (token : String) (live : Pendings)
      → Shrinks before live
      → length live < max_pending
      → after
        ≡ put live token (record { session = v.session; digest = v.digest; expires = expiry v })
      → Advanced v before after (challenge token)

abbrev Ended : Visit → Pendings → Approval × Pendings → Type 0
Ended v before (a, after) = Advanced v before after a

read_response-cases :
    (r : Dict String Response)
    → (read_response r ≡ granted) ⊎ ((e : ApprovalError) × (read_response r ≡ refused e))
unfolding read_response
read_response-cases r = elim (Option-cases (get r "approval")) [
  | inl g ↦ inr (invalid_response, ground (arith, g))
  | inr (other_response, g) ↦ inr (invalid_response, ground (arith, g))
  | inr (elicit_response result, g) ↦ elim (Bool-cases (length r == 1)) [
    | inl one ↦ elim (Option-cases (interpret_approval result)) [
      | inl ok ↦ inl (ground (arith, g, one, ok))
      | inr (e, bad) ↦ inr (e, ground (arith, g, one, bad))
    ]
    | inr many ↦ inr (invalid_response, ground (arith, g, many))
  ]
]

-- What the live entries are to the pending ones
record Live (v : Visit) (before live : Pendings) : Type 0 where
  shrinks : Shrinks before live
  shorter : length live ≤ length before
  unexpired : names_expired v before ≡ false

found-before :
    (v : Visit) (before live : Pendings) (p : PendingApproval)
    → Live v before live
    → get live v.request_state ≡ some p
    → (get before v.request_state ≡ some p) × (v.now < p.expires)
unfolding Shrinks names_expired
found-before v before live p l g = elim (l.shrinks v.request_state) [
  | inl same ↦
      let found : get before v.request_state ≡ some p = sym same ∙ g in
      (found, ground (arith, l.unexpired, found))
  | inr gone ↦ absurd (ground (arith, g, gone))
]

consume-Advanced :
    (v : Visit) (before live : Pendings) (a : Approval) (after : Pendings)
    → Live v before live
    → consume v live ≡ (a, after)
    → Advanced v before after a
unfolding consume
consume-Advanced v before live a after l h = elim (Option-cases (get live v.request_state)) [
  | inl g ↦
      subst (Ended v before) (ground (arith, g)) (dropped challenge_mismatch l.shrinks l.shorter)
  | inr (p, g) ↦ elim (Bool-cases (p.session != v.session || p.digest != v.digest)) [
    | inl bad ↦
        subst (Ended v before) (ground (arith, g)) (dropped challenge_mismatch l.shrinks l.shorter)
    | inr ok ↦
        let (found, early) = found-before v before live p l g in
        let gone : get (delete live v.request_state) v.request_state ≡ none =
          get-delete live v.request_state v.request_state ∙ rw (==_refl v.request_state) refl in
        let shrinks = Shrinks-trans before live _ l.shrinks (delete-Shrinks live v.request_state) in
        let shorter : length (delete live v.request_state) ≤ length before =
          omega (arith, l.shorter, length-delete-le live v.request_state) in
        elim (read_response-cases v.input_responses) [
          | inl agreed ↦ subst (Ended v before) (ground (arith, g, agreed)) (
              consumed p found early (==→eq p.session v.session (ground arith))
                (==→eq p.digest v.digest (ground arith)) agreed shrinks gone shorter)
          | inr (e, bad) ↦
              subst (Ended v before) (ground (arith, g, bad)) (dropped e shrinks shorter)
        ]
  ]
]

issue-Advanced :
    (v : Visit) (before live : Pendings) (a : Approval) (after : Pendings)
    → Live v before live
    → issue v live ≡ (a, after)
    → Advanced v before after a
unfolding issue
issue-Advanced v before live a after l h = elim (Bool-cases (leb max_pending (length live))) [
  | inl full ↦ subst (Ended v before) (ground arith) (dropped too_many_pending l.shrinks l.shorter)
  | inr room ↦ elim (Option-cases v.operation_id) [
    | inl e ↦ subst (Ended v before) (ground (arith, e)) (dropped no_token l.shrinks l.shorter)
    | inr (token, e) ↦
        subst (Ended v before) (ground (arith, e)) (issued token live l.shrinks (ground arith) refl)
  ]
]

pub advance-Advanced :
    (v : Visit) (before : Pendings) (a : Approval) (after : Pendings)
    → advance_approval v before ≡ (a, after)
    → Advanced v before after a
unfolding advance_approval
advance-Advanced v before a after h =
    let live = delete_expired v.now before before in
    elim (Bool-cases (names_expired v before)) [
      | inl e ↦ subst (Ended v before) (ground arith) (
          dropped challenge_expired (delete-Shrinks before v.request_state)
            (length-delete-le before v.request_state))
      | inr e ↦
          let l : Live v before live = record {
            shrinks = expired-Shrinks v.now before before;
            shorter = expired-length v.now before before;
            unexpired = e;
          } in
          elim (Bool-cases (v.request_state != "" || ltb 0 (length v.input_responses))) [
            | inl f ↦ consume-Advanced v before live a after l (ground arith)
            | inr f ↦ issue-Advanced v before live a after l (ground arith)
          ]
    ]
