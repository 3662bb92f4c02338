-- ===== src/Guardrail/Approval/Issued.antt =====
-- core/mcp/guardrail/approval_roundtrip.go: the challenge that an answer is for.
use xops_cli.Base.{
  ==→eq, Bool-cases, In, List, Option-cases, String, ap, arith, here, if◌then◌else◌, inl, inr, refl,
  some, subst, sym, there, ◌+◌, ◌<◌, ◌==◌, ◌∙◌, ◌∷◌, ◌≡◌, ◌≤◌, nat_eq, string_eq, text_eq,
}
use xops_cli.Base.Dict.{get, get-put}
use xops_cli.Guardrail.Approval.Challenges.{
  approval_lifetime, PendingApproval, Pendings, Visit, Approval, granted, challenge, refused,
  read_response, expiry,
}
use xops_cli.Guardrail.Approval.Ends.{
  Shrinks, Advanced, dropped, consumed, issued, advance-Advanced,
}
use xops_cli.Guardrail.Approval.Served.{Event, Served, started, served}

-- The call that has issued a challenge
pub record IssuedBy (events : List Event) (token : String) (p : PendingApproval) : Type 0 where
  pub issuer : Visit
  pub earlier : In (issuer, challenge token) events
  pub session_same : p.session ≡ issuer.session
  pub digest_same : p.digest ≡ issuer.digest
  pub expires_same : p.expires ≡ expiry issuer

later :
    {events : List Event} (event : Event) {token : String} {p : PendingApproval}
    → IssuedBy events token p
    → IssuedBy (event ∷ events) token p
later event i = record {
  issuer = i.issuer;
  earlier = there i.earlier;
  session_same = i.session_same;
  digest_same = i.digest_same;
  expires_same = i.expires_same;
}

kept :
    {events : List Event} (event : Event) (before after : Pendings) (token : String)
    (p : PendingApproval)
    → Shrinks before after
    → ((q : PendingApproval) → get before token ≡ some q → IssuedBy events token q)
    → get after token ≡ some p
    → IssuedBy (event ∷ events) token p
unfolding Shrinks
kept event before after token p s known h = elim (s token) [
  | inl same ↦ later event (known p (sym same ∙ h))
  | inr gone ↦ absurd (ground (arith, gone))
]

step-IssuedBy :
    {events : List Event} (v : Visit) (before after : Pendings) (a : Approval) (token : String)
    (p : PendingApproval)
    → Advanced v before after a
    → ((q : PendingApproval) → get before token ≡ some q → IssuedBy events token q)
    → get after token ≡ some p
    → IssuedBy ((v, a) ∷ events) token p
step-IssuedBy v before after (refused e) token p (dropped e' s shorter) known h =
    kept (v, refused e) before after token p s known h
step-IssuedBy v before after granted token p (consumed q f t same d r s g shorter) known h =
    kept (v, granted) before after token p s known h
step-IssuedBy {events = events} v before after (challenge t) token p (issued t' live s room e) known
      h =
    let stored : PendingApproval = record {
      session = v.session;
      digest = v.digest;
      expires = expiry v;
    } in
    let found : (if t == token then some stored else get live token) ≡ some p =
      sym (get-put live t stored token) ∙ sym (ap (λ m. get m token) e) ∙ h in
    elim (Bool-cases (t == token)) [
      | inl now ↦
          let here_ : stored ≡ p = ground (arith, found, now) in
          let named = ==→eq t token now in
          subst (λ q. IssuedBy ((v, challenge t) ∷ events) token q) here_
            (subst (λ u. IssuedBy ((v, challenge t) ∷ events) u stored) named
              (record {
                issuer = v;
                earlier = here;
                session_same = refl;
                digest_same = refl;
                expires_same = refl;
              }))
      | inr other ↦ kept (v, challenge t) before live token p s known (rw other at found)
    ]

pending-IssuedBy :
    {events : List Event} {pendings : Pendings} (token : String) (p : PendingApproval)
    → Served events pendings
    → get pendings token ≡ some p
    → IssuedBy events token p
unfolding get
pending-IssuedBy token p started h = absurd (ground arith)
pending-IssuedBy token p (served {events = events} {pendings = pendings} {next = next} v a h before)
      g =
    step-IssuedBy v pendings next a token p (advance-Advanced v pendings a next h)
      (λ q k. pending-IssuedBy token q before k) g

expiry-bounds : (v : Visit) → expiry v ≤ v.now + approval_lifetime
unfolding expiry
expiry-bounds v = elim (Option-cases v.deadline) [
  | inl e ↦ ground (arith, e)
  | inr (d, e) ↦ ground (arith, e)
]

-- What a call that grants an operation answers
pub record GrantedBy (events : List Event) (v : Visit) : Type 0 where
  pub issuer : Visit
  pub earlier : In (issuer, challenge v.request_state) events
  pub session_same : issuer.session ≡ v.session
  pub digest_same : issuer.digest ≡ v.digest
  pub in_time : v.now < expiry issuer
  pub two_minutes : v.now < issuer.now + approval_lifetime
  pub explicit : read_response v.input_responses ≡ granted

Advanced-GrantedBy :
    {events : List Event} (v : Visit) (before after : Pendings)
    → Advanced v before after granted
    → Served events before
    → GrantedBy events v
Advanced-GrantedBy v before after (consumed p found early s d agreed k g shorter) past =
    let by = pending-IssuedBy v.request_state p past found in
    let limit = expiry-bounds by.issuer in
    record {
      issuer = by.issuer;
      earlier = by.earlier;
      session_same = sym by.session_same ∙ s;
      digest_same = sym by.digest_same ∙ d;
      in_time = omega (arith, by.expires_same);
      two_minutes = omega (arith, by.expires_same);
      explicit = agreed;
    }

-- An answer that grants an operation answers a challenge that an earlier call has issued to the
-- same session for the same digest, before that challenge's expiry, which is at most two minutes
-- after it was issued.
pub granted-issued :
    (v : Visit) {events : List Event} {pendings : Pendings}
    → Served ((v, granted) ∷ events) pendings
    → GrantedBy events v
granted-issued v (served {pendings = pendings} {next = next} v' a h past) =
    Advanced-GrantedBy v pendings next (advance-Advanced v pendings granted next h) past
