-- ===== src/State/Transitions.antt =====
-- core/mcp/state: the effect of each call.
use xops_cli.Base.{
  length-map, List, [], ◌∷◌, ==→eq, false, Bool, Bool-cases, Option, Option-cases, arith, inl, inr,
  length, ltb, negate, none, refl, some, true, ℕ, ◌==◌, ◌&&◌, ◌≡◌, nat_eq, string_eq, subst,
}
use xops_cli.Guardrail.Risk.{Platform}
use xops_cli.Ports.{Context, Error, Hashes, update_state, persistence_unknown}
use xops_cli.State.Changes.{DeepEqual}
use xops_cli.State.Coordinator.{
  Coordinator, Update, UpdatePhase, prepared, persisting, committed, publishing, publication_failed,
  close_coordinator, release,
}
use xops_cli.State.Updates.{
  abort, begin_persistence, confirm_commit, confirm_rollback, is_publishable, is_publishing,
  unwritten, publish_cancel, publish_end, publish_start, valid_update, with_phase, finish_update,
}
use xops_cli.State.History.{
  Op, entering, releasing, ending, beginning, persisting_update, confirming, aborting, rolling_back,
  publishing_update, cancelling, retiring, closing, end_registration, step,
}
use xops_cli.State.Measures.{length-remove}
use xops_cli.State.Registrations.{end_registration-In, remove_registration-In}
use xops_cli.State.Effects.{
  Effect, same, stopped, thinned, moved, dropped, finished, activated, repeated, shut, persists,
  commits, fails, Result-cases, valid_update-pending, enter-Effect, begin-Effect,
}

-- The state after a method of an update
abbrev After : (h : Hashes) (d : DeepEqual) → Coordinator → Option Error × Coordinator → Type 0
After h d c (e, after) = Effect h d c after

pub unwritten-publishing :
    (phase : UpdatePhase) → unwritten phase ≡ true → is_publishing phase ≡ false
unwritten-publishing prepared w = refl
unwritten-publishing persisting w = refl
unwritten-publishing committed w = refl
unwritten-publishing publishing w = cc w
unwritten-publishing publication_failed w = refl

length-empty : (xs : List ℕ) → length xs ≡ 0 → xs ≡ []
length-empty [] e = refl
length-empty (x ∷ xs) e = absurd (omega (arith, e))

module _ (h : Hashes) (d : DeepEqual) (c : Coordinator) (id : ℕ) where
  persist-Effect : Effect h d c (begin_persistence c id).1
  unfolding begin_persistence
  persist-Effect = elim (Result-cases (valid_update c id)) [
    | inl (e, v) ↦ rw (begin_persistence, v) same
    | inr (u, v) ↦
        rw (begin_persistence, v) (by_phase u (valid_update-pending c id u v) u.phase refl)
  ]
    where
      by_phase :
          (u : Update)
          → c.pending ≡ some u
          → (phase : UpdatePhase) → u.phase ≡ phase
          → After h d c (elim phase [
            | prepared ↦ (none, with_phase c u persisting)
            | _ ↦ (some update_state, c)
          ])
      by_phase u b prepared e = moved u prepared persisting b e persists (λ y. absurd (cc y))
      by_phase u b persisting e = same
      by_phase u b committed e = same
      by_phase u b publishing e = same
      by_phase u b publication_failed e = same

  confirm-Effect : Effect h d c (confirm_commit c id).1
  unfolding confirm_commit
  confirm-Effect = elim (Result-cases (valid_update c id)) [
    | inl (e, v) ↦ rw (confirm_commit, v) same
    | inr (u, v) ↦ elim (Bool-cases (unwritten u.phase)) [
      | inl w ↦
          rw (confirm_commit, v, w)
            (moved u u.phase committed (valid_update-pending c id u v) refl (commits u.phase w)
              (λ y. absurd (cc (unwritten-publishing u.phase w, y))))
      | inr w ↦ rw (confirm_commit, v, w) same
    ]
  ]

  abort-Effect : Effect h d c (abort c id).1
  unfolding abort
  abort-Effect = elim (Result-cases (valid_update c id)) [
    | inl (e, v) ↦ rw (abort, v) same
    | inr (u, v) ↦ rw (abort, v) (by_phase u (valid_update-pending c id u v) u.phase refl)
  ]
    where
      by_phase :
          (u : Update)
          → c.pending ≡ some u
          → (phase : UpdatePhase) → u.phase ≡ phase
          → After h d c (elim phase [
            | prepared ↦ (none, finish_update c)
            | _ ↦ (some persistence_unknown, c)
          ])
      by_phase u b prepared e = dropped u b (rw e refl)
      by_phase u b persisting e = same
      by_phase u b committed e = same
      by_phase u b publishing e = same
      by_phase u b publication_failed e = same

  rollback-Effect : Effect h d c (confirm_rollback c id).1
  unfolding confirm_rollback
  rollback-Effect = elim (Result-cases (valid_update c id)) [
    | inl (e, v) ↦ rw (confirm_rollback, v) same
    | inr (u, v) ↦ elim (Bool-cases (unwritten u.phase)) [
      | inl w ↦ rw (confirm_rollback, v, w) (dropped u (valid_update-pending c id u v) w)
      | inr w ↦ rw (confirm_rollback, v, w) same
    ]
  ]

  publish-Effect :
      (ctx : Option Context) (can_retire : Bool)
      → Effect h d c (publish_start ctx can_retire c id).1
  unfolding publish_start
  publish-Effect none can_retire = same
  publish-Effect (some ctx) can_retire = elim (Option-cases ctx.err) [
    | inr (e, f) ↦ simp (publish_start, f) same
    | inl f ↦ elim (Option-cases ctx.deadline) [
      | inl g ↦ simp (publish_start, f, g) same
      | inr (t, g) ↦ elim (Result-cases (valid_update c id)) [
        | inl (e, v) ↦ simp (publish_start, f, g, v) same
        | inr (u, v) ↦ elim (Bool-cases (is_publishable u.phase)) [
          | inr w ↦ simp (publish_start, f, g, v, w) same
          | inl w ↦ elim (Bool-cases (ltb 0 (length u.change.retired) && negate can_retire)) [
            | inl r ↦ simp (publish_start, f, g, v, w, r) same
            | inr r ↦ elim (Bool-cases u.published) [
              | inl b ↦
                  simp (publish_start, f, g, v, w, r, b)
                    (repeated u (valid_update-pending c id u v) b w)
              | inr b ↦
                  simp (publish_start, f, g, v, w, r, b)
                    (activated u (valid_update-pending c id u v) b w)
            ]
          ]
        ]
      ]
    ]
  ]

  cancel-Effect : Effect h d c (publish_cancel c id)
  unfolding publish_cancel
  cancel-Effect = elim (Option-cases c.pending) [
    | inl b ↦ simp (publish_cancel, b) same
    | inr (u, b) ↦ elim (Bool-cases (u.id == id)) [
      | inl w ↦ subst (Effect h d c) (ground (arith, b, w)) (stopped u b)
      | inr w ↦ simp (publish_cancel, b, w) same
    ]
  ]

  publishing-fails :
      (u : Update)
      → c.pending ≡ some u
      → is_publishing u.phase ≡ true
      → u.cancels ≡ []
      → Effect h d c (with_phase c u publication_failed)
  publishing-fails u b w n = moved u publishing publication_failed b (only u.phase w) fails (λ y. n)
    where
      only : (phase : UpdatePhase) → is_publishing phase ≡ true → phase ≡ publishing
      only prepared k = cc
      only persisting k = cc
      only committed k = cc
      only publishing k = refl
      only publication_failed k = cc

  retire-Effect : (failed : Option Error) → Effect h d c (publish_end failed c id).1
  unfolding publish_end
  retire-Effect failed = elim (Option-cases c.pending) [
    | inl b ↦ simp (publish_end, b) same
    | inr (u, b) ↦
        elim (Bool-cases (u.id == id && is_publishing u.phase && length u.cancels == 0)) [
          | inr w ↦ simp (publish_end, b, w) same
          | inl w ↦
              let y : is_publishing u.phase ≡ true = ground (arith, w) in
              let n = length-empty u.cancels (ground (arith, w, ==→eq (length u.cancels) 0)) in
              elim (Bool-cases c.is_closed) [
                | inl o ↦ subst (Effect h d c) (ground (arith, b, w, o)) (publishing-fails u b y n)
                | inr o ↦ elim (Option-cases failed) [
                  | inl f ↦ subst (Effect h d c) (ground (arith, b, w, o, f)) (finished u b y n)
                  | inr (e, f) ↦
                      subst (Effect h d c) (ground (arith, b, w, o, f)) (publishing-fails u b y n)
                ]
              ]
        ]
  ]

pub step-Effect :
    (p : Platform) (h : Hashes) (d : DeepEqual) (op : Op) (c : Coordinator)
    → Effect h d c (step p h d op c)
unfolding step release close_coordinator
step-Effect p h d (entering ctx admission) c = enter-Effect p h d c ctx admission
step-Effect p h d (releasing id) c =
    thinned _ (length-remove c.active id) (λ r m n. remove_registration-In c.active id m)
step-Effect p h d (ending id e) c =
    thinned _ (omega (arith, length-map (end_registration e id) c.active))
      (λ r m n. end_registration-In e id c.active m n)
step-Effect p h d (beginning ctx given_up late expected next) c =
    begin-Effect p h d c ctx given_up late expected next
step-Effect p h d (persisting_update id) c = persist-Effect h d c id
step-Effect p h d (confirming id) c = confirm-Effect h d c id
step-Effect p h d (aborting id) c = abort-Effect h d c id
step-Effect p h d (rolling_back id) c = rollback-Effect h d c id
step-Effect p h d (publishing_update ctx can_retire id) c = publish-Effect h d c id ctx can_retire
step-Effect p h d (cancelling id) c = cancel-Effect h d c id
step-Effect p h d (retiring failed id) c = retire-Effect h d c id failed
step-Effect p h d closing c = elim (Bool-cases c.is_closed) [
  | inl o ↦ simp (close_coordinator, o) same
  | inr o ↦ subst (Effect h d c) (ground (arith, o)) shut
]
