-- ===== src/Guardrail/Pipeline/Executions.antt =====
-- core/mcp/guardrail/guardrail.go: the tool calls that run their handler.
use xops_cli.Base.{
  Bool, In, Option-cases, String, [], ap, arith, false, inl, inr, none, refl, some, subst, true,
  ◌++◌, ◌∷◌, ◌≡◌, ◌⊎◌,
}
use xops_cli.Guardrail.Risk.{Platform}
use xops_cli.Guardrail.Pipeline.Audit.{AuditEntry, Guardrail, Append, invocation, log}
use xops_cli.Guardrail.Pipeline.Asking.{Call, on_intent, Digest}
use xops_cli.Guardrail.Pipeline.Entries.{records, Logged, log-Logged}
use xops_cli.Guardrail.Pipeline.Calls.{
  ToolError, unaudited_intent, handler_failed, Reply, World, fail, warned, outcome_entry,
  after_handler, run_handler,
}

-- The entry as the destination is given it
abbrev pub bound : Guardrail → Call → AuditEntry → AuditEntry
bound g call entry = record entry { binding = (invocation g call.scope).2 }

-- What the run of a handler leaves behind
pub record Ran {ℓ} {In' Out E : Type ℓ} (g : Guardrail) (call : Call) (entry : AuditEntry)
    (op : String) (input : In') (handled : Reply Out E) (w : World In')
    (reply : Reply Out (ToolError E)) (after : World In') : Type ℓ where
  pub once : after.executed ≡ w.executed ++ (op, input) ∷ []
  pub intended :
      records g ≡ true → In (bound g call (record entry { outcome = "intent" })) after.audit
  pub grown : (x : AuditEntry) → In x w.audit → In x after.audit
  pub succeeded :
      handled.error ≡ none
      → (reply.error ≡ none)
        × (reply.output ≡ handled.output)
        × ((reply.result ≡ handled.result)
              × (records g ≡ true
                  → In (bound g call (record entry { outcome = "executed" })) after.audit)
            ⊎ (reply.result ≡ some (warned op handled.result)))
  pub failed :
      (e : E)
      → handled.error ≡ some e
      → (audited : Bool) × (reply.error ≡ some (handler_failed e audited))

-- The end of a call: the handler has not run, or it has.
pub data RunEnd {ℓ} {In' Out E : Type ℓ} (g : Guardrail) (call : Call) (entry : AuditEntry)
    (op : String) (input : In') (handled : Reply Out E) (w : World In')
    : Reply Out (ToolError E) × World In' → Type ℓ where
  unaudited : RunEnd g call entry op input handled w (fail unaudited_intent, w)
  ran :
      (reply : Reply Out (ToolError E)) (after : World In')
      → Ran g call entry op input handled w reply after
      → RunEnd g call entry op input handled w (reply, after)

module _ {ℓ} {In' Out E : Type ℓ} (g : Guardrail) (append : Append) where
  after_handler-Ran :
      (call : Call) (entry : AuditEntry) (op : String) (input : In') (handled : Reply Out E)
      (w middle : World In')
      → middle.executed ≡ w.executed ++ (op, input) ∷ []
      → Logged g (bound g call (record entry { outcome = "intent" })) w.audit middle.audit
      → RunEnd g call entry op input handled w (after_handler g append call entry op handled middle)
  unfolding after_handler outcome_entry
  after_handler-Ran call entry op input handled w middle h first =
      let outcome = outcome_entry entry handled.error in
      elim (Option-cases handled.error) [
        | inl good ↦ elim (Option-cases (log append g call.scope false middle.audit outcome)) [
          | inl l ↦
              rw (after_handler, l, good)
                (ran _ _ (record {
                  once = h;
                  intended = first.taken;
                  grown = first.grown;
                  succeeded = λ k. (refl, refl, inr refl);
                  failed = λ e bad. absurd (ground (arith, good, bad));
                }))
          | inr (audit, l) ↦
              let last = log-Logged append g call.scope false middle.audit outcome audit l in
              rw (after_handler, l, good)
                (ran _ _ (record {
                  once = h;
                  intended = λ r. last.grown _ (first.taken r);
                  grown = λ x m. last.grown x (first.grown x m);
                  succeeded = λ k. (
                    refl,
                    refl,
                    inl (
                      refl,
                      λ r.
                          subst (λ o. In (bound g call o) audit) (ap (outcome_entry entry) good)
                            (last.taken r),
                    ),
                  );
                  failed = λ e bad. absurd (ground (arith, good, bad));
                }))
        ]
        | inr (failure, bad) ↦
            elim (Option-cases (log append g call.scope false middle.audit outcome)) [
              | inl l ↦
                  rw (after_handler, l, bad)
                    (ran _ _ (record {
                      once = h;
                      intended = first.taken;
                      grown = first.grown;
                      succeeded = λ good. absurd (ground arith);
                      failed = λ e same. (false, ground (arith, same));
                    }))
              | inr (audit, l) ↦
                  let last = log-Logged append g call.scope false middle.audit outcome audit l in
                  rw (after_handler, l, bad)
                    (ran _ _ (record {
                      once = h;
                      intended = λ r. last.grown _ (first.taken r);
                      grown = λ x m. last.grown x (first.grown x m);
                      succeeded = λ good. absurd (ground arith);
                      failed = λ e same. (true, ground (arith, same));
                    }))
            ]
      ]

module _ {ℓ} {In' Out E : Type ℓ} (p : Platform) (g : Guardrail) (append : Append)
    (digest : Digest In') where
  pub run_handler-ends :
      (call : Call) (entry : AuditEntry) (op : String) (handler : In' → Reply Out E) (input : In')
      (w : World In')
      → RunEnd g call entry op input
          (handler input)
          w
          (run_handler p g append digest call entry op handler input w)
  unfolding run_handler
  run_handler-ends call entry op handler input w =
      let intent : AuditEntry = record entry { outcome = "intent" } in
      elim (Option-cases (log append g call.scope (call.done on_intent) w.audit intent)) [
        | inl e ↦ rw (run_handler, e) unaudited
        | inr (audit, e) ↦
            let first =
              log-Logged append g call.scope (call.done on_intent) w.audit intent audit e in
            rw (run_handler, e)
              (after_handler-Ran g append call entry op input (handler input) w _ refl first)
      ]
