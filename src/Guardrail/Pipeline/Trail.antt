-- ===== src/Guardrail/Pipeline/Trail.antt =====
-- core/mcp/guardrail/guardrail.go: the audit of a sequence of tool calls.
use xops_cli.Base.{
  In, In-append, In-only, List, Option-cases, String, [], ap, inl, inr, refl, subst, sym, true, ◌≡◌,
  ◌⊎◌,
}
use xops_cli.Guardrail.Risk.{RiskLevel, RiskInput, Platform}
use xops_cli.Guardrail.Policy.{Decision, allow, need_approval, deny}
use xops_cli.Guardrail.Pipeline.Audit.{AuditEntry, decision_string, Guardrail, Append}
use xops_cli.Guardrail.Pipeline.Asking.{Call, Digest}
use xops_cli.Guardrail.Pipeline.Entries.{records}
use xops_cli.Guardrail.Pipeline.Calls.{ToolError, Reply, World, entry_for, with_guardrail}
use xops_cli.Guardrail.Pipeline.Executions.{bound}
use xops_cli.Guardrail.Pipeline.Clearance.{
  Cleared, by_policy, by_user, CallEnd, idle, cleared, cleared_entry, with_guardrail-ends,
}

-- An entry announces the operation, as allowed by the policy or approved by the user.
pub record Announced (audit : List AuditEntry) (op : String) : Type 0 where
  pub entry : AuditEntry
  pub taken : In entry audit
  pub same_operation : entry.operation_id ≡ op
  pub intent : entry.outcome ≡ "intent"
  pub clearance : (entry.decision ≡ "allow") ⊎ (entry.decision ≡ "approved")

grown-Announced :
    {before after : List AuditEntry} {op : String}
    → ((x : AuditEntry) → In x before → In x after)
    → Announced before op
    → Announced after op
grown-Announced grown a = record {
  entry = a.entry;
  taken = grown a.entry a.taken;
  same_operation = a.same_operation;
  intent = a.intent;
  clearance = a.clearance;
}

-- Every operation that has run is announced.
unfoldable pub HasTrail {ℓ} : {In' : Type ℓ} → World In' → Type ℓ
HasTrail {In' = In'} w =
    (op : String) (input : In') → In (op, input) w.executed → Announced w.audit op

-- The worlds of a guardrail, from an empty one, by calls of any tools with any handlers
pub data Reached {ℓ} {In' : Type ℓ} (Out E : Type ℓ) (p : Platform) (g : Guardrail)
    (append : Append) (digest : Digest In') : World In' → Type ℓ where
  begun : Reached Out E p g append digest (record { audit = []; executed = []; pendings = [] })
  called :
      (tool_name : String) (risk_input : In' → RiskInput) (handler : In' → Reply Out E)
      (call : Call) (input : In') (w : World In')
      → Reached Out E p g append digest w
      → Reached Out E p g append digest
          (with_guardrail p g append digest tool_name risk_input handler call input w).1

Cleared-Announced {ℓ} :
    {In' : Type ℓ} (g : Guardrail) (digest : Digest In') (call : Call) (risk : RiskLevel)
    (ri : RiskInput) (op : String) (input : In') (w : World In') (d : Decision)
    (audit : List AuditEntry)
    → Cleared g digest call risk ri input w d
    → In (bound g call (record (cleared_entry d risk ri op) { outcome = "intent" })) audit
    → Announced audit op
unfolding cleared_entry entry_for decision_string
Cleared-Announced g digest call risk ri op input w allow audit by_policy m = record {
  entry = _;
  taken = m;
  same_operation = refl;
  intent = refl;
  clearance = inl refl;
}
Cleared-Announced g digest call risk ri op input w deny audit c m = elim c [ ]
Cleared-Announced g digest call risk ri op input w need_approval audit (by_user q h) m = record {
  entry = _;
  taken = m;
  same_operation = refl;
  intent = refl;
  clearance = inr refl;
}

module _ {ℓ} {In' Out E : Type ℓ} (g : Guardrail) (digest : Digest In') where
  end-HasTrail :
      (call : Call) (risk : RiskLevel) (ri : RiskInput) (op : String) (input : In')
      (handled : Reply Out E) (w : World In') (d : Decision)
      (end : Reply Out (ToolError E) × World In')
      → records g ≡ true
      → CallEnd g digest call risk ri op input handled w d end
      → HasTrail w
      → HasTrail end.1
  unfolding HasTrail
  end-HasTrail call risk ri op input handled w d end r (idle reply after same grown s) trail =
      λ op' input' m. grown-Announced grown (trail op' input' (subst (In (op', input')) same m))
  end-HasTrail call risk ri op input handled w d end r (cleared reply after c run) trail =
      λ op' input' m. elim (In-append w.executed (subst (In (op', input')) run.once m)) [
        | inl old ↦ grown-Announced run.grown (trail op' input' old)
        | inr new ↦
            let same : op' ≡ op = ap (λ x. x.0) (In-only new) in
            subst (Announced after.audit) (sym same)
              (Cleared-Announced g digest call risk ri op input w d after.audit c (run.intended r))
      ]

call-HasTrail {ℓ} :
    {In' Out E : Type ℓ} (p : Platform) (g : Guardrail) (append : Append) (digest : Digest In')
    (tool_name : String) (risk_input : In' → RiskInput) (handler : In' → Reply Out E) (call : Call)
    (input : In') (w : World In')
    → records g ≡ true
    → HasTrail w
    → HasTrail (with_guardrail p g append digest tool_name risk_input handler call input w).1
unfolding with_guardrail
call-HasTrail p g append digest tool_name risk_input handler call input w r trail =
    elim (Option-cases call.operation_id) [
      | inl e ↦ rw e trail
      | inr (op, e) ↦
          end-HasTrail g digest call _ _ op input (handler input) w _ _ r
            (with_guardrail-ends p g append digest tool_name risk_input handler call input w op e)
            trail
    ]

-- Where the audit's destination writes entries down, every operation that has run after any
-- sequence of calls is announced by an entry of the audit with its identifier, as allowed by the
-- policy or approved by the user.
pub Reached-HasTrail {ℓ} :
    {In' Out E : Type ℓ} (p : Platform) (g : Guardrail) (append : Append) (digest : Digest In')
    (w : World In')
    → records g ≡ true
    → Reached Out E p g append digest w
    → HasTrail w
unfolding HasTrail
Reached-HasTrail p g append digest w r begun = λ op input m. elim m [ ]
Reached-HasTrail p g append digest w r (called tool_name risk_input handler call input v before) =
    call-HasTrail p g append digest tool_name risk_input handler call input v r
      (Reached-HasTrail p g append digest v r before)
