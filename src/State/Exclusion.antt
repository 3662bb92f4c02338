-- ===== src/State/Exclusion.antt =====
-- core/mcp/state: what an update of the inventory keeps out.
use xops_cli.Base.{
  In, List, Option, String, any, any-false-In, contains, false, some, subst, sym, true, ◌≡◌, ◌∙◌,
  string_eq, ℕ,
}
use xops_cli.Guardrail.Risk.{Platform}
use xops_cli.Ports.{Admission, Context, Hashes, OperationSnapshot, Target, ok}
use xops_cli.State.Views.{dependencies, select_view, selectors_for}
use xops_cli.State.Changes.{DeepEqual, policy_changed}
use xops_cli.State.Coordinator.{Coordinator, Update, blocked, enter, is_blocked_by, new_coordinator}
use xops_cli.State.History.{Op, run_ops}
use xops_cli.State.Limits.{new_coordinator-empty}
use xops_cli.State.Admissions.{enter-Admits}
use xops_cli.State.Sets.{contains-In}
use xops_cli.State.Identities.{IsSound, new-IsSound, run-IsSound}
use xops_cli.State.Comparisons.{Unchanged, calculate_change-Unchanged}
use xops_cli.State.Walks.{or-false}

blocked-parts :
    (c : Coordinator) (u : Update) (view : OperationSnapshot)
    → c.pending ≡ some u
    → blocked c view ≡ false
    → (u.change.policy ≡ false) × (any (contains u.change.affected) (dependencies view) ≡ false)
unfolding blocked is_blocked_by
blocked-parts c u view e b =
    or-false u.change.policy (any (contains u.change.affected) (dependencies view))
      (simp (blocked, e) at b)

-- The candidate has the policy of the view, and each node on which the selected view depends and
-- that is in the inventory.
pub record Leaves (h : Hashes) (d : DeepEqual) (c : Coordinator) (next : OperationSnapshot)
    (admission : Admission) : Type 0 where
  pub current : OperationSnapshot
  pub selected : select_view c.view (selectors_for admission.snapshot) ≡ ok current
  pub same_policy : policy_changed d c.view next ≡ false
  pub same_nodes :
      (id : String) (t : Target)
      → In (id, t) c.view.targets
      → contains (dependencies current) id ≡ true
      → Unchanged h t next.targets id

-- While an update is pending whose candidate is not published, an operation is admitted only if
-- the candidate leaves it as it is: with the policy and its revision, and with the connection, the
-- versions and the state of each node that it works on or goes through, whatever has been called
-- before on the coordinator from when it was new.
pub enter-Leaves :
    (p : Platform) (h : Hashes) (d : DeepEqual) (initial : OperationSnapshot)
    (max_active : Option ℕ) (new c after : Coordinator) (ops : List Op) (u : Update)
    (ctx : Option Context) (admission : Admission) (id : ℕ)
    → new_coordinator p h initial max_active ≡ ok new
    → run_ops p h d ops new ≡ c
    → c.pending ≡ some u
    → u.published ≡ false
    → enter h ctx c admission ≡ (ok id, after)
    → Leaves h d c u.next admission
enter-Leaves p h d initial max_active new c after ops u ctx admission id k r b n e =
    let (_, f, g) = new_coordinator-empty p h d initial max_active new k in
    let s = subst (IsSound h d) r (run-IsSound p h d ops new (new-IsSound h d new f g)) in
    let a = enter-Admits h c admission id after ctx e in
    let (same_policy, unaffected) = blocked-parts c u a.current b a.unblocked in
    let (changed, l) = calculate_change-Unchanged h d c.view u.next u.change (s.waits u b n).0 in
    record {
      current = a.current;
      selected = a.selected;
      same_policy = sym changed ∙ same_policy;
      same_nodes = λ j t m i. l j t m (
          any-false-In (contains u.change.affected) unaffected
            (contains-In (dependencies a.current) j i));
    }
