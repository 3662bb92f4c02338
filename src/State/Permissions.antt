-- ===== src/State/Permissions.antt =====
-- core/mcp/state and core/mcp/ports/permit.go: what the permit of an operation still stands for
-- while updates are published.
use xops_cli.Base.{In, Option, String, none, some, true, ◌≡◌, nat_eq, string_eq}
use xops_cli.Ports.{Admission, Error, OperationSnapshot, Target, ok, phase_eq}
use xops_cli.State.Views.{dependencies, select_view, selectors_for}
use xops_cli.State.Coordinator.{Coordinator, Registration}
use xops_cli.State.Standing.{Stands, is_enabled}

-- The error of an operation's context: its registration's, or the one that ended it before it was
-- released
abbrev pub context_error : Error → Option Registration → Option Error
context_error ended none = some ended
context_error ended (some r) = r.context

-- What an operation was admitted on, in the view of an earlier state, and how it stands now: the
-- policy's revision is the same, and the nodes that it works on, and those that it goes through
-- and that were enabled, are in the inventory and enabled.
pub record Works (c now : Coordinator) (admission : Admission) : Type 0 where
  pub current : OperationSnapshot
  pub selected : select_view c.view (selectors_for admission.snapshot) ≡ ok current
  pub stands : Stands (dependencies current) c.view now.view
  pub enabled :
      (id : String) (t : Target)
      → In (id, t) current.targets
      → is_enabled now.view.targets id ≡ true
