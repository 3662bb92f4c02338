-- ===== src/State/History.antt =====
-- core/mcp/state: sequences of calls of the coordinator and of its updates.
use xops_cli.Base.{
  Bool, List, Option, String, [], map, ◌++◌, ◌==◌, if◌then◌else◌, ◌∷◌, ◌≡◌, refl, ℕ, nat_eq,
}
use xops_cli.Guardrail.Risk.{Platform}
use xops_cli.Ports.{Admission, Context, Error, Hashes, OperationSnapshot}
use xops_cli.State.Changes.{DeepEqual}
use xops_cli.State.Coordinator.{Coordinator, Registration, close_coordinator, enter, release}
use xops_cli.State.Updates.{
  abort, begin_persistence, begin_update, confirm_commit, confirm_rollback, end_context,
  publish_cancel, publish_end, publish_start,
}

-- The calls, each of which holds the lock, or both halves of Publish; and the end of an
-- operation's context with an error
pub data Op : Type 0 where
  entering : Option Context → Admission → Op
  releasing : ℕ → Op
  ending : ℕ → Error → Op
  beginning : Option Context → Option Error → Option Error → String → OperationSnapshot → Op
  persisting_update confirming aborting rolling_back : ℕ → Op
  publishing_update : Option Context → Bool → ℕ → Op
  cancelling : ℕ → Op
  retiring : Option Error → ℕ → Op
  closing : Op

unfoldable pub end_registration : Error → ℕ → Registration → Registration
end_registration e id r = if r.id == id then end_context e r else r

module _ (p : Platform) (h : Hashes) (d : DeepEqual) where
  unfoldable pub step : Op → Coordinator → Coordinator
  unfolding end_registration
  step (entering ctx admission) c = (enter h ctx c admission).1
  step (releasing id) c = release c id
  step (ending id e) c = record c { active = map (end_registration e id) c.active }
  step (beginning ctx given_up late expected next) c =
      (begin_update p h d ctx given_up late c expected next).1
  step (persisting_update id) c = (begin_persistence c id).1
  step (confirming id) c = (confirm_commit c id).1
  step (aborting id) c = (abort c id).1
  step (rolling_back id) c = (confirm_rollback c id).1
  step (publishing_update ctx can_retire id) c = (publish_start ctx can_retire c id).1
  step (cancelling id) c = publish_cancel c id
  step (retiring failed id) c = (publish_end failed c id).1
  step closing c = close_coordinator c

  unfoldable pub run_ops : List Op → Coordinator → Coordinator
  unfolding step
  run_ops [] c = c
  run_ops (op ∷ ops) c = run_ops ops (step op c)

  pub run_ops-append :
      (ops more : List Op) (c : Coordinator)
      → run_ops (ops ++ more) c ≡ run_ops more (run_ops ops c)
  unfolding run_ops
  run_ops-append [] more c = refl
  run_ops-append (op ∷ ops) more c = run_ops-append ops more (step op c)
