-- ===== src/Transfer/History.antt =====
-- Sequences of calls on tasks that are prepared: every exported method of core/mcp/transfer that
-- changes a task's record, but for those that prepare one or collect the expired.
use xops_cli.Base.{List, Option, String, [], ℕ, ◌∷◌, nat_eq, string_eq, text_eq}
use xops_cli.Base.Int.{ℤ}
use xops_cli.Ports.{Context, Permit}
use xops_cli.Transfer.Record.{Direction, state_eq, Codec}
use xops_cli.Transfer.Manager.{Manager, Clock}
use xops_cli.Transfer.Prepare.{invalidate_ready}
use xops_cli.Transfer.Lease.{claim}
use xops_cli.Transfer.Commit.{
  progress, temporary, confirm_temporary, verify, reserve_commit, begin_commit, complete, fail,
  close,
}
use xops_cli.Transfer.Management.{warn, reject_commit}
use xops_cli.Transfer.Control.{cancel, cancel_with_token, cleaned}
use xops_cli.Transfer.Steps
use xops_cli.Transfer.Calls
use xops_cli.Transfer.Advances.{IsKeyed, Advances, Advances_refl}

pub data Call : Type 0 where
  claims : Option Context → String → String → Direction → Option Permit → Clock → Call
  progresses : String → ℤ → ℕ → Call
  makes_temporary : String → ℕ → Call
  confirms_temporary : String → ℕ → Call
  verifies : String → ℤ → String → ℕ → Call
  reserves_commit : String → Option Permit → ℕ → Call
  begins_commit : String → Option Permit → Clock → Call
  completes : String → ℕ → Call
  fails : String → Option String → ℕ → Call
  rejects_commit : String → Option String → ℕ → Call
  closes : String → ℕ → Call
  warns : String → String → ℕ → Call
  cancels : String → String → ℕ → Call
  cancels_with_token : String → String → Clock → Call
  cleans : String → ℕ → Call
  invalidates_ready : String → Option String → ℕ → Call

unfoldable pub run : Codec → Manager → Call → Manager
run c m (claims ctx id token d permit clock) = (claim c m ctx id token d permit clock).1
run c m (progresses id n now) = (progress m id n now).1
run c m (makes_temporary id now) = (temporary c m id now).1
run c m (confirms_temporary id now) = (confirm_temporary c m id now).1
run c m (verifies id n digest now) = (verify c m id n digest now).1
run c m (reserves_commit id permit now) = (reserve_commit c m id permit now).1
run c m (begins_commit id permit clock) = (begin_commit c m id permit clock).1
run c m (completes id now) = (complete c m id now).1
run c m (fails id cause now) = (fail c m id cause now).1
run c m (rejects_commit id cause now) = (reject_commit c m id cause now).1
run c m (closes id now) = (close c m id now).1
run c m (warns id text now) = (warn c m id text now).1
run c m (cancels scope id now) = (cancel c m scope id now).1
run c m (cancels_with_token id token clock) = (cancel_with_token c m id token clock).1
run c m (cleans id now) = (cleaned c m id now).1
run c m (invalidates_ready id cause now) = (invalidate_ready c m id cause now).1

unfoldable pub run_all : Codec → Manager → List Call → Manager
run_all c m [] = m
run_all c m (x ∷ xs) = run_all c (run c m x) xs

pub run-Advances :
    (c : Codec) (m : Manager) (x : Call)
    → IsKeyed m.records
    → Advances m.records (run c m x).records
unfolding run
run-Advances c m (claims ctx id token d permit clock) k =
    Calls.claim-Advances c m k ctx id token d permit clock
run-Advances c m (progresses id n now) k = Steps.progress-Advances c m k id n now
run-Advances c m (makes_temporary id now) k = Steps.temporary-Advances c m k id now
run-Advances c m (confirms_temporary id now) k = Steps.confirm_temporary-Advances c m k id now
run-Advances c m (verifies id n digest now) k = Steps.verify-Advances c m k id n digest now
run-Advances c m (reserves_commit id permit now) k =
    rw (Steps.reserve_commit-records c m k id permit now) (Advances_refl k)
run-Advances c m (begins_commit id permit clock) k =
    Calls.begin_commit-Advances c m k id permit clock
run-Advances c m (completes id now) k = Steps.complete-Advances c m k id now
run-Advances c m (fails id cause now) k = Steps.fail-Advances c m k id cause now
run-Advances c m (rejects_commit id cause now) k = Steps.reject_commit-Advances c m k id cause now
run-Advances c m (closes id now) k = Steps.close-Advances c m k id now
run-Advances c m (warns id text now) k = Steps.warn-Advances c m k id text now
run-Advances c m (cancels scope id now) k = Calls.cancel-Advances c m k scope id now
run-Advances c m (cancels_with_token id token clock) k =
    Calls.cancel_with_token-Advances c m k id token clock
run-Advances c m (cleans id now) k = Calls.cleaned-Advances c m k id now
run-Advances c m (invalidates_ready id cause now) k =
    Calls.invalidate_ready-Advances c m k id cause now
