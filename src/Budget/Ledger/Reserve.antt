-- ===== src/Budget/Ledger/Reserve.antt =====
-- `BudgetScope::reserve`: all resources are checked before any counter moves.
use jingwei.Base.{ℕ, false, none, some, List, [], ◌∷◌, if◌then◌else◌}
use jingwei.Base.Word.{wrapping_add}
use jingwei.Budget.Amounts.{Resource, all_resources, is_attempt, Amounts, get, set}
use jingwei.Budget.Vocabulary.{StopReason, RunReport, Request, Pending}
use jingwei.Budget.Ledger.{BudgetError, Inner, State, Reservation}
use jingwei.Budget.Ledger.Action.{ok, err, Action, pure, lift, ◌>>=◌, ◌>>◌, modify}
use jingwei.Budget.Ledger.Clock.{tick, check_run, check_stop, allocate_id}
use jingwei.Budget.Ledger.Runs.{update_report}
use jingwei.Budget.Ledger.Requests.{fits, validate_request, insert_pending}

-- `!fits(state …)` for one resource: the task stops at its limit.
unfoldable pub check_task : Inner → Resource → ℕ → Action (Unit {0})
unfolding fits
check_task inner r amount s =
    if fits (get s.charged r) (get s.reserved r) amount (get inner.limits.resources r)
    then (ok tt, s)
    else (
      err (BudgetError.stopped (StopReason.resource_limit r)),
      record s { stop = some (StopReason.resource_limit r) },
    )

-- `!fits(run …)` for one resource: the run stops at its limit.
unfoldable pub check_share : Resource → ℕ → Action (Unit {0})
unfolding fits
check_share r amount s = elim s.run [
  | none ↦ (err BudgetError.run_closed, s)
  | some run ↦
      if fits (get run.report.charged r) (get run.report.reserved r) amount
        (get run.report.limits.resources r)
      then (ok tt, s)
      else (
        err (BudgetError.stopped (StopReason.resource_limit r)),
        record s {
          run = some (record run {
            report = record run.report { stop = some (StopReason.resource_limit r) };
          });
        },
      )
]

-- The first loop.
unfoldable pub check_each : Inner → Amounts → List Resource → Action (Unit {0})
check_each inner amounts [] = pure tt
check_each inner amounts (r ∷ rs) = do
  check_task inner r (get amounts r)
  check_share r (get amounts r)
  check_each inner amounts rs

-- `target.set(resource, target.get(resource) + amount)`.
unfoldable pub add_to : Amounts → Resource → ℕ → Amounts
add_to target r amount = set target r (wrapping_add (get target r) amount)

unfoldable pub charge_task : Resource → ℕ → State → State
unfolding add_to
charge_task r amount s =
    if is_attempt r
    then record s { charged = add_to s.charged r amount }
    else record s { reserved = add_to s.reserved r amount }

unfoldable pub charge_report : Resource → ℕ → RunReport → RunReport
unfolding add_to
charge_report r amount report =
    if is_attempt r
    then record report { charged = add_to report.charged r amount }
    else record report { reserved = add_to report.reserved r amount }

-- The second loop.
unfoldable pub charge_each : Amounts → List Resource → Action (Unit {0})
unfolding charge_task charge_report update_report
charge_each amounts [] = pure tt
charge_each amounts (r ∷ rs) = do
  modify (charge_task r (get amounts r))
  update_report (charge_report r (get amounts r))
  charge_each amounts rs

abbrev pub new_pending : ℕ → Request → Pending
new_pending id request = record {
  id = id;
  request = request;
  started = false;
  abandoned = false;
  failed_usage = none;
}

-- From the allocated id on: the counters and the entry.
unfoldable pub admit : Request → ℕ → Action (Unit {0})
unfolding charge_each insert_pending
admit request id = do
  charge_each request.amounts all_resources
  modify λ s. record s { pending = insert_pending (new_pending id request) s.pending }

-- From the allocation of the id to the end.
unfoldable pub admit_new : ℕ → Request → Action Reservation
unfolding admit
admit_new run_id request = do
  id ← allocate_id
  admit request id
  pure (record { run_id = run_id; id = id; resolved = false })

unfoldable pub reserve : Inner → ℕ → Request → ℕ → Action Reservation
unfolding admit_new check_each check_task check_share
reserve inner run_id request now = do
  modify (tick inner now)
  lift (check_run run_id)
  lift check_stop
  lift λ _. validate_request request inner.token_mode
  check_each inner request.amounts all_resources
  admit_new run_id request
