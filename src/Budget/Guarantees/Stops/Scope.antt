-- ===== src/Budget/Guarantees/Stops/Scope.antt =====
-- The calls of `BudgetScope` keep the stop of the task.
use jingwei.Base.{ℕ, arith}
use jingwei.Budget.Vocabulary.{StopReason, Request, Metrics}
use jingwei.Budget.Ledger.{Inner, State}
use jingwei.Budget.Ledger.Clock.{tick}
use jingwei.Budget.Ledger.Runs.{update_report}
use jingwei.Budget.Ledger.Scope.{
  sub_duration, turn_id, check_active, remaining_time, expire, if_running, stop_with, begin_cleanup,
  report, update_metrics,
}
use jingwei.Budget.Ledger.Reserve.{reserve}
use jingwei.Budget.Guarantees.Stops.Clock.{HasStop, check_stop-fails, tick-stop}

module _ (reason : StopReason) where
  pub turn_id-stop :
      (run_id : ℕ) (s : State) → HasStop reason s → HasStop reason (turn_id run_id s).1
  unfolding turn_id
  turn_id-stop run_id s h = ground arith

  pub check_active-stop :
      (inner : Inner) (run_id now : ℕ) (s : State)
      → HasStop reason s
      → HasStop reason (check_active inner run_id now s).1
  unfolding check_active
  check_active-stop inner run_id now s h = let ht = tick-stop reason inner now s h in ground arith

  pub remaining_time-stop :
      (inner : Inner) (run_id now : ℕ) (s : State)
      → HasStop reason s
      → HasStop reason (remaining_time inner run_id now s).1
  unfolding remaining_time sub_duration
  remaining_time-stop inner run_id now s h = let ht = tick-stop reason inner now s h in ground arith

  pub expire-stop :
      (inner : Inner) (run_id now : ℕ) (s : State)
      → HasStop reason s
      → HasStop reason (expire inner run_id now s).1
  unfolding expire if_running
  expire-stop inner run_id now s h =
      let t = tick inner now s in
      let ht = tick-stop reason inner now s h in ground (arith, check_stop-fails reason t ht)

  pub stop_with-stop :
      (inner : Inner) (run_id : ℕ) (r : StopReason) (now : ℕ) (s : State)
      → HasStop reason s
      → HasStop reason (stop_with inner run_id r now s).1
  unfolding stop_with update_report
  stop_with-stop inner run_id r now s h = let ht = tick-stop reason inner now s h in ground arith

  pub begin_cleanup-stop :
      (inner : Inner) (run_id now : ℕ) (s : State)
      → HasStop reason s
      → HasStop reason (begin_cleanup inner run_id now s).1
  unfolding begin_cleanup
  begin_cleanup-stop inner run_id now s h = let ht = tick-stop reason inner now s h in ground arith

  pub update_metrics-stop :
      (run_id : ℕ) (update : Metrics → Metrics) (s : State)
      → HasStop reason s
      → HasStop reason (update_metrics run_id update s)
  unfolding update_metrics
  update_metrics-stop run_id update s h = ground arith

  pub report-stop :
      (inner : Inner) (now : ℕ) (s : State)
      → HasStop reason s
      → HasStop reason (report inner now s).1
  unfolding report
  report-stop inner now s h = let ht = tick-stop reason inner now s h in ground arith

  pub reserve-stop :
      (inner : Inner) (run_id : ℕ) (request : Request) (now : ℕ) (s : State)
      → HasStop reason s
      → HasStop reason (reserve inner run_id request now s).1
  unfolding reserve
  reserve-stop inner run_id request now s h =
      let t = tick inner now s in
      let ht = tick-stop reason inner now s h in ground (arith, check_stop-fails reason t ht)
