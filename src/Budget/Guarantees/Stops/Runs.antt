-- ===== src/Budget/Guarantees/Stops/Runs.antt =====
-- The calls of `TaskBudget` and `BudgetRun` keep the stop of the task.
use jingwei.Base.{ℕ, arith}
use jingwei.Budget.Vocabulary.{StopReason}
use jingwei.Budget.Ledger.{Inner, State}
use jingwei.Budget.Ledger.Clock.{tick}
use jingwei.Budget.Ledger.Runs.{
  update_report, abandon_run, begin_run, bind_turn, prepare_report, finish, drop_run,
}
use jingwei.Budget.Guarantees.Stops.Clock.{HasStop, check_stop-fails, tick-stop}

module _ (reason : StopReason) where
  pub begin_run-stop :
      (inner : Inner) (turn : _) (limits : _) (now later : ℕ) (s : State)
      → HasStop reason s
      → HasStop reason (begin_run inner turn limits now later s).1
  unfolding begin_run
  begin_run-stop inner turn limits now later s h =
      let t = tick inner now s in
      let ht = tick-stop reason inner now s h in ground (arith, check_stop-fails reason t ht)

  pub bind_turn-stop :
      (inner : Inner) (handle : _) (turn : _) (now : ℕ) (s : State)
      → HasStop reason s
      → HasStop reason (bind_turn inner handle turn now s).1
  unfolding bind_turn update_report
  bind_turn-stop inner handle turn now s h = let ht = tick-stop reason inner now s h in ground arith

  pub prepare_report-stop :
      (inner : Inner) (handle : _) (now : ℕ) (s : State)
      → HasStop reason s
      → HasStop reason (prepare_report inner handle now s).1
  unfolding prepare_report update_report
  prepare_report-stop inner handle now s h = let ht = tick-stop reason inner now s h in ground arith

  pub finish-stop :
      (inner : Inner) (handle : _) (now : ℕ) (s : State)
      → HasStop reason s
      → HasStop reason (finish inner handle now s).1
  unfolding finish update_report
  finish-stop inner handle now s h = let ht = tick-stop reason inner now s h in ground arith

  pub drop_run-stop :
      (inner : Inner) (handle : _) (now : ℕ) (s : State)
      → HasStop reason s
      → HasStop reason (drop_run inner handle now s)
  unfolding drop_run abandon_run
  drop_run-stop inner handle now s h = let ht = tick-stop reason inner now s h in ground arith
