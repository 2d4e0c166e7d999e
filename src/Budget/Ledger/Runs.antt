-- ===== src/Budget/Ledger/Runs.antt =====
-- `TaskBudget::new` and `begin_run`, and `BudgetRun` with its `Drop`.
use jingwei.Base.{
  ℕ, Bool, true, false, ◌||◌, not, Option, none, some, if◌then◌else◌, is_some, get_or_insert,
  is_empty, ◌==◌,
}
use jingwei.Base.Text.{Text, is_blank}
use jingwei.Budget.Amounts.{Limits, no_amounts, tightened_by}
use jingwei.Budget.Vocabulary.{Identity, TokenMode, StopReason, RunReport, Report, no_metrics}
use jingwei.Budget.Ledger.{BudgetError, Inner, RunState, State, new_state, RunHandle}
use jingwei.Budget.Ledger.Action.{
  Outcome, ok, err, Action, pure, ok_or, lift, ◌>>=◌, ◌>>◌, gets, modify, fail_if,
}
use jingwei.Budget.Ledger.Clock.{tick, check_writable, check_run, check_stop, allocate_id, snapshot}

unfoldable pub has_blank_identity : Identity → Bool
unfolding is_blank
has_blank_identity i = is_blank i.task_id || is_blank i.session_id || is_blank i.agent_key

-- `TaskBudget::new`, at clock time `now`.
unfoldable pub new_budget : Identity → Limits → Limits → TokenMode → ℕ → Outcome (Inner × State)
unfolding has_blank_identity
new_budget identity host_limits task_limits token_mode now =
    if has_blank_identity identity
    then err BudgetError.invalid_identity
    else ok (
      record {
        identity = identity;
        limits = tightened_by host_limits task_limits;
        token_mode = token_mode;
      },
      new_state now,
    )

-- The report of a run that has just begun.
abbrev pub new_run_report : Option Text → Limits → RunReport
new_run_report turn_id limits = record {
  turn_id = turn_id;
  metrics = no_metrics;
  limits = limits;
  charged = no_amounts;
  reserved = no_amounts;
  active_time = 0;
  cleanup_time = 0;
  is_open = true;
  stop = none;
}

-- `begin_run_inner`, which samples the clock at `now` and, when the run stands, at `later`;
-- `begin_run` gives a turn and `begin_admission` none.
unfoldable pub begin_run : Inner → Option Text → Limits → ℕ → ℕ → Action RunHandle
begin_run inner turn_id limits now later = do
  lift check_writable
  modify (tick inner now)
  fail_if (← gets (λ s. is_some s.run)) BudgetError.run_active
  lift check_stop
  id ← allocate_id
  modify λ s. record s {
    run = some (record {
      id = id;
      report = new_run_report turn_id (tightened_by inner.limits limits);
      cleaning = false;
    });
  }
  modify (tick inner later)
  pure (record { id = id; finished = false })

-- `state.run.as_mut().ok_or(RunClosed)?.report = f(report)`.
unfoldable pub update_report : (RunReport → RunReport) → Action (Unit {0})
update_report f = do
  run ← ok_or (← gets (λ s. s.run)) BudgetError.run_closed
  modify λ s. record s { run = some (record run { report = f run.report }) }

unfoldable pub bind_turn : Inner → RunHandle → Text → ℕ → Action (Unit {0})
unfolding update_report
bind_turn inner handle turn_id now = do
  modify (tick inner now)
  lift (check_run handle.id)
  run ← ok_or (← gets (λ s. s.run)) BudgetError.run_closed
  fail_if (is_some run.report.turn_id) BudgetError.identity_mismatch
  update_report λ report. record report { turn_id = some turn_id }

abbrev close_report : RunReport → RunReport
close_report report = record report { is_open = false }

unfoldable pub prepare_report : Inner → RunHandle → ℕ → Action Report
unfolding update_report
prepare_report inner handle now = do
  modify (tick inner now)
  lift (check_run handle.id)
  fail_if (← gets (λ s. not (is_empty s.pending))) BudgetError.pending_reservations
  update_report close_report
  gets (snapshot inner)

-- `state.run.as_ref().is_none_or(|run| run.id != self.id)`.
unfoldable pub lost_run : ℕ → Option RunState → Bool
lost_run id none = true
lost_run id (some run) = not (run.id == id)

-- `BudgetRun::finish`, with the handle that it leaves.
unfoldable pub finish : Inner → RunHandle → ℕ → Action (Report × RunHandle)
unfolding update_report lost_run
finish inner handle now = do
  lift check_writable
  modify (tick inner now)
  fail_if (← gets (λ s. lost_run handle.id s.run)) BudgetError.run_closed
  fail_if (← gets (λ s. not (is_empty s.pending))) BudgetError.pending_reservations
  update_report close_report
  report ← gets (snapshot inner)
  modify λ s. record s { run = none }
  pure (report, record handle { finished = true })

-- The write of `Drop for BudgetRun`, after the tick.
unfoldable pub abandon_run : ℕ → State → State
unfolding lost_run
abandon_run id s = elim s.run [
  | none ↦ s
  | some run ↦
      if run.id == id
      then record s {
        run = some (record run { report = close_report run.report });
        stop = get_or_insert s.stop StopReason.run_abandoned;
      }
      else s
]

-- `Drop for BudgetRun`.
unfoldable pub drop_run : Inner → RunHandle → ℕ → State → State
unfolding abandon_run check_writable
drop_run inner handle now s =
    if handle.finished
    then s
    else elim (check_writable s) [ ok _ ↦ abandon_run handle.id (tick inner now s) | _ ↦ s ]
