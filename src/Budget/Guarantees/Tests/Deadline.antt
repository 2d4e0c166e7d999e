-- ===== src/Budget/Guarantees/Tests/Deadline.antt =====
-- A run with 200 units left of its own time, in a task with 500 left, and a timer for it.
use jingwei.Base.{ℕ, ◌+◌, ◌<◌, ◌≡◌, ◌↔◌, refl, none, some, true, false, arith}
use jingwei.Budget.Amounts.{no_amounts}
use jingwei.Budget.Vocabulary.{no_metrics}
use jingwei.Budget.Ledger.{State, RunState, new_state}
use jingwei.Budget.Ledger.Action.{ok}
use jingwei.Budget.Ledger.Clock.{
  active_share, add_cleanup, check_run, check_stop, check_writable, effective_stop, expires,
  holds_run, is_timed, is_working, task_first, tick, tick_elapsed, tick_run, timed_report,
  timed_state,
}
use jingwei.Budget.Ledger.Scope.{check_active, remaining_time, sub_duration}
use jingwei.Budget.Guarantees.Deadline.{remaining_time_exact}
use jingwei.Budget.Guarantees.Tests.{sample}

abbrev run_at : ℕ → RunState
run_at used = record {
  id = 1;
  report = record {
    turn_id = none;
    metrics = no_metrics;
    limits = record { resources = no_amounts; active_time = 300 };
    charged = no_amounts;
    reserved = no_amounts;
    active_time = used;
    cleanup_time = 7;
    is_open = true;
    stop = none;
  };
  cleaning = false;
}

abbrev ledger_at : ℕ → ℕ → State
ledger_at now used = record (new_state now) {
  active_time = 400 + used;
  cleanup_time = 9;
  run = some (run_at used);
  next_id = 1;
}

left_at_40 : remaining_time sample 1 40 (ledger_at 30 90) ≡ (ok 200, ledger_at 40 100)
unfolding remaining_time sub_duration active_share add_cleanup check_run check_stop check_writable
    effective_stop expires holds_run is_timed is_working task_first tick tick_elapsed tick_run
    timed_report timed_state
left_at_40 = refl

remaining_time_exact_example :
    ((check_active sample 1 (40 + 199) (ledger_at 40 100)).0 ≡ ok tt) ↔ (199 < 200)
remaining_time_exact_example =
    remaining_time_exact sample 1 40 199 200 (ledger_at 30 90) (ledger_at 40 100) (run_at 100) refl
      refl (omega arith) (omega arith) left_at_40
