-- ===== src/Budget/Ledger/Scope.antt =====
-- `BudgetScope`: admission checks, stops and metrics. A scope holds the id of its run.
use jingwei.Base.{ℕ, min, Bool, true, Option, none, some, if◌then◌else◌, get_or_insert, leb, ◌==◌}
use jingwei.Base.Text.{Text}
use jingwei.Base.Word.{saturating_add, duration_saturating_add, duration_checked_sub}
use jingwei.Budget.Vocabulary.{StopReason, Report, Metrics, EventKind, EventCounts}
use jingwei.Budget.Ledger.{BudgetError, Inner, State}
use jingwei.Budget.Ledger.Action.{
  Outcome, ok, err, panicked, Action, pure, ok_or, lift, ◌>>=◌, ◌>>◌, gets, modify,
}
use jingwei.Budget.Ledger.Clock.{tick, check_writable, check_run, check_stop, snapshot}
use jingwei.Budget.Ledger.Runs.{update_report}

unfoldable pub turn_id : ℕ → Action (Option Text)
turn_id run_id = do
  lift (check_run run_id)
  run ← ok_or (← gets (λ s. s.run)) BudgetError.run_closed
  pure run.report.turn_id

unfoldable pub check_active : Inner → ℕ → ℕ → Action (Unit {0})
check_active inner run_id now = do modify (tick inner now); lift (check_run run_id); lift check_stop

-- `a - b` on durations, which panics below zero.
unfoldable pub sub_duration : ℕ → ℕ → Action ℕ
sub_duration a b s = (elim (duration_checked_sub a b) [ some d ↦ ok d | none ↦ panicked ], s)

unfoldable pub remaining_time : Inner → ℕ → ℕ → Action ℕ
unfolding sub_duration
remaining_time inner run_id now = do
  modify (tick inner now)
  lift (check_run run_id)
  lift check_stop
  run ← ok_or (← gets (λ s. s.run)) BudgetError.run_closed
  task_remaining ← sub_duration inner.limits.active_time (← gets (λ s. s.active_time))
  run_remaining ← sub_duration run.report.limits.active_time run.report.active_time
  pure (min task_remaining run_remaining)

-- The write of `expire` where no stop stands yet.
unfoldable pub expire_active : Inner → Action (Unit {0})
unfolding sub_duration update_report
expire_active inner = do
  task_remaining ← sub_duration inner.limits.active_time (← gets (λ s. s.active_time))
  run ← ok_or (← gets (λ s. s.run)) BudgetError.run_closed
  run_remaining ← sub_duration run.report.limits.active_time run.report.active_time
  if leb task_remaining run_remaining
      then modify (λ s. record s { stop = some StopReason.active_time })
      else update_report (λ report. record report { stop = some StopReason.active_time })

-- `if state.check_stop().is_ok() { … }`.
unfoldable pub if_running : Action (Unit {0}) → Action (Unit {0})
if_running body s = elim (check_stop s) [ ok _ ↦ body s | _ ↦ pure tt s ]

unfoldable pub expire : Inner → ℕ → ℕ → Action (Unit {0})
unfolding if_running expire_active
expire inner run_id now = do
  modify (tick inner now)
  lift (check_run run_id)
  if_running (expire_active inner)

unfoldable pub stop_with : Inner → ℕ → StopReason → ℕ → Action (Unit {0})
unfolding update_report
stop_with inner run_id reason now = do
  modify (tick inner now)
  lift (check_run run_id)
  update_report λ report. record report { stop = get_or_insert report.stop reason }

unfoldable pub begin_cleanup : Inner → ℕ → ℕ → Action (Unit {0})
begin_cleanup inner run_id now = do
  modify (tick inner now)
  lift (check_run run_id)
  run ← ok_or (← gets (λ s. s.run)) BudgetError.run_closed
  modify λ s. record s { run = some (record run { cleaning = true }) }

-- `BudgetScope::metrics`, which ignores a foreign run and a frozen ledger.
unfoldable pub update_metrics : ℕ → (Metrics → Metrics) → State → State
unfolding check_writable
update_metrics run_id update s = elim (check_writable s) [
  | ok _ ↦ elim s.run [
    | none ↦ s
    | some run ↦
        if run.id == run_id
        then record s {
          run =
              some
                (record run { report = record run.report { metrics = update run.report.metrics } });
        }
        else s
  ]
  | _ ↦ s
]

unfoldable pub record_session_wait : ℕ → ℕ → State → State
unfolding update_metrics
record_session_wait run_id elapsed = update_metrics run_id λ m. record m { session_wait = elapsed }

unfoldable pub record_model_timing : ℕ → ℕ → ℕ → State → State
unfolding update_metrics
record_model_timing run_id queue execution = update_metrics run_id λ m. record m {
  model_queue = duration_saturating_add m.model_queue queue;
  model_execution = duration_saturating_add m.model_execution execution;
}

unfoldable pub record_tool_time : ℕ → ℕ → State → State
unfolding update_metrics
record_tool_time run_id execution =
    update_metrics run_id
      λ m. record m { tool_execution = duration_saturating_add m.tool_execution execution }

unfoldable pub count_event : EventKind → EventCounts → EventCounts
count_event EventKind.model_request c = record c {
  model_requests = saturating_add c.model_requests 1;
}
count_event EventKind.model_result c = record c { model_results = saturating_add c.model_results 1 }
count_event EventKind.tool_call c = record c { tool_calls = saturating_add c.tool_calls 1 }
count_event EventKind.tool_result c = record c { tool_results = saturating_add c.tool_results 1 }

unfoldable pub record_evidence : ℕ → EventKind → Bool → State → State
unfolding update_metrics count_event
record_evidence run_id kind confirmed = update_metrics run_id λ m.
    if confirmed
    then record m { confirmed = count_event kind m.confirmed }
    else record m { unconfirmed = count_event kind m.unconfirmed }

unfoldable pub check_unsealed : State → Outcome (Unit {0})
check_unsealed s = if s.is_sealed then err BudgetError.checkpoint_sealed else ok tt

-- `TaskBudget::report`, which a sealed ledger refuses.
unfoldable pub report : Inner → ℕ → Action Report
unfolding check_unsealed
report inner now = do lift check_unsealed; modify (tick inner now); gets (snapshot inner)
