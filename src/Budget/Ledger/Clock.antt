-- ===== src/Budget/Ledger/Clock.antt =====
-- `Inner::tick`, the `check_*` methods of `State`, `allocate_id`, `snapshot` and the wake-up test
-- of `StateGuard`.
use jingwei.Base.{
  ℕ, ◌+◌, ◌-◌, min, Bool, true, false, ◌&&◌, ◌||◌, not, Option, none, some, ltb, leb, ◌==◌,
  if◌then◌else◌, is_some, get_or_insert, or_option, is_empty,
}
use jingwei.Base.Word.{checked_add, duration_checked_add}
use jingwei.Budget.Amounts.{Limits}
use jingwei.Budget.Vocabulary.{StopReason, RunReport, Report}
use jingwei.Budget.Ledger.{BudgetError, Inner, RunState, State}
use jingwei.Budget.Ledger.Action.{Outcome, ok, err, Action}
use mathlib.Core.Option

-- The last part of `tick`: both totals take the cleanup time, or neither does.
unfoldable pub add_cleanup : ℕ → RunState → RunReport → State → State
add_cleanup cleanup run report s = elim (duration_checked_add s.cleanup_time cleanup) [
  | none ↦ overflowed
  | some task_time ↦ elim (duration_checked_add report.cleanup_time cleanup) [
    | none ↦ overflowed
    | some run_time ↦ record s {
      cleanup_time = task_time;
      run = some (record run { report = record report { cleanup_time = run_time } });
    }
  ]
]
  where
    overflowed : State
    overflowed = record s {
      stop = get_or_insert s.stop StopReason.accounting_overflow;
      run = some (record run { report = report });
    }

abbrev pub task_remaining : Limits → State → ℕ
task_remaining limits s = limits.active_time - s.active_time

abbrev pub run_remaining : RunState → ℕ
run_remaining run = run.report.limits.active_time - run.report.active_time

-- Neither stopped nor cleaning up.
unfoldable pub is_working : RunState → State → Bool
is_working run s = not (is_some s.stop || is_some run.report.stop) && not run.cleaning

-- The part of the elapsed time that counts as active.
unfoldable pub active_share : Limits → ℕ → RunState → State → ℕ
unfolding is_working
active_share limits elapsed run s =
    if is_working run s then min elapsed (min (task_remaining limits s) (run_remaining run)) else 0

-- The active time that was left is used up.
unfoldable pub expires : Limits → ℕ → RunState → State → Bool
unfolding is_working
expires limits elapsed run s =
    is_working run s && leb (min (task_remaining limits s) (run_remaining run)) elapsed

unfoldable pub task_first : Limits → RunState → State → Bool
task_first limits run s = leb (task_remaining limits s) (run_remaining run)

unfoldable pub timed_report : Limits → ℕ → RunState → State → RunReport
unfolding active_share expires task_first
timed_report limits elapsed run s = record report {
  active_time = report.active_time + active_share limits elapsed run s;
  stop =
      if expires limits elapsed run s && not (task_first limits run s)
      then some StopReason.active_time
      else report.stop;
}
  where
    open run use {report}

unfoldable pub timed_state : Limits → ℕ → RunState → State → State
unfolding active_share expires task_first
timed_state limits elapsed run s = record s {
  active_time = s.active_time + active_share limits elapsed run s;
  stop =
      if expires limits elapsed run s && task_first limits run s
      then some StopReason.active_time
      else s.stop;
}

-- The part of `tick` after a run has been found that is open or has pending reservations.
unfoldable pub tick_run : Limits → ℕ → RunState → State → State
unfolding add_cleanup timed_report timed_state
tick_run limits elapsed run s =
    add_cleanup (elapsed - active_share limits elapsed run s) run
      (timed_report limits elapsed run s) (timed_state limits elapsed run s)

-- `run.report.open || has_pending`.
unfoldable pub is_timed : RunState → State → Bool
is_timed run s = run.report.is_open || not (is_empty s.pending)

unfoldable pub tick_elapsed : Limits → ℕ → State → State
unfolding is_timed tick_run
tick_elapsed limits elapsed s = elim s.run [
  | none ↦ s
  | some run ↦ if is_timed run s then tick_run limits elapsed run s else s
]

unfoldable pub tick : Inner → ℕ → State → State
unfolding tick_elapsed
tick inner now s =
    if s.is_sealed || s.recovery_frozen
    then s
    else if ltb now s.last_clock
    then record s { stop = get_or_insert s.stop StopReason.clock_moved_backwards }
    else tick_elapsed inner.limits (now - s.last_clock) (record s { last_clock = now })

unfoldable pub check_writable : State → Outcome (Unit {0})
check_writable s =
    if s.is_sealed
    then err BudgetError.checkpoint_sealed
    else if s.recovery_frozen
    then err (BudgetError.stopped StopReason.recovery_required)
    else ok tt

-- `run.as_ref().is_some_and(|run| run.id == id && run.report.open)`.
unfoldable pub holds_run : ℕ → Option RunState → Bool
holds_run id none = false
holds_run id (some run) = run.id == id && run.report.is_open

unfoldable pub check_run : ℕ → State → Outcome (Unit {0})
unfolding check_writable holds_run
check_run id s = elim (check_writable s) [
  | ok _ ↦ if holds_run id s.run then ok tt else err BudgetError.run_closed
  | e ↦ e
]

-- The run's stop counts where the task has none.
unfoldable pub effective_stop : State → Option StopReason
effective_stop s = or_option s.stop (elim s.run [ none ↦ none | some run ↦ run.report.stop ])

unfoldable pub check_stop : State → Outcome (Unit {0})
unfolding check_writable effective_stop
check_stop s = elim (check_writable s) [
  | ok _ ↦ elim (effective_stop s) [ some reason ↦ err (BudgetError.stopped reason) | none ↦ ok tt ]
  | e ↦ e
]

unfoldable pub allocate_id : Action ℕ
allocate_id s = elim (checked_add s.next_id 1) [
  | some id ↦ (ok id, record s { next_id = id })
  | none ↦ (
    err (BudgetError.stopped StopReason.accounting_overflow),
    record s { stop = get_or_insert s.stop StopReason.accounting_overflow },
  )
]

unfoldable pub snapshot : Inner → State → Report
snapshot inner s = record {
  identity = inner.identity;
  limits = inner.limits;
  token_mode = inner.token_mode;
  charged = s.charged;
  reserved = s.reserved;
  active_time = s.active_time;
  cleanup_time = s.cleanup_time;
  stop = s.stop;
  usage = s.usage;
  run = Option.map (λ run. run.report) s.run;
  pending = s.pending;
}

-- What `StateGuard::drop` tests before it wakes the waiters.
unfoldable pub notifies : State → Bool
notifies s =
    s.is_sealed
    || s.recovery_frozen
    || is_some s.stop
    || elim s.run [ none ↦ true | some run ↦ is_some run.report.stop || not run.report.is_open ]
