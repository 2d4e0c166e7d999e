-- ===== src/Budget/Guarantees/Tests/Stops.antt =====
-- The ledger with a run that is open, and the one that a dropped lease has stopped.
use jingwei.Base.{ℕ, ◌+◌, ◌≡◌, ◌≢◌, refl, ◌<◌, Option, none, some, false, List, [], ◌∷◌, arith}
use jingwei.Base.Text.{Text}
use jingwei.Budget.Amounts.{Resource, get, set, tighten_each, tightened_by, Limits}
use jingwei.Budget.Vocabulary.{StopReason, Request}
use jingwei.Budget.Ledger.{State, new_state, RunState, RunHandle, Reservation}
use jingwei.Budget.Ledger.Action.{ok}
use jingwei.Budget.Ledger.Clock.{
  active_share, add_cleanup, allocate_id, check_run, check_stop, check_writable, effective_stop,
  expires, holds_run, is_timed, is_working, task_first, tick, tick_elapsed, tick_run, timed_report,
  timed_state,
}
use jingwei.Budget.Ledger.Requests.{check_evidence, has_attempt, validate_request}
use jingwei.Budget.Ledger.Runs.{abandon_run, begin_run, drop_run, new_run_report}
use jingwei.Budget.Ledger.Reserve.{reserve}
use jingwei.Budget.Ledger.Reservations.{mark_started}
use jingwei.Budget.Ledger.Calls.{Call, perform, perform_all}
use jingwei.Budget.Invariant.Calls.{history-Inv}
use jingwei.Budget.Invariant.Reserve.{Fits}
use jingwei.Budget.Guarantees.Completeness.{reserve_complete}
use jingwei.Budget.Guarantees.Stops.{history_keeps_stop, stopped_admits_nothing}
use jingwei.Budget.Guarantees.Tests.{sample, sample-IsWordLimits, ask}

abbrev beginning : List Call
beginning = Call.begins none sample.limits 5 6 ∷ []

abbrev opened : State
opened = perform_all sample beginning (new_state 0)

-- The run at the time of the reservation, 5 time units after the first tick.
abbrev open_run : RunState
open_run = record {
  id = 1;
  report = record (new_run_report none sample.limits) { active_time = 5 };
  cleaning = false;
}

abbrev later_opened : State
later_opened = tick sample 10 opened

opened_run : later_opened.run ≡ some open_run
unfolding perform_all perform begin_run drop_run abandon_run active_share add_cleanup allocate_id
    check_run check_stop check_writable effective_stop expires holds_run is_timed is_working
    task_first tick tick_elapsed tick_run timed_report timed_state get set tighten_each tightened_by
opened_run = refl

opened_active : check_run 1 later_opened ≡ ok tt
unfolding perform_all perform begin_run drop_run abandon_run active_share add_cleanup allocate_id
    check_run check_stop check_writable effective_stop expires holds_run is_timed is_working
    task_first tick tick_elapsed tick_run timed_report timed_state get set tighten_each tightened_by
opened_active = refl

opened_running : check_stop later_opened ≡ ok tt
unfolding perform_all perform begin_run drop_run abandon_run active_share add_cleanup allocate_id
    check_run check_stop check_writable effective_stop expires holds_run is_timed is_working
    task_first tick tick_elapsed tick_run timed_report timed_state get set tighten_each tightened_by
opened_running = refl

ask_valid : validate_request ask sample.token_mode ≡ ok tt
unfolding validate_request check_evidence has_attempt get
ask_valid = refl

opened-Fits : (r : Resource) → Fits sample later_opened open_run ask.amounts r
unfolding perform_all perform begin_run drop_run abandon_run active_share add_cleanup allocate_id
    check_run check_stop check_writable effective_stop expires holds_run is_timed is_working
    task_first tick tick_elapsed tick_run timed_report timed_state get set tighten_each tightened_by
opened-Fits Resource.steps = record { fits_task = omega arith; fits_run = omega arith }
opened-Fits r = record { fits_task = omega arith; fits_run = omega arith }

opened_id : later_opened.next_id + 1 < 18446744073709551616
unfolding perform_all perform begin_run drop_run abandon_run active_share add_cleanup allocate_id
    check_run check_stop check_writable effective_stop expires holds_run is_timed is_working
    task_first tick tick_elapsed tick_run timed_report timed_state get set tighten_each tightened_by
opened_id = omega arith

reserve_complete_example :
    (reserve sample 1 ask 10 opened).0
    ≡ ok (record { run_id = 1; id = later_opened.next_id + 1; resolved = false })
reserve_complete_example =
    reserve_complete sample 1 ask 10 opened open_run
      (history-Inv sample 0 beginning sample-IsWordLimits) opened_run opened_active opened_running
      ask_valid opened-Fits opened_id

-- The host drops the lease of the open run.
abbrev abandoned : State
abandoned =
    perform_all sample
      (Call.begins none sample.limits 5 6
        ∷ Call.drops_run (record { id = 1; finished = false }) 9
        ∷ [])
      (new_state 0)

abandoned-stop : abandoned.stop ≡ some StopReason.run_abandoned
unfolding perform_all perform begin_run drop_run abandon_run active_share add_cleanup allocate_id
    check_run check_stop check_writable effective_stop expires holds_run is_timed is_working
    task_first tick tick_elapsed tick_run timed_report timed_state get set tighten_each tightened_by
abandoned-stop = refl

history_keeps_stop_example :
    (perform_all sample
      (Call.reserves 1 ask 12 ∷ Call.begins none sample.limits 13 14 ∷ [])
      abandoned).stop
    ≡ some StopReason.run_abandoned
history_keeps_stop_example =
    history_keeps_stop StopReason.run_abandoned sample
      (Call.reserves 1 ask 12 ∷ Call.begins none sample.limits 13 14 ∷ []) abandoned abandoned-stop

stopped_admits_nothing_example :
    ((turn : Option Text) (limits : Limits) (handle : RunHandle)
      → (begin_run sample turn limits 12 13 abandoned).0 ≢ ok handle)
    × ((run_id : ℕ) (request : Request) (held : Reservation)
        → (reserve sample run_id request 12 abandoned).0 ≢ ok held)
    × ((held : Reservation) → (mark_started sample held 12 abandoned).0 ≢ ok tt)
stopped_admits_nothing_example =
    stopped_admits_nothing StopReason.run_abandoned sample abandoned 12 13 abandoned-stop
