-- ===== src/Budget/Guarantees/Stops.antt =====
-- A stop of the task is final (crates/core/budget/src/lib.rs): the first reason stays, whatever is
-- called.
pub mod Clock
pub mod Runs
pub mod Scope
pub mod Reservations
use jingwei.Base.{ℕ, ◌≡◌, ◌≢◌, Option, some, List, [], ◌∷◌, arith}
use jingwei.Base.Text.{Text}
use jingwei.Budget.Amounts.{Limits}
use jingwei.Budget.Vocabulary.{StopReason, Request}
use jingwei.Budget.Ledger.{Inner, State, RunHandle, Reservation}
use jingwei.Budget.Ledger.Action.{Outcome, ok, err, panicked}
use jingwei.Budget.Ledger.Clock.{tick, expires}
use jingwei.Budget.Ledger.Runs.{begin_run}
use jingwei.Budget.Ledger.Scope.{
  record_session_wait, record_model_timing, record_tool_time, record_evidence,
}
use jingwei.Budget.Ledger.Reserve.{reserve}
use jingwei.Budget.Ledger.Reservations.{mark_started, cancel_before_start, settle}
use jingwei.Budget.Ledger.Calls.{Call, forget, perform, perform_all}
use jingwei.Budget.Guarantees.Stops.Clock.{HasStop, check_stop-fails, tick-stop}
use jingwei.Budget.Guarantees.Stops.Reservations.{
  breach-stop, cancel_locked-stop, drop_reservation-stop, mark_started-stop, or_drop-stop,
  settle_locked-stop,
}
use jingwei.Budget.Guarantees.Stops.Runs.{
  begin_run-stop, bind_turn-stop, drop_run-stop, finish-stop, prepare_report-stop,
}
use jingwei.Budget.Guarantees.Stops.Scope.{
  begin_cleanup-stop, check_active-stop, expire-stop, remaining_time-stop, report-stop,
  reserve-stop, stop_with-stop, turn_id-stop, update_metrics-stop,
}

module _ (reason : StopReason) where
  forget-stop {ℓ} :
      {A : Type ℓ} (r : Outcome A × State) → HasStop reason r.1 → HasStop reason (forget r).1
  forget-stop (ok a, s) h = h
  forget-stop (err e, s) h = h
  forget-stop (panicked, s) h = h

  perform-stop :
      (inner : Inner) (c : Call) (s : State)
      → HasStop reason s
      → HasStop reason (perform inner c s).1
  unfolding perform record_session_wait record_model_timing record_tool_time record_evidence
      cancel_before_start settle
  perform-stop inner (Call.begins turn limits now later) s h =
      forget-stop _ (begin_run-stop reason inner turn limits now later s h)
  perform-stop inner (Call.binds handle turn now) s h =
      bind_turn-stop reason inner handle turn now s h
  perform-stop inner (Call.prepares handle now) s h =
      forget-stop _ (prepare_report-stop reason inner handle now s h)
  perform-stop inner (Call.finishes handle now) s h =
      forget-stop _ (finish-stop reason inner handle now s h)
  perform-stop inner (Call.drops_run handle now) s h = drop_run-stop reason inner handle now s h
  perform-stop inner (Call.reads_turn run_id) s h = forget-stop _ (turn_id-stop reason run_id s h)
  perform-stop inner (Call.checks run_id now) s h = check_active-stop reason inner run_id now s h
  perform-stop inner (Call.reads_time run_id now) s h =
      forget-stop _ (remaining_time-stop reason inner run_id now s h)
  perform-stop inner (Call.expires run_id now) s h = expire-stop reason inner run_id now s h
  perform-stop inner (Call.cleans run_id now) s h = begin_cleanup-stop reason inner run_id now s h
  perform-stop inner (Call.stops run_id r now) s h = stop_with-stop reason inner run_id r now s h
  perform-stop inner (Call.waits run_id elapsed) s h = update_metrics-stop reason run_id _ s h
  perform-stop inner (Call.tools run_id time) s h = update_metrics-stop reason run_id _ s h
  perform-stop inner (Call.models run_id queue time) s h = update_metrics-stop reason run_id _ s h
  perform-stop inner (Call.counts run_id kind sure) s h = update_metrics-stop reason run_id _ s h
  perform-stop inner (Call.reports now) s h = forget-stop _ (report-stop reason inner now s h)
  perform-stop inner (Call.reserves run_id request now) s h =
      forget-stop _ (reserve-stop reason inner run_id request now s h)
  perform-stop inner (Call.starts held now) s h = mark_started-stop reason inner held now s h
  perform-stop inner (Call.drops held now) s h = drop_reservation-stop reason inner held now s h
  perform-stop inner (Call.cancels held now later) s h =
      or_drop-stop reason inner held later _ (cancel_locked-stop reason inner held now s h)
  perform-stop inner (Call.settles held usage now later) s h =
      breach-stop reason _ (
        or_drop-stop reason inner held later _ (settle_locked-stop reason inner held usage now s h))

  -- Whatever calls follow, a task that has stopped stays stopped for the same reason.
  pub history_keeps_stop :
      (inner : Inner) (cs : List Call) (s : State)
      → s.stop ≡ some reason
      → (perform_all inner cs s).stop ≡ some reason
  unfolding perform_all
  history_keeps_stop inner [] s h = h
  history_keeps_stop inner (c ∷ cs) s h =
      history_keeps_stop inner cs (perform inner c s).1 (perform-stop inner c s h)

  -- A stopped task admits nothing: no run begins, no reservation is made and no request starts.
  pub stopped_admits_nothing :
      (inner : Inner) (s : State) (now later : ℕ)
      → s.stop ≡ some reason
      → ((turn : Option Text) (limits : Limits) (handle : RunHandle)
          → (begin_run inner turn limits now later s).0 ≢ ok handle)
        × ((run_id : ℕ) (request : Request) (held : Reservation)
            → (reserve inner run_id request now s).0 ≢ ok held)
        × ((held : Reservation) → (mark_started inner held now s).0 ≢ ok tt)
  unfolding begin_run reserve mark_started
  stopped_admits_nothing inner s now later h =
      let t = tick inner now s in
      let ht = tick-stop reason inner now s h in
      (
        λ turn limits handle e. ground (arith, check_stop-fails reason t ht),
        λ run_id request held e. ground (arith, check_stop-fails reason t ht),
        λ held e. ground (arith, check_stop-fails reason t ht),
      )
