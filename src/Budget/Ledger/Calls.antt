-- ===== src/Budget/Ledger/Calls.antt =====
-- The calls that hosts, runtimes and handles make on one ledger, each atomic under its mutex. Any
-- interleaving of threads is a sequence of them.
use jingwei.Base.{ℕ, Bool, Option, List, [], ◌∷◌}
use jingwei.Base.Text.{Text}
use jingwei.Budget.Amounts.{Limits}
use jingwei.Budget.Vocabulary.{StopReason, EventKind, Request, Usage}
use jingwei.Budget.Ledger.{Inner, State, RunHandle, Reservation}
use jingwei.Budget.Ledger.Action.{Outcome, ok, err, panicked}
use jingwei.Budget.Ledger.Runs.{begin_run, bind_turn, prepare_report, finish, drop_run}
use jingwei.Budget.Ledger.Scope.{
  turn_id, check_active, remaining_time, expire, stop_with, begin_cleanup, record_session_wait,
  record_model_timing, record_tool_time, record_evidence, report,
}
use jingwei.Budget.Ledger.Reserve.{reserve}
use jingwei.Budget.Ledger.Reservations.{mark_started, drop_reservation, cancel_before_start, settle}

-- The numbers are the id of a scope's run, durations and clock times, in the method's order.
pub data Call : Type 0 where
  begins : Option Text → Limits → ℕ → ℕ → Call
  binds : RunHandle → Text → ℕ → Call
  prepares finishes drops_run : RunHandle → ℕ → Call
  reads_turn : ℕ → Call
  checks reads_time expires cleans : ℕ → ℕ → Call
  stops : ℕ → StopReason → ℕ → Call
  waits tools : ℕ → ℕ → Call
  models : ℕ → ℕ → ℕ → Call
  counts : ℕ → EventKind → Bool → Call
  reports : ℕ → Call
  reserves : ℕ → Request → ℕ → Call
  starts drops : Reservation → ℕ → Call
  cancels : Reservation → ℕ → ℕ → Call
  settles : Reservation → Usage → ℕ → ℕ → Call

-- The value of a call matters to its caller alone.
abbrev pub forget {ℓ} : {A : Type ℓ} → Outcome A × State → Outcome (Unit {0}) × State
forget (ok a, s) = (ok tt, s)
forget (err e, s) = (err e, s)
forget (panicked, s) = (panicked, s)

unfoldable pub perform : Inner → Call → State → Outcome (Unit {0}) × State
perform inner (Call.begins turn limits now later) s =
    forget (begin_run inner turn limits now later s)
perform inner (Call.binds handle turn now) s = bind_turn inner handle turn now s
perform inner (Call.prepares handle now) s = forget (prepare_report inner handle now s)
perform inner (Call.finishes handle now) s = forget (finish inner handle now s)
perform inner (Call.drops_run handle now) s = (ok tt, drop_run inner handle now s)
perform inner (Call.reads_turn run_id) s = forget (turn_id run_id s)
perform inner (Call.checks run_id now) s = check_active inner run_id now s
perform inner (Call.reads_time run_id now) s = forget (remaining_time inner run_id now s)
perform inner (Call.expires run_id now) s = expire inner run_id now s
perform inner (Call.cleans run_id now) s = begin_cleanup inner run_id now s
perform inner (Call.stops run_id reason now) s = stop_with inner run_id reason now s
perform inner (Call.waits run_id elapsed) s = (ok tt, record_session_wait run_id elapsed s)
perform inner (Call.tools run_id time) s = (ok tt, record_tool_time run_id time s)
perform inner (Call.models run_id queue time) s = (ok tt, record_model_timing run_id queue time s)
perform inner (Call.counts run_id kind sure) s = (ok tt, record_evidence run_id kind sure s)
perform inner (Call.reports now) s = forget (report inner now s)
perform inner (Call.reserves run_id request now) s = forget (reserve inner run_id request now s)
perform inner (Call.starts held now) s = mark_started inner held now s
perform inner (Call.drops held now) s = (ok tt, drop_reservation inner held now s)
perform inner (Call.cancels held now later) s = cancel_before_start inner held now later s
perform inner (Call.settles held usage now later) s = settle inner held usage now later s

-- The ledger after a sequence of calls.
unfoldable pub perform_all : Inner → List Call → State → State
perform_all inner [] s = s
perform_all inner (c ∷ cs) s = perform_all inner cs (perform inner c s).1
