-- ===== src/Budget/Invariant/Calls.antt =====
-- Every call keeps the invariant and none panics, so it holds after every history.
use jingwei.Base.{ℕ, ◌≡◌, refl, ◌≢◌, List, [], ◌∷◌, arith}
use jingwei.Budget.Amounts.{Resource, get, no_amounts}
use jingwei.Budget.Ledger.{Inner, State, new_state}
use jingwei.Budget.Ledger.Action.{Outcome, ok, err, panicked}
use jingwei.Budget.Ledger.Scope.{
  turn_id, record_session_wait, record_model_timing, record_tool_time, record_evidence,
}
use jingwei.Budget.Ledger.Calls.{Call, forget, perform, perform_all}
use jingwei.Budget.Invariant.{Inv, IsWordLimits}
use jingwei.Budget.Invariant.Ensures.{Ensures, Ensures-state, Ensures-ne-panicked}
use jingwei.Budget.Invariant.Reports.{check_run-total}
use jingwei.Budget.Invariant.Runs.{
  get-no_amounts, begin_run-Inv, bind_turn-Inv, prepare_report-Inv, finish-Inv, drop_run-Inv,
}
use jingwei.Budget.Invariant.Scope.{
  check_active-Inv, remaining_time-Inv, expire-Inv, stop_with-Inv, begin_cleanup-Inv,
  update_metrics-Inv, report-Inv,
}
use jingwei.Budget.Invariant.Reservation.{reserve-Inv}
use jingwei.Budget.Invariant.Cancel.{
  mark_started-Inv, drop_reservation-Inv, cancel_before_start-Inv,
}
use jingwei.Budget.Invariant.Settle.{settle-Inv}

module _ (inner : Inner) where
  abbrev pub Kept {ℓ} : {A : Type ℓ} → Outcome A × State → Type 0
  Kept r = Ensures (Inv inner) (λ _. Inv inner) r

  forget-Kept {ℓ} :
      {A : Type ℓ} (Q : A → State → Type 0) (r : Outcome A × State)
      → Ensures (Inv inner) Q r
      → ((a : A) (t : State) → Q a t → Inv inner t)
      → Kept (forget r)
  forget-Kept Q (ok a, s) h k = k a s h
  forget-Kept Q (err e, s) h k = h
  forget-Kept Q (panicked, s) h k = h

  turn_id-Kept : (run_id : ℕ) (s : State) → Inv inner s → Kept (turn_id run_id s)
  unfolding turn_id
  turn_id-Kept run_id s h = ground (arith, h, check_run-total run_id s)

  perform-Kept : (c : Call) (s : State) → Inv inner s → Kept (perform inner c s)
  unfolding perform record_session_wait record_model_timing record_tool_time record_evidence
  perform-Kept (Call.begins turn limits now later) s h =
      forget-Kept _ _ (begin_run-Inv inner turn limits now later s h) (λ _ _ k. k)
  perform-Kept (Call.binds handle turn now) s h = bind_turn-Inv inner handle turn now s h
  perform-Kept (Call.prepares handle now) s h =
      forget-Kept _ _ (prepare_report-Inv inner handle now s h) (λ _ _ k. k)
  perform-Kept (Call.finishes handle now) s h =
      forget-Kept _ _ (finish-Inv inner handle now s h) (λ _ _ k. k)
  perform-Kept (Call.drops_run handle now) s h = drop_run-Inv inner handle now s h
  perform-Kept (Call.reads_turn run_id) s h = forget-Kept _ _ (turn_id-Kept run_id s h) (λ _ _ k. k)
  perform-Kept (Call.checks run_id now) s h = check_active-Inv inner run_id now s h
  perform-Kept (Call.reads_time run_id now) s h =
      forget-Kept _ _ (remaining_time-Inv inner run_id now s h) (λ _ _ k. k.0)
  perform-Kept (Call.expires run_id now) s h = expire-Inv inner run_id now s h
  perform-Kept (Call.cleans run_id now) s h = begin_cleanup-Inv inner run_id now s h
  perform-Kept (Call.stops run_id reason now) s h = stop_with-Inv inner run_id reason now s h
  perform-Kept (Call.waits run_id elapsed) s h = update_metrics-Inv inner run_id _ s h
  perform-Kept (Call.tools run_id time) s h = update_metrics-Inv inner run_id _ s h
  perform-Kept (Call.models run_id queue time) s h = update_metrics-Inv inner run_id _ s h
  perform-Kept (Call.counts run_id kind sure) s h = update_metrics-Inv inner run_id _ s h
  perform-Kept (Call.reports now) s h = forget-Kept _ _ (report-Inv inner now s h) (λ _ _ k. k)
  perform-Kept (Call.reserves run_id request now) s h =
      forget-Kept _ _ (reserve-Inv inner run_id request now s h) (λ _ _ k. k)
  perform-Kept (Call.starts held now) s h = mark_started-Inv inner held now s h
  perform-Kept (Call.drops held now) s h = drop_reservation-Inv inner held now s h
  perform-Kept (Call.cancels held now later) s h = cancel_before_start-Inv inner held now later s h
  perform-Kept (Call.settles held usage now later) s h = settle-Inv inner held usage now later s h

-- A call on a ledger in order, whatever its arguments and clock times, leaves it in order and
-- does not panic.
pub perform-Inv :
    (inner : Inner) (c : Call) (s : State)
    → Inv inner s
    → Inv inner (perform inner c s).1 × ((perform inner c s).0 ≢ panicked)
perform-Inv inner c s h = (
  Ensures-state (Inv inner) (perform inner c s) (perform-Kept inner c s h),
  Ensures-ne-panicked (Inv inner) (λ _. Inv inner) (perform inner c s) (perform-Kept inner c s h),
)

perform_all-Inv :
    (inner : Inner) (cs : List Call) (s : State) → Inv inner s → Inv inner (perform_all inner cs s)
unfolding perform_all
perform_all-Inv inner [] s h = h
perform_all-Inv inner (c ∷ cs) s h =
    perform_all-Inv inner cs (perform inner c s).1 (perform-Inv inner c s h).0

new_state-Inv : (inner : Inner) (now : ℕ) → IsWordLimits inner.limits → Inv inner (new_state now)
new_state-Inv inner now w = record {
  limits_word = w;
  task = record {
    charged_word = λ r. omega (arith, zero_at r);
    reserved_word = λ r. omega (arith, zero_at r);
    reserved_exact = λ r. ground (arith, zero_at r);
    attempts_charged = λ r a. omega arith;
    within_limits = λ x r. omega (arith, zero_at r);
    within_time = λ x. omega arith;
    ids_below = tt;
    next_word = omega arith;
  };
  run_part = refl;
  evidence = record {
    input_covered = omega arith;
    output_covered = omega arith;
    bytes_covered = omega arith;
  };
}
  where
    zero_at : (r : Resource) → get no_amounts r ≡ 0
    zero_at r = get-no_amounts r

-- The invariant holds of a new ledger after any sequence of calls.
pub history-Inv :
    (inner : Inner) (now : ℕ) (cs : List Call)
    → IsWordLimits inner.limits
    → Inv inner (perform_all inner cs (new_state now))
history-Inv inner now cs w = perform_all-Inv inner cs (new_state now) (new_state-Inv inner now w)
