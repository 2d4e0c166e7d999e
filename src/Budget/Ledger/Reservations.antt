-- ===== src/Budget/Ledger/Reservations.antt =====
-- `BudgetReservation`: starting, cancelling and settling. `cancel_before_start` and `settle` take
-- the reservation by value, so its `Drop` runs at their end, after the lock is released.
use jingwei.Base.{
  ℕ, true, not, Option, none, some, List, [], ◌∷◌, if◌then◌else◌, get_or_insert, is_some,
}
use jingwei.Base.Word.{wrapping_sub}
use jingwei.Budget.Amounts.{Resource, all_resources, is_attempt, Amounts, get, set}
use jingwei.Budget.Vocabulary.{StopReason, Usage, UsageReport, Request}
use jingwei.Budget.Ledger.{BudgetError, Inner, State, Reservation}
use jingwei.Budget.Ledger.Action.{
  Outcome, ok, err, panicked, Action, pure, ok_or, lift, ◌>>=◌, ◌>>◌, gets, modify, fail_if,
  then_outcome,
}
use jingwei.Budget.Ledger.Clock.{tick, check_writable, check_run, check_stop}
use jingwei.Budget.Ledger.Runs.{update_report}
use jingwei.Budget.Ledger.Requests.{find_pending, update_pending, remove_pending}
use jingwei.Budget.Ledger.Settlement.{Draft, settlement}

unfoldable pub mark_started : Inner → Reservation → ℕ → Action (Unit {0})
mark_started inner held now = do
  modify (tick inner now)
  lift (check_run held.run_id)
  lift check_stop
  pending ← ok_or (← gets (λ s. find_pending held.id s.pending)) BudgetError.reservation_missing
  fail_if pending.started BudgetError.already_started
  modify λ s. record s {
    pending = update_pending held.id (λ p. record p { started = true }) s.pending;
  }

-- `target.set(resource, target.get(resource) - amounts.get(resource))`, but for attempts.
unfoldable pub release_one : Amounts → Resource → Amounts → Amounts
release_one amounts r target =
    if is_attempt r then target else set target r (wrapping_sub (get target r) (get amounts r))

-- The loop of `release`.
unfoldable pub release_each : Amounts → List Resource → Action (Unit {0})
unfolding release_one update_report
release_each amounts [] = pure tt
release_each amounts (r ∷ rs) = do
  modify λ s. record s { reserved = release_one amounts r s.reserved }
  update_report λ report. record report { reserved = release_one amounts r report.reserved }
  release_each amounts rs

unfoldable pub release : Amounts → Action (Unit {0})
unfolding release_each
release amounts = do
  _ ← ok_or (← gets (λ s. s.run)) BudgetError.run_closed
  release_each amounts all_resources

-- The write of `Drop for BudgetReservation`, after the tick.
unfoldable pub abandon_reservation : ℕ → State → State
abandon_reservation id s =
    if is_some (find_pending id s.pending)
    then record s {
      pending = update_pending id (λ p. record p { abandoned = true }) s.pending;
      stop = get_or_insert s.stop StopReason.abandoned_reservation;
    }
    else s

-- `Drop for BudgetReservation`, at clock time `now`.
unfoldable pub drop_reservation : Inner → Reservation → ℕ → State → State
unfolding check_writable abandon_reservation
drop_reservation inner held now s =
    if held.resolved
    then s
    else elim (check_writable s) [ ok _ ↦ abandon_reservation held.id (tick inner now s) | _ ↦ s ]

-- A body that fails has left the reservation unresolved, so its `Drop` acts at time `later`.
unfoldable pub or_drop {ℓ} :
    {A : Type ℓ} → Inner → Reservation → ℕ → Outcome A × State → Outcome A × State
or_drop inner held later (ok a, s) = (ok a, s)
or_drop inner held later (err e, s) = (err e, drop_reservation inner held later s)
or_drop inner held later (panicked, s) = (panicked, drop_reservation inner held later s)

-- The body of `cancel_before_start`.
unfoldable pub cancel_locked : Inner → Reservation → ℕ → Action (Unit {0})
cancel_locked inner held now = do
  lift check_writable
  modify (tick inner now)
  pending ← ok_or (← gets (λ s. find_pending held.id s.pending)) BudgetError.reservation_missing
  fail_if pending.started BudgetError.already_started
  release pending.request.amounts
  modify λ s. record s { pending = remove_pending held.id s.pending }

unfoldable pub cancel_before_start : Inner → Reservation → ℕ → ℕ → Action (Unit {0})
cancel_before_start inner held now later s =
    or_drop inner held later (cancel_locked inner held now s)

-- `settlement(&state, request, usage)`.
unfoldable pub settlement_of : State → Request → Usage → Outcome (UsageReport × Draft)
settlement_of s request usage = elim s.run [
  | none ↦ err BudgetError.run_closed
  | some run ↦ settlement s.charged run.report.charged s.usage request usage
]

-- The writes after a settlement that went through; the result is the breach.
unfoldable pub book : Reservation → Request → UsageReport → Draft → Action (Option Resource)
unfolding update_report
book held request evidence draft = do
  release request.amounts
  modify λ s. record s { charged = draft.charged }
  update_report λ report. record report { charged = draft.run_charged }
  modify λ s. record s { usage = evidence; pending = remove_pending held.id s.pending }
  pure draft.breach

-- The writes after a settlement that failed: the raw evidence is kept.
unfoldable pub keep_evidence : Reservation → Usage → State → State
keep_evidence held usage s = record s {
  stop = get_or_insert s.stop StopReason.accounting_overflow;
  pending = update_pending held.id (λ p. record p { failed_usage = some usage }) s.pending;
}

unfoldable pub settle_or_keep :
    Reservation → Request → Usage → Outcome (UsageReport × Draft) → Action (Option Resource)
unfolding keep_evidence
settle_or_keep held request usage (ok (evidence, draft)) s = book held request evidence draft s
settle_or_keep held request usage (err e) s = (err e, keep_evidence held usage s)
settle_or_keep held request usage panicked s = (panicked, s)

-- The body of `settle` up to the point where the reservation is resolved or has failed.
unfoldable pub settle_locked : Inner → Reservation → Usage → ℕ → Action (Option Resource)
settle_locked inner held usage now = do
  lift check_writable
  modify (tick inner now)
  pending ← ok_or (← gets (λ s. find_pending held.id s.pending)) BudgetError.reservation_missing
  fail_if (not pending.started) BudgetError.not_started
  settled ← gets (λ s. settlement_of s pending.request usage)
  settle_or_keep held pending.request usage settled

-- `if let Some(resource) = breach { … }`: usage above the reservation stops the task.
unfoldable pub report_breach : Option Resource → Action (Unit {0})
report_breach none s = (ok tt, s)
report_breach (some r) s = (
  err (BudgetError.stopped (StopReason.usage_exceeded_reservation r)),
  record s { stop = get_or_insert s.stop (StopReason.usage_exceeded_reservation r) },
)

unfoldable pub settle : Inner → Reservation → Usage → ℕ → ℕ → Action (Unit {0})
settle inner held usage now later s =
    then_outcome (or_drop inner held later (settle_locked inner held usage now s)) report_breach
