-- ===== src/Budget/Invariant/Scope.antt =====
-- The methods of `BudgetScope` other than `reserve` keep the invariant and do not panic.
use jingwei.Base.{
  ℕ, ◌+◌, ◌≤◌, ◌≡◌, refl, none, some, arith, inl, inr, Option-cases, get_or_insert, true,
}
use jingwei.Budget.Vocabulary.{StopReason, Metrics}
use jingwei.Budget.Ledger.{Inner, RunState, State}
use jingwei.Budget.Ledger.Action.{ok}
use jingwei.Budget.Ledger.Clock.{tick, check_stop}
use jingwei.Budget.Ledger.Scope.{
  check_active, remaining_time, expire_active, expire, stop_with, begin_cleanup, update_metrics,
  report,
}
use jingwei.Budget.Invariant.{RunInv, Inv}
use jingwei.Budget.Invariant.Ensures.{Ensures}
use jingwei.Budget.Invariant.Clock.{tick-Inv}
use jingwei.Budget.Invariant.Stops.{Inv-stop}
use jingwei.Budget.Invariant.Reports.{Inv-report, marked, check_run-total, check_stop-total}

-- A ledger that may go on has no stop, in the task or in its run.
pub check_stop-ok :
    (s : State) (run : RunState)
    → s.run ≡ some run
    → check_stop s ≡ ok tt
    → (s.stop ≡ none) × (run.report.stop ≡ none)
unfolding check_stop
check_stop-ok s run e c = ground arith

check_stop-task : (s : State) → check_stop s ≡ ok tt → s.stop ≡ none
unfolding check_stop
check_stop-task s c = ground arith

-- So time is left, or none is, but never less than none.
pub time_left :
    (inner : Inner) (s : State) (run : RunState)
    → Inv inner s
    → s.run ≡ some run
    → check_stop s ≡ ok tt
    → (s.active_time ≤ inner.limits.active_time)
      × (run.report.active_time ≤ run.report.limits.active_time)
time_left inner s run h e c =
    let none_stopped = check_stop-ok s run e c in
    (h.task.within_time none_stopped.0, part.run_time none_stopped.0 none_stopped.1)
  where
    part :
        RunInv inner.limits s.charged s.reserved s.active_time s.cleanup_time s.stop s.pending
          s.next_id run
    part = rw e at h.run_part

pub check_active-Inv :
    (inner : Inner) (run_id now : ℕ) (s : State)
    → Inv inner s
    → Ensures (Inv inner) (λ _. Inv inner) (check_active inner run_id now s)
unfolding check_active
check_active-Inv inner run_id now s h =
    let t = tick inner now s in
    let ht = tick-Inv inner now s h in ground (arith, check_run-total run_id t, check_stop-total t)

-- On a ledger in order `remaining_time` does not panic and leaves it in order; the time that it
-- returns, on top of the active time, is within the task's limit.
pub remaining_time-Inv :
    (inner : Inner) (run_id now : ℕ) (s : State)
    → Inv inner s
    → Ensures
        (Inv inner)
        (λ d t. Inv inner t × (t.active_time + d ≤ inner.limits.active_time))
        (remaining_time inner run_id now s)
unfolding remaining_time
remaining_time-Inv inner run_id now s h =
    let t = tick inner now s in
    let ht = tick-Inv inner now s h in
    elim (Option-cases t.run) [
      | inl e ↦ ground (arith, check_run-total run_id t, check_stop-total t)
      | inr (run, e) ↦
          ground (arith, check_run-total run_id t, check_stop-total t, time_left inner t run ht e)
    ]

pub Inv-run_stop :
    (inner : Inner) (s : State) (run : RunState) (reason : StopReason)
    → Inv inner s
    → s.run ≡ some run
    → Inv inner (record s { run = some (marked run (record run.report { stop = some reason })) })
Inv-run_stop inner s run reason h e =
    Inv-report inner s run (marked run (record run.report { stop = some reason })) h e
      (ground arith) refl

expire_active-Inv :
    (inner : Inner) (s : State)
    → Inv inner s
    → check_stop s ≡ ok tt
    → Ensures (Inv inner) (λ _. Inv inner) (expire_active inner s)
unfolding expire_active
expire_active-Inv inner s h c = elim (Option-cases s.run) [
  | inl e ↦ ground (arith, h, h.task.within_time (check_stop-task s c))
  | inr (run, e) ↦ ground (
    arith,
    time_left inner s run h e c,
    Inv-stop inner s (some StopReason.active_time) (λ x. cc) h,
    Inv-run_stop inner s run StopReason.active_time h e,
  )
]

pub expire-Inv :
    (inner : Inner) (run_id now : ℕ) (s : State)
    → Inv inner s
    → Ensures (Inv inner) (λ _. Inv inner) (expire inner run_id now s)
unfolding expire
expire-Inv inner run_id now s h =
    let t = tick inner now s in
    let ht = tick-Inv inner now s h in
    let active = expire_active-Inv inner t ht in
    ground (arith, check_run-total run_id t, check_stop-total t, active)

pub stop_with-Inv :
    (inner : Inner) (run_id : ℕ) (reason : StopReason) (now : ℕ) (s : State)
    → Inv inner s
    → Ensures (Inv inner) (λ _. Inv inner) (stop_with inner run_id reason now s)
unfolding stop_with
stop_with-Inv inner run_id reason now s h =
    let t = tick inner now s in
    let ht = tick-Inv inner now s h in
    elim (Option-cases t.run) [
      | inl e ↦ ground (arith, check_run-total run_id t)
      | inr (run, e) ↦ ground (
        arith,
        check_run-total run_id t,
        Inv-report inner t run
            (marked run (record run.report { stop = get_or_insert run.report.stop reason })) ht e,
      )
    ]

pub begin_cleanup-Inv :
    (inner : Inner) (run_id now : ℕ) (s : State)
    → Inv inner s
    → Ensures (Inv inner) (λ _. Inv inner) (begin_cleanup inner run_id now s)
unfolding begin_cleanup
begin_cleanup-Inv inner run_id now s h =
    let t = tick inner now s in
    let ht = tick-Inv inner now s h in
    elim (Option-cases t.run) [
      | inl e ↦ ground (arith, check_run-total run_id t)
      | inr (run, e) ↦ ground (
        arith,
        check_run-total run_id t,
        Inv-report inner t run (record run { cleaning = true }) ht e,
      )
    ]

pub update_metrics-Inv :
    (inner : Inner) (run_id : ℕ) (update : Metrics → Metrics) (s : State)
    → Inv inner s
    → Inv inner (update_metrics run_id update s)
unfolding update_metrics
update_metrics-Inv inner run_id update s h = elim (Option-cases s.run) [
  | inl e ↦ ground (arith, h)
  | inr (run, e) ↦ ground (
    arith,
    h,
    Inv-report inner s run (marked run (record run.report { metrics = update run.report.metrics }))
        h e,
  )
]

pub report-Inv :
    (inner : Inner) (now : ℕ) (s : State)
    → Inv inner s
    → Ensures (Inv inner) (λ _. Inv inner) (report inner now s)
unfolding report
report-Inv inner now s h = let ht = tick-Inv inner now s h in ground (arith)
