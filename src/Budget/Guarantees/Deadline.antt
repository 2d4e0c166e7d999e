-- ===== src/Budget/Guarantees/Deadline.antt =====
-- What `BudgetScope::remaining_time` tells an executor that arms a timer, against the check that a
-- scope makes when the timer is due.
use jingwei.Base.{
  ℕ, ◌+◌, ◌-◌, ◌≤◌, ◌<◌, min, ◌≡◌, ◌≢◌, ap, ◌∙◌, sym, ◌↔◌, false, true, none, some, arith, inl, inr,
  Option-cases, Bool-cases, subst, leb,
}
use jingwei.Base.Word.{duration_max}
use jingwei.Budget.Amounts.{Limits}
use jingwei.Budget.Vocabulary.{RunReport}
use jingwei.Budget.Ledger.{Inner, State, RunState}
use jingwei.Budget.Ledger.Action.{ok}
use jingwei.Budget.Ledger.Clock.{
  tick, tick_elapsed, tick_run, add_cleanup, timed_state, timed_report, active_share, check_stop,
  check_run, task_remaining, run_remaining, is_timed, is_working, expires,
}
use jingwei.Budget.Ledger.Scope.{check_active, remaining_time}

-- The clock and the seals are what they were.
abbrev SameClock : State → State → Type 0
SameClock s t =
    (t.last_clock ≡ s.last_clock)
    × (t.is_sealed ≡ s.is_sealed)
    × (t.recovery_frozen ≡ s.recovery_frozen)

add_cleanup-SameClock :
    (cleanup : ℕ) (run : RunState) (r : RunReport) (s : State)
    → SameClock s (add_cleanup cleanup run r s)
unfolding add_cleanup
add_cleanup-SameClock cleanup run r s = ground arith

tick_elapsed-SameClock :
    (limits : Limits) (elapsed : ℕ) (s : State) → SameClock s (tick_elapsed limits elapsed s)
unfolding tick_elapsed tick_run timed_state
tick_elapsed-SameClock limits elapsed s = elim (Option-cases s.run) [
  | inl e ↦ ground arith
  | inr (run, e) ↦ ground (
    arith,
    add_cleanup-SameClock (elapsed - active_share limits elapsed run s) run
        (timed_report limits elapsed run s) (timed_state limits elapsed run s),
  )
]

-- A tick after which nothing has stopped has read the clock.
tick-last_clock :
    (inner : Inner) (now : ℕ) (s : State)
    → check_stop (tick inner now s) ≡ ok tt
    → ((tick inner now s).last_clock ≡ now)
      × ((tick inner now s).is_sealed ≡ false)
      × ((tick inner now s).recovery_frozen ≡ false)
unfolding tick check_stop
tick-last_clock inner now s e = ground (
  arith,
  tick_elapsed-SameClock inner.limits (now - s.last_clock) (record s { last_clock = now }),
)

-- The time that is reported is what is left of the task and of the run.
remaining_time-ok :
    (inner : Inner) (run_id now d : ℕ) (s t : State) (run : RunState)
    → t.run ≡ some run
    → remaining_time inner run_id now s ≡ (ok d, t)
    → (t ≡ tick inner now s)
      × (check_run run_id t ≡ ok tt)
      × (check_stop t ≡ ok tt)
      × (d ≡ min (task_remaining inner.limits t) (run_remaining run))
unfolding remaining_time
remaining_time-ok inner run_id now d s t run e h =
    let u = tick inner now s in
    let same : t ≡ u = ground arith in (same, ground arith, ground arith, ground arith)

-- The run is at work, and neither it nor its task has stopped.
abbrev GoesOn : RunState → State → Type 0
GoesOn run s =
    (s.is_sealed ≡ false)
    × (s.recovery_frozen ≡ false)
    × (s.stop ≡ none)
    × (run.report.stop ≡ none)
    × (run.report.is_open ≡ true)
    × (run.cleaning ≡ false)

-- The ledger after more active time.
worked_on : ℕ → RunState → State → State
worked_on wait run s = record s {
  active_time = s.active_time + wait;
  run =
      some
        (record run { report = record run.report { active_time = run.report.active_time + wait } });
}

module _ (limits : Limits) (wait : ℕ) (run : RunState) (s : State) (g : GoesOn run s) where
  share_lem :
      active_share limits wait run s ≡ min wait (min (task_remaining limits s) (run_remaining run))
  unfolding active_share is_working
  share_lem = ground arith

  expires_lem :
      expires limits wait run s ≡ leb (min (task_remaining limits s) (run_remaining run)) wait
  unfolding expires is_working
  expires_lem = ground arith

  -- Time is left, and all of the wait is active.
  tick_run-going :
      s.cleanup_time ≤ duration_max
      → run.report.cleanup_time ≤ duration_max
      → wait < min (task_remaining limits s) (run_remaining run)
      → tick_run limits wait run s ≡ worked_on wait run s
  unfolding tick_run add_cleanup timed_report timed_state worked_on
  tick_run-going task_word run_word left = ground (arith, share_lem, expires_lem)

  -- The time has run out.
  tick_run-stops :
      min (task_remaining limits s) (run_remaining run) ≤ wait
      → check_stop (tick_run limits wait run s) ≢ ok tt
  unfolding tick_run add_cleanup timed_report timed_state check_stop
  tick_run-stops out h = ground (arith, expires_lem)

-- Both checks of a scope say that the run goes on.
checks-GoesOn :
    (run_id : ℕ) (t : State) (run : RunState)
    → t.run ≡ some run
    → run.cleaning ≡ false
    → check_run run_id t ≡ ok tt
    → check_stop t ≡ ok tt
    → GoesOn run t × (run.id ≡ run_id)
unfolding check_run check_stop
checks-GoesOn run_id t run e working runs going = ground arith

GoesOn-checks :
    (wait : ℕ) (run : RunState) (s : State)
    → GoesOn run s
    → (check_run run.id (worked_on wait run s) ≡ ok tt)
      × (check_stop (worked_on wait run s) ≡ ok tt)
unfolding check_run check_stop worked_on
GoesOn-checks wait run s g = (ground arith, ground arith)

tick_lem :
    (inner : Inner) (wait : ℕ) (t : State) (run : RunState)
    → t.run ≡ some run
    → GoesOn run t
    → tick inner (t.last_clock + wait) t
      ≡ tick_run inner.limits wait run (record t { last_clock = t.last_clock + wait })
unfolding tick tick_elapsed is_timed
tick_lem inner wait t run e g =
    let waited : (t.last_clock + wait) - t.last_clock ≡ wait = omega arith in ground (arith, waited)

-- An active check goes through exactly if both checks do after the tick.
check_active-ok :
    (inner : Inner) (run_id now : ℕ) (t : State)
    → ((check_active inner run_id now t).0 ≡ ok tt)
      ↔ ((check_run run_id (tick inner now t) ≡ ok tt) × (check_stop (tick inner now t) ≡ ok tt))
unfolding check_active
check_active-ok inner run_id now t = (λ h. (ground arith, ground arith), λ h. ground arith)

-- The wait after which a run that goes on is stopped.
check_active-wait :
    (inner : Inner) (run_id wait : ℕ) (t : State) (run : RunState)
    → t.run ≡ some run
    → t.cleanup_time ≤ duration_max
    → run.report.cleanup_time ≤ duration_max
    → GoesOn run t
    → run.id ≡ run_id
    → ((check_active inner run_id (t.last_clock + wait) t).0 ≡ ok tt)
      ↔ (wait < min (task_remaining inner.limits t) (run_remaining run))
check_active-wait inner run_id wait t run e task_word run_word g own =
    let later = record t { last_clock = t.last_clock + wait } in
    let ticked = tick_lem inner wait t run e g in
    let (checked, passes) = check_active-ok inner run_id (t.last_clock + wait) t in
    (
      λ h. elim (Bool-cases (leb (min (task_remaining inner.limits t) (run_remaining run)) wait)) [
        | inl out ↦ absurd (
            tick_run-stops inner.limits wait run later g (ground arith)
              (ap check_stop (sym ticked) ∙ (checked h).1))
        | inr left ↦ ground arith
      ],
      λ left.
          let same =
            ticked ∙ tick_run-going inner.limits wait run later g task_word run_word left in
          let (going, passing) = GoesOn-checks wait run later g in
          passes (
            ap (check_run run_id) same
                ∙ subst (λ i. check_run i (worked_on wait run later) ≡ ok tt) own going,
            ap check_stop same ∙ passing,
          ),
    )

-- When `remaining_time` reports a time for a run that is not cleaning up, with cleanup times that are
-- Durations, an active check after a wait goes through exactly if the wait is shorter than that time.
pub remaining_time_exact :
    (inner : Inner) (run_id now wait d : ℕ) (s t : State) (run : RunState)
    → t.run ≡ some run
    → run.cleaning ≡ false
    → t.cleanup_time ≤ duration_max
    → run.report.cleanup_time ≤ duration_max
    → remaining_time inner run_id now s ≡ (ok d, t)
    → ((check_active inner run_id (now + wait) t).0 ≡ ok tt) ↔ (wait < d)
remaining_time_exact inner run_id now wait d s t run e working task_word run_word h =
    let (ticked, runs, going, left) = remaining_time-ok inner run_id now d s t run e h in
    let (clock, sealed, frozen) =
      tick-last_clock inner now s (ap check_stop (sym ticked) ∙ going) in
    let (g, own) = checks-GoesOn run_id t run e working runs going in
    let read : t.last_clock ≡ now = ap (λ (x : State). x.last_clock) ticked ∙ clock in
    subst (λ n. ((check_active inner run_id (n + wait) t).0 ≡ ok tt) ↔ (wait < d)) read
      (subst (λ m. ((check_active inner run_id (t.last_clock + wait) t).0 ≡ ok tt) ↔ (wait < m))
        (sym left) (check_active-wait inner run_id wait t run e task_word run_word g own))
