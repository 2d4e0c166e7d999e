-- ===== src/Budget/Invariant/Clock.antt =====
-- `tick` keeps the invariant, whatever the clock does.
use jingwei.Base.{
  ℕ, ◌+◌, ◌-◌, ◌≤◌, ◌≡◌, refl, Bool, true, false, ◌||◌, Option, none, some, arith, inl, inr,
  if◌then◌else◌, Option-cases, Bool-cases, get_or_insert, ltb,
}
use jingwei.Budget.Amounts.{Limits}
use jingwei.Budget.Vocabulary.{StopReason, RunReport}
use jingwei.Budget.Ledger.{Inner, RunState, State}
use jingwei.Budget.Ledger.Clock.{
  add_cleanup, active_share, task_remaining, run_remaining, timed_report, timed_state, tick_run,
  is_timed, tick_elapsed, tick,
}
use jingwei.Budget.Invariant.{RunInv, Inv}
use jingwei.Budget.Invariant.Stops.{Inv-stop}

abbrev pub with_report : RunState → RunReport → State → State
with_report run report s = record s { run = some (record run { report = report }) }

get_or_insert-some : (o : Option StopReason) (r : StopReason) → get_or_insert o r ≡ none → o ≡ none
get_or_insert-some none r e = refl
get_or_insert-some (some x) r e = e

-- A stop that is only recorded where there is none.
pub Inv-insert :
    (inner : Inner) (s : State) (reason : StopReason)
    → Inv inner s
    → Inv inner (record s { stop = get_or_insert s.stop reason })
Inv-insert inner s reason h =
    Inv-stop inner s (get_or_insert s.stop reason) (get_or_insert-some s.stop reason) h

-- Both cleanup totals grow by the same time.
Inv-cleanup :
    (inner : Inner) (cleanup : ℕ) (run : RunState) (report : RunReport) (s : State)
    → Inv inner (with_report run report s)
    → Inv inner (record s {
      cleanup_time = s.cleanup_time + cleanup;
      run =
          some (record run {
            report = record report { cleanup_time = report.cleanup_time + cleanup };
          });
    })
Inv-cleanup inner cleanup run report s h = record {
  limits_word = h.limits_word;
  task = h.task;
  run_part = record {
    run_reserved = h.run_part.run_reserved;
    run_charged = h.run_part.run_charged;
    run_attempts = h.run_part.run_attempts;
    run_limits = h.run_part.run_limits;
    run_within = h.run_part.run_within;
    run_time = h.run_part.run_time;
    run_active = h.run_part.run_active;
    run_cleanup = omega (arith, h.run_part.run_cleanup);
    run_id_below = h.run_part.run_id_below;
  };
  evidence = h.evidence;
}

add_cleanup-Inv :
    (inner : Inner) (cleanup : ℕ) (run : RunState) (report : RunReport) (s : State)
    → Inv inner (with_report run report s)
    → Inv inner (add_cleanup cleanup run report s)
unfolding add_cleanup
add_cleanup-Inv inner cleanup run report s h = ground (
  arith,
  Inv-cleanup inner cleanup run report s h,
  Inv-insert inner (with_report run report s) StopReason.accounting_overflow h,
)

-- The active time of task and run grows by no more than what is left of either.
Inv-active :
    (inner : Inner) (active : ℕ) (run : RunState) (s : State) (stop run_stop : Option StopReason)
    → Inv inner s
    → s.run ≡ some run
    → active ≤ inner.limits.active_time - s.active_time
    → active ≤ run.report.limits.active_time - run.report.active_time
    → (stop ≡ none → s.stop ≡ none)
    → (run_stop ≡ none → run.report.stop ≡ none)
    → Inv inner (
        with_report run
          (record run.report { active_time = run.report.active_time + active; stop = run_stop })
          (record s { active_time = s.active_time + active; stop = stop }))
Inv-active inner active run s stop run_stop h e task_left run_left keeps run_keeps = record {
  limits_word = h.limits_word;
  task = record {
    charged_word = h.task.charged_word;
    reserved_word = h.task.reserved_word;
    reserved_exact = h.task.reserved_exact;
    attempts_charged = h.task.attempts_charged;
    within_limits = λ x. h.task.within_limits (keeps x);
    within_time = λ x. omega (arith, h.task.within_time (keeps x));
    ids_below = h.task.ids_below;
    next_word = h.task.next_word;
  };
  run_part = record {
    run_reserved = part.run_reserved;
    run_charged = part.run_charged;
    run_attempts = part.run_attempts;
    run_limits = part.run_limits;
    run_within = λ x y. part.run_within (keeps x) (run_keeps y);
    run_time = λ x y. omega (arith, part.run_time (keeps x) (run_keeps y));
    run_active = omega (arith, part.run_active);
    run_cleanup = part.run_cleanup;
    run_id_below = part.run_id_below;
  };
  evidence = h.evidence;
}
  where
    part :
        RunInv inner.limits s.charged s.reserved s.active_time s.cleanup_time s.stop s.pending
          s.next_id run
    part = rw e at h.run_part

cond_stop :
    (b : Bool) (o : Option StopReason) (r : StopReason)
    → (if b then some r else o) ≡ none
    → o ≡ none
cond_stop true o r e = cc
cond_stop false o r e = e

-- The active share fits in what is left of the task's time and of the run's.
pub active_share_fits :
    (limits : Limits) (elapsed : ℕ) (run : RunState) (s : State)
    → (active_share limits elapsed run s ≤ elapsed)
      × (active_share limits elapsed run s ≤ task_remaining limits s)
      × (active_share limits elapsed run s ≤ run_remaining run)
unfolding active_share
active_share_fits limits elapsed run s = ground arith

tick_run-Inv :
    (inner : Inner) (elapsed : ℕ) (run : RunState) (s : State)
    → Inv inner s
    → s.run ≡ some run
    → Inv inner (tick_run inner.limits elapsed run s)
unfolding tick_run timed_report timed_state
tick_run-Inv inner elapsed run s h e =
    let limits = inner.limits in
    let fit = active_share_fits limits elapsed run s in
    add_cleanup-Inv inner _ run (timed_report limits elapsed run s)
      (timed_state limits elapsed run s)
      (Inv-active inner (active_share limits elapsed run s) run s _ _ h e fit.1 fit.2
        (cond_stop _ s.stop StopReason.active_time)
        (cond_stop _ run.report.stop StopReason.active_time))

tick_elapsed-Inv :
    (inner : Inner) (elapsed : ℕ) (s : State)
    → Inv inner s
    → Inv inner (tick_elapsed inner.limits elapsed s)
unfolding tick_elapsed
tick_elapsed-Inv inner elapsed s h = elim (Option-cases s.run) [
  | inl e ↦ rw (e, tick_elapsed) h
  | inr (run, e) ↦ elim (Bool-cases (is_timed run s)) [
    | inl timed ↦ rw (e, tick_elapsed, timed) (tick_run-Inv inner elapsed run s h e)
    | inr idle ↦ rw (e, tick_elapsed, idle) h
  ]
]

Inv-last_clock :
    (inner : Inner) (s : State) (now : ℕ) → Inv inner s → Inv inner (record s { last_clock = now })
Inv-last_clock inner s now h = record {
  limits_word = h.limits_word;
  task = h.task;
  run_part = h.run_part;
  evidence = h.evidence;
}

-- A tick keeps the invariant, also when the clock runs backwards or a total overflows.
pub tick-Inv : (inner : Inner) (now : ℕ) (s : State) → Inv inner s → Inv inner (tick inner now s)
unfolding tick
tick-Inv inner now s h = elim (Bool-cases (s.is_sealed || s.recovery_frozen)) [
  | inl frozen ↦ rw frozen h
  | inr live ↦ elim (Bool-cases (ltb now s.last_clock)) [
    | inl back ↦ rw (live, back) (Inv-insert inner s StopReason.clock_moved_backwards h)
    | inr on ↦
        rw (live, on) (tick_elapsed-Inv inner (now - s.last_clock) _ (Inv-last_clock inner s now h))
  ]
]
