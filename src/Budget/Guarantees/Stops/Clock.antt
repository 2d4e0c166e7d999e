-- ===== src/Budget/Guarantees/Stops/Clock.antt =====
-- A tick keeps the stop of the task, and a stopped task fails the check on stops.
use jingwei.Base.{ℕ, ◌≡◌, ◌≢◌, some, arith, inl, inr, Option-cases, ◌-◌}
use jingwei.Budget.Vocabulary.{StopReason}
use jingwei.Budget.Ledger.{Inner, State, RunState}
use jingwei.Budget.Ledger.Action.{ok}
use jingwei.Budget.Ledger.Clock.{
  tick, tick_elapsed, tick_run, add_cleanup, timed_state, timed_report, active_share, check_stop,
}

module _ (reason : StopReason) where
  -- The task has stopped for the reason.
  abbrev pub HasStop : State → Type 0
  HasStop s = s.stop ≡ some reason

  add_cleanup-stop :
      (cleanup : ℕ) (run : RunState) (r : _) (s : State)
      → HasStop s
      → HasStop (add_cleanup cleanup run r s)
  unfolding add_cleanup
  add_cleanup-stop cleanup run r s h = ground (arith, h)

  tick_elapsed-stop :
      (limits : _) (elapsed : ℕ) (s : State) → HasStop s → HasStop (tick_elapsed limits elapsed s)
  unfolding tick_elapsed tick_run timed_state
  tick_elapsed-stop limits elapsed s h = elim (Option-cases s.run) [
    | inl e ↦ ground arith
    | inr (run, e) ↦ ground (
      arith,
      add_cleanup-stop (elapsed - active_share limits elapsed run s) run
          (timed_report limits elapsed run s) (timed_state limits elapsed run s),
    )
  ]

  pub tick-stop : (inner : Inner) (now : ℕ) (s : State) → HasStop s → HasStop (tick inner now s)
  unfolding tick
  tick-stop inner now s h =
      ground
        (arith, tick_elapsed-stop inner.limits (now - s.last_clock) (record s { last_clock = now }))

  -- Nothing passes the check on stops.
  pub check_stop-fails : (s : State) → HasStop s → check_stop s ≢ ok tt
  unfolding check_stop
  check_stop-fails s h e = ground arith
