-- ===== src/Budget/Guarantees/Frame.antt =====
-- What a tick and the checks leave alone.
use jingwei.Base.{ℕ, ◌≡◌, none, arith, inl, inr, Option-cases, ◌-◌}
use jingwei.Budget.Amounts.{Limits}
use jingwei.Budget.Ledger.{Inner, State, RunState}
use jingwei.Budget.Ledger.Clock.{
  tick, tick_elapsed, tick_run, add_cleanup, timed_state, timed_report, active_share,
}

-- The accounts of a state, and its audit, are those of another.
pub record SameBooks (s t : State) : Type 0 where
  pub same_charged : t.charged ≡ s.charged
  pub same_reserved : t.reserved ≡ s.reserved
  pub same_pending : t.pending ≡ s.pending
  pub same_next_id : t.next_id ≡ s.next_id
  pub same_usage : t.usage ≡ s.usage
  pub stop_kept : t.stop ≡ none → s.stop ≡ none

add_cleanup-SameBooks :
    (cleanup : ℕ) (limits : Limits) (elapsed : ℕ) (run : RunState) (s : State)
    → SameBooks s (
        add_cleanup cleanup run
          (timed_report limits elapsed run s)
          (timed_state limits elapsed run s))
unfolding add_cleanup timed_state
add_cleanup-SameBooks cleanup limits elapsed run s = ground arith

tick_elapsed-SameBooks :
    (limits : Limits) (elapsed : ℕ) (s : State) → SameBooks s (tick_elapsed limits elapsed s)
unfolding tick_elapsed tick_run
tick_elapsed-SameBooks limits elapsed s = elim (Option-cases s.run) [
  | inl e ↦ ground arith
  | inr (run, e) ↦ ground (
    arith,
    add_cleanup-SameBooks (elapsed - active_share limits elapsed run s) limits elapsed run s,
  )
]

-- A tick moves times and stops alone, and clears no stop.
pub tick-SameBooks : (inner : Inner) (now : ℕ) (s : State) → SameBooks s (tick inner now s)
unfolding tick
tick-SameBooks inner now s = ground (
  arith,
  tick_elapsed-SameBooks inner.limits (now - s.last_clock) (record s { last_clock = now }),
)
