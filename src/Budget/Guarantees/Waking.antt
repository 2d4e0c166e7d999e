-- ===== src/Budget/Guarantees/Waking.antt =====
-- `BudgetScope::stopped` sleeps until a `StateGuard` wakes it: the guard's test against the checks
-- that the sleeper makes.
use jingwei.Base.{◌≡◌, ◌↔◌, false, some, arith, inl, inr, Option-cases}
use jingwei.Budget.Ledger.{State, RunState}
use jingwei.Budget.Ledger.Action.{ok}
use jingwei.Budget.Ledger.Clock.{check_run, check_stop, notifies}

-- The run is the ledger's, and its scopes pass both checks.
abbrev pub MayGoOn : State → RunState → Type 0
MayGoOn s run = (s.run ≡ some run) × (check_run run.id s ≡ ok tt) × (check_stop s ≡ ok tt)

silent : (s : State) → notifies s ≡ false → (run : RunState) × MayGoOn s run
unfolding notifies check_run check_stop
silent s e = elim (Option-cases s.run) [
  | inl n ↦ absurd (ground arith)
  | inr (run, n) ↦ (run, (n, ground arith, ground arith))
]

active_silent : (s : State) (run : RunState) → MayGoOn s run → notifies s ≡ false
unfolding notifies check_run check_stop
active_silent s run m = ground arith

-- A released guard wakes nobody exactly when the ledger has a run whose scopes pass both checks: no
-- stop, no close and no seal goes without a wake-up, and no wake-up is idle.
pub notifies-false_iff : (s : State) → (notifies s ≡ false) ↔ ((run : RunState) × MayGoOn s run)
notifies-false_iff s = (silent s, λ m. active_silent s m.0 m.1)
