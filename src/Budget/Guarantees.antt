-- ===== src/Budget/Guarantees.antt =====
-- What the ledger of crates/core/budget/src/lib.rs promises to a host, over whole histories of
-- calls and call by call.
pub mod Frame
pub mod Admission
pub mod Waking
pub mod Deadline
pub mod Stops
pub mod Completeness
mod Tests
use jingwei.Base.{ℕ, ◌+◌, ◌≤◌, ◌≡◌, ◌≢◌, none, List, arith, if◌then◌else◌}
use jingwei.Budget.Amounts.{Resource, is_attempt, get}
use jingwei.Budget.Ledger.{Inner, new_state}
use jingwei.Budget.Ledger.Action.{panicked}
use jingwei.Budget.Ledger.Calls.{Call, perform, perform_all}
use jingwei.Budget.Invariant.{IsWordLimits, pending_sum}
use jingwei.Budget.Invariant.Calls.{perform-Inv, history-Inv}

-- After any sequence of calls on a new ledger whose limits are words, with any clock times and
-- arguments, if the task has recorded no stop, then for each resource the charged and the reserved
-- amounts together are within the limit, and the active time is within its limit.
pub history_within_limits :
    (inner : Inner) (now : ℕ) (cs : List Call) (r : Resource)
    → IsWordLimits inner.limits
    → (perform_all inner cs (new_state now)).stop ≡ none
    → let s = perform_all inner cs (new_state now) in
      (get s.charged r + get s.reserved r ≤ get inner.limits.resources r)
      × (s.active_time ≤ inner.limits.active_time)
history_within_limits inner now cs r w e =
    let h = history-Inv inner now cs w in (h.task.within_limits e r, h.task.within_time e)

-- After any sequence of calls on a new ledger whose limits are words, no call panics: no
-- subtraction of durations goes below zero.
pub history_no_panic :
    (inner : Inner) (now : ℕ) (cs : List Call) (c : Call)
    → IsWordLimits inner.limits
    → (perform inner c (perform_all inner cs (new_state now))).0 ≢ panicked
history_no_panic inner now cs c w =
    (perform-Inv inner c (perform_all inner cs (new_state now)) (history-Inv inner now cs w)).1

-- After any sequence of calls on a new ledger whose limits are words, the reserved amount of a
-- variable resource is exactly the sum over the pending requests, that of an attempt is 0, and the
-- pending attempts are charged.
pub history_reserved_exact :
    (inner : Inner) (now : ℕ) (cs : List Call) (r : Resource)
    → IsWordLimits inner.limits
    → let s = perform_all inner cs (new_state now) in
      (get s.reserved r ≡ (if is_attempt r then 0 else pending_sum r s.pending))
      × ((if is_attempt r then pending_sum r s.pending else 0) ≤ get s.charged r)
history_reserved_exact inner now cs r w =
    let h = history-Inv inner now cs w in
    (h.task.reserved_exact r, ground (arith, h.task.attempts_charged r))
