-- ===== src/Budget/Invariant.antt =====
-- What holds of a ledger (crates/core/budget/src/lib.rs) between two calls. The parts take the
-- fields that they speak of, so that a write to another field leaves them as they are.
pub mod Ensures
pub mod Stops
pub mod Clock
pub mod Reports
pub mod Entries
pub mod Reserve
pub mod Admit
pub mod Reservation
pub mod Settlement
pub mod Release
pub mod Settled
pub mod Cancel
pub mod Settle
pub mod Calls
pub mod Runs
pub mod Scope
use jingwei.Base.{
  ℕ, ◌+◌, ◌≤◌, ◌<◌, ◌≡◌, true, Option, none, some, List, [], ◌∷◌, if◌then◌else◌, All,
}
use jingwei.Base.Word.{u64_mod}
use jingwei.Budget.Amounts.{Resource, is_attempt, Amounts, get, Limits}
use jingwei.Budget.Amounts.Laws.{IsWithin}
use jingwei.Budget.Vocabulary.{StopReason, Pending, UsageTotals, UsageReport}
use jingwei.Budget.Ledger.{Inner, RunState, State}

-- What the pending requests ask for, started or not.
abbrev pub pending_sum : Resource → List Pending → ℕ
pending_sum r [] = 0
pending_sum r (p ∷ ps) = get p.request.amounts r + pending_sum r ps

-- The reserved amount that the pending requests account for: attempts are charged instead.
abbrev pub held : Resource → List Pending → ℕ
held r ps = if is_attempt r then 0 else pending_sum r ps

pub record TaskInv (limits : Limits) (charged reserved : Amounts) (active : ℕ)
    (stop : Option StopReason) (pending : List Pending) (next_id : ℕ) : Type 0 where
  pub charged_word : (r : Resource) → get charged r < u64_mod
  pub reserved_word : (r : Resource) → get reserved r < u64_mod
  pub reserved_exact : (r : Resource) → get reserved r ≡ held r pending
  pub attempts_charged :
      (r : Resource) → is_attempt r ≡ true → pending_sum r pending ≤ get charged r
  pub within_limits :
      stop ≡ none → (r : Resource) → get charged r + get reserved r ≤ get limits.resources r
  pub within_time : stop ≡ none → active ≤ limits.active_time
  pub ids_below : All (λ p. p.id ≤ next_id) pending
  pub next_word : next_id < u64_mod

pub record RunInv (limits : Limits) (charged reserved : Amounts) (active cleanup : ℕ)
    (stop : Option StopReason) (pending : List Pending) (next_id : ℕ) (run : RunState)
    : Type 0 where
  pub run_reserved : (r : Resource) → get run.report.reserved r ≡ get reserved r
  pub run_charged : (r : Resource) → get run.report.charged r ≤ get charged r
  pub run_attempts :
      (r : Resource) → is_attempt r ≡ true → pending_sum r pending ≤ get run.report.charged r
  pub run_limits : IsWithin run.report.limits limits
  pub run_within :
      stop ≡ none
      → run.report.stop ≡ none
      → (r : Resource)
      → get run.report.charged r + get reserved r ≤ get run.report.limits.resources r
  pub run_time :
      stop ≡ none → run.report.stop ≡ none → run.report.active_time ≤ run.report.limits.active_time
  pub run_active : run.report.active_time ≤ active
  pub run_cleanup : run.report.cleanup_time ≤ cleanup
  pub run_id_below : run.id ≤ next_id

-- With no run there is nothing pending.
abbrev pub RunPart :
    Limits
    → Amounts
    → Amounts
    → ℕ
    → ℕ
    → Option StopReason
    → List Pending
    → ℕ
    → Option RunState
    → Type 0
RunPart limits charged reserved active cleanup stop pending next_id none = pending ≡ []
RunPart limits charged reserved active cleanup stop pending next_id (some run) =
    RunInv limits charged reserved active cleanup stop pending next_id run

abbrev pub IsCovered : UsageTotals → ℕ → Type 0
IsCovered totals charged = totals.actual + totals.estimated ≤ charged

-- Known usage is never above what has been charged for it.
pub record EvidenceInv (usage : UsageReport) (charged : Amounts) : Type 0 where
  pub input_covered : IsCovered usage.input_tokens charged.input_tokens
  pub output_covered : IsCovered usage.output_tokens charged.output_tokens
  pub bytes_covered : IsCovered usage.tool_output_bytes charged.tool_output_bytes

-- The limits are words, as the type `u64` has it.
abbrev pub IsWordLimits : Limits → Type 0
IsWordLimits limits = (r : Resource) → get limits.resources r < u64_mod

pub record Inv (inner : Inner) (s : State) : Type 0 where
  pub limits_word : IsWordLimits inner.limits
  pub task : TaskInv inner.limits s.charged s.reserved s.active_time s.stop s.pending s.next_id
  pub run_part :
      RunPart inner.limits s.charged s.reserved s.active_time s.cleanup_time s.stop s.pending
        s.next_id s.run
  pub evidence : EvidenceInv s.usage s.charged
