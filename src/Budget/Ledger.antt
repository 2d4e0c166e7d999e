-- ===== src/Budget/Ledger.antt =====
-- crates/core/budget/src/lib.rs: the state behind the ledger's mutex. Every method locks it, so
-- a method is a function of the state and of the times that it samples from the clock.
pub mod Action
pub mod Clock
pub mod Runs
pub mod Scope
pub mod Requests
pub mod Reserve
pub mod Settlement
pub mod Reservations
pub mod Calls
use jingwei.Base.{ℕ, Bool, false, Option, none, List, []}
use jingwei.Budget.Amounts.{Resource, Amounts, no_amounts, Limits}
use jingwei.Budget.Vocabulary.{
  Identity, TokenMode, RunReport, Pending, StopReason, UsageReport, no_usage,
}
use jingwei.Budget.Audit.{GrantRecord, RecoveryRecord}

-- `BudgetError`, but for the poisoned mutex.
pub data BudgetError : Type 0 where
  checkpoint_sealed invalid_identity identity_mismatch run_active run_closed : BudgetError
  stopped : StopReason → BudgetError
  empty_request : BudgetError
  unverified_token_bound zero_token_estimate : Resource → BudgetError
  already_started not_started reservation_missing pending_reservations : BudgetError

-- The immutable part of `Inner`.
pub record Inner : Type 0 where
  pub identity : Identity
  pub limits : Limits
  pub token_mode : TokenMode

pub record RunState : Type 0 where
  pub id : ℕ
  pub report : RunReport
  pub cleaning : Bool

pub record State : Type 0 where
  pub is_sealed : Bool
  pub recovery_frozen : Bool
  pub checkpoint_revision : ℕ
  pub grants : List GrantRecord
  pub recoveries : List RecoveryRecord
  pub charged : Amounts
  pub reserved : Amounts
  pub usage : UsageReport
  pub active_time : ℕ
  pub cleanup_time : ℕ
  pub stop : Option StopReason
  pub run : Option RunState
  -- `BTreeMap<u64, _>`, by rising key.
  pub pending : List Pending
  pub next_id : ℕ
  pub last_clock : ℕ

-- `State { last_clock, ..State::default() }`.
abbrev pub new_state : ℕ → State
new_state now = record {
  is_sealed = false;
  recovery_frozen = false;
  checkpoint_revision = 0;
  grants = [];
  recoveries = [];
  charged = no_amounts;
  reserved = no_amounts;
  usage = no_usage;
  active_time = 0;
  cleanup_time = 0;
  stop = none;
  run = none;
  pending = [];
  next_id = 0;
  last_clock = now;
}

-- `BudgetRun`, the lease of the host.
pub record RunHandle : Type 0 where
  pub id : ℕ
  pub finished : Bool

-- `BudgetReservation`.
pub record Reservation : Type 0 where
  pub run_id : ℕ
  pub id : ℕ
  pub resolved : Bool
