-- ===== src/Budget/Audit.antt =====
-- The audit records that a ledger carries through its checkpoints: event cursors
-- (checkpoint.rs), host grants (grant.rs) and recoveries (recovery.rs), in
-- crates/core/budget/src.
use jingwei.Base.{ℕ, Option}
use jingwei.Base.Text.{Text, Text-discrete}
use jingwei.Budget.Amounts.{Limits}
use jingwei.Budget.Vocabulary.{Report, StopReason}
unfoldable use jingwei.Base.{ℕ_discrete}

-- `BudgetEventCursor`.
pub record EventCursor : Type 0 where
  pub session_id : Text
  pub turn_id : Text
  pub event_id : Text
  pub seq : ℕ

unfoldable pub EventCursor-discrete : Discrete EventCursor
EventCursor-discrete = hlevel (Text-discrete, ℕ_discrete)

-- `BudgetGrantRequest`.
pub record GrantRequest : Type 0 where
  pub operation_id : Text
  pub actor : Text
  pub source : Text
  pub reason : Text
  pub new_limits : Limits

-- `BudgetGrantRecord`.
pub record GrantRecord : Type 0 where
  pub request : GrantRequest
  pub source_revision : ℕ
  pub confirmed_anchor : Option EventCursor
  pub old_limits : Limits
  pub old_stop : Option StopReason

-- `BudgetRecoveryRequest`.
pub record RecoveryRequest : Type 0 where
  pub operation_id : Text
  pub execution_id : Text
  pub source_revision : ℕ
  pub actor : Text
  pub source : Text
  pub reason : Text

-- `BudgetRecoveryRecord`.
pub record RecoveryRecord : Type 0 where
  pub request : RecoveryRequest
  pub ownership_id : Text
  pub confirmed_anchor : Option EventCursor
  pub candidate_report : Report
  pub candidate_next_id : ℕ
