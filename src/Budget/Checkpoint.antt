-- ===== src/Budget/Checkpoint.antt =====
-- crates/core/budget/src/checkpoint.rs: sealed images of a ledger, and the result type of the
-- functions that check them.
pub mod Grants
pub mod Validate
pub mod Transfer
pub mod Transition
pub mod Checks
pub mod Chain
pub mod Resume
pub mod Freezing
pub mod Host
mod Tests
use Prim.Native.String.{String}
use jingwei.Base.{
  ℕ, Bool, true, false, ◌&&◌, not, Option, none, some, List, is_none, is_empty, ◌==◌, if◌then◌else◌,
}
use jingwei.Base.Text.{Text}
use jingwei.Budget.Amounts.{Limits}
use jingwei.Budget.Vocabulary.{Identity, Report}
use jingwei.Budget.Audit.{EventCursor, GrantRecord, RecoveryRecord}
use jingwei.Budget.Ledger.{BudgetError}

-- `BudgetCheckpointVersion`.
pub data Version : Type 0 where
  v1 v2 v3 v4 : Version

unfoldable pub Version-discrete : Discrete Version
Version-discrete = hlevel

-- `TryFrom<u16> for BudgetCheckpointVersion`.
unfoldable pub version_of_number : ℕ → Option Version
version_of_number n =
    if n == 1
    then some Version.v1
    else if n == 2
    then some Version.v2
    else if n == 3
    then some Version.v3
    else if n == 4
    then some Version.v4
    else none

-- `From<BudgetCheckpointVersion> for u16`.
unfoldable pub number_of_version : Version → ℕ
number_of_version Version.v1 = 1
number_of_version Version.v2 = 2
number_of_version Version.v3 = 3
number_of_version Version.v4 = 4

-- `BudgetCheckpoint`.
pub record Checkpoint : Type 0 where
  pub version : Version
  pub revision : ℕ
  pub next_id : ℕ
  pub anchor : Option EventCursor
  pub report : Report
  pub run_id : Option ℕ
  pub recovery_frozen : Bool
  pub execution_id : Option Text
  pub grants : List GrantRecord
  pub recoveries : List RecoveryRecord

-- `BudgetRestoreContext`.
pub record RestoreContext : Type 0 where
  pub identity : Identity
  pub revision : ℕ
  pub confirmed_anchor : Option EventCursor
  pub host_limits : Limits

-- `BudgetCheckpointError`.
pub data CheckpointError : Type 0 where
  budget : BudgetError → CheckpointError
  invalid : String → CheckpointError
  identity_mismatch : CheckpointError
  revision_mismatch : ℕ → ℕ → CheckpointError
  anchor_mismatch revision_exhausted : CheckpointError

pub data Checked {ℓ} (A : Type ℓ) : Type ℓ where
  ok : A → Checked A
  err : CheckpointError → Checked A

-- `checked?` and what follows it.
infixl 5 ◌>>=◌ ◌>>◌
abbrev pub ◌>>=◌ {ℓ κ} : {T : Type ℓ} {U : Type κ} → Checked T → (T → Checked U) → Checked U
err refusal >>= next = err refusal
ok value >>= next = next value

abbrev pub ◌>>◌ {ℓ κ} : {T : Type ℓ} {U : Type κ} → Checked T → Checked U → Checked U
check >> next = check >>= λ _. next

-- `if test { return Err(Invalid(message)); }`.
abbrev pub refuse_if : Bool → String → Checked (Unit {0})
refuse_if true message = err (invalid message)
refuse_if false message = ok tt

-- `if !test { return Err(e); }`.
abbrev pub require : Bool → CheckpointError → Checked (Unit {0})
require true e = ok tt
require false e = err e

-- `o.ok_or(e)?`.
abbrev pub or_refuse {ℓ} : {A : Type ℓ} → Option A → CheckpointError → Checked A
or_refuse none e = err e
or_refuse (some a) e = ok a

-- `is_quiescent`; `requires_recovery` is its negation.
unfoldable pub is_quiescent : Checkpoint → Bool
is_quiescent c =
    is_none c.execution_id && not c.recovery_frozen && is_none c.run_id && is_empty c.report.pending

-- The version of an image with these recoveries.
unfoldable pub version_for : List RecoveryRecord → Version
version_for recoveries = if is_empty recoveries then Version.v3 else Version.v4
