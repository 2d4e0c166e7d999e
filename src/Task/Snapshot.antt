-- ===== src/Task/Snapshot.antt =====
-- crates/task/state/src/lib.rs: snapshots of a task. A `BTreeMap` is the list of its entries in the
-- order of their keys. What is used of serde_json is a parameter.
pub mod Validate
pub mod Successor
pub mod Chain
mod Tests
use jingwei.Base.{ℕ, ◌-◌, ◌==◌, Bool, Option, none, some, List, if◌then◌else◌}
use jingwei.Base.Text.{Text, Text-discrete}
use jingwei.Budget.Amounts.{Amounts}
use jingwei.Budget.Audit.{EventCursor, EventCursor-discrete}
use jingwei.Budget.Vocabulary.{Identity, StopReason-discrete}
use jingwei.Core.Event.{TaskRunStop}
use jingwei.Task.Vocabulary.{TaskPhase}
unfoldable use jingwei.Base.{ℕ_discrete}

pub data TaskSnapshotVersion : Type 0 where
  v1 : TaskSnapshotVersion

-- `TryFrom<u16> for TaskSnapshotVersion`.
unfoldable pub snapshot_version_of_number : ℕ → Option TaskSnapshotVersion
snapshot_version_of_number n = if n == 1 then some TaskSnapshotVersion.v1 else none

pub record TaskCompatibility : Type 0 where
  pub agent_revision : Text
  pub policy_revision : Text
  pub tool_revisions : List (Text × Text)
  pub payload_schemas : List (Text × ℕ)

pub record TaskBudgetReference : Type 0 where
  pub revision : ℕ
  pub charged : Amounts

pub record TaskSnapshot (Value : Type 0) : Type 0 where
  pub version : TaskSnapshotVersion
  pub revision : ℕ
  pub identity : Identity
  pub compatibility : TaskCompatibility
  pub cursor : Option EventCursor
  pub budget : TaskBudgetReference
  pub phase : TaskPhase
  pub settled_steps : List Text
  pub payloads : List (Text × Value)

unfoldable pub TaskCompatibility-discrete : Discrete TaskCompatibility
TaskCompatibility-discrete = hlevel (Text-discrete, ℕ_discrete)

unfoldable pub TaskRunStop-discrete : Discrete TaskRunStop
TaskRunStop-discrete = hlevel StopReason-discrete

unfoldable pub TaskPhase-discrete : Discrete TaskPhase
TaskPhase-discrete = hlevel (Text-discrete, TaskRunStop-discrete)

unfoldable pub Cursor-discrete : Discrete (Option EventCursor)
Cursor-discrete = hlevel EventCursor-discrete

unfoldable pub Steps-discrete : Discrete (List Text)
Steps-discrete = hlevel Text-discrete

-- What the check of a snapshot uses of serde_json: the elements of an array or the values of an object,
-- and whether the encoding of a snapshot has at most so many bytes.
pub record Encoding (Value : Type 0) : Type 0 where
  pub children : Value → Option (List Value)
  pub fits_in : ℕ → TaskSnapshot Value → Bool
