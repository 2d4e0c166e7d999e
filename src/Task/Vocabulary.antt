-- ===== src/Task/Vocabulary.antt =====
-- crates/task/state/src/lib.rs and history.rs: phases, operations, assessments and errors of a task.
use Prim.Native.String.{String}
use jingwei.Base.{ℕ, ◌||◌, Option, List, ltb}
use jingwei.Base.Result.{Result, refuse_if}
use jingwei.Base.Text.{Text, is_blank, byte_len}
use jingwei.Budget.Audit.{EventCursor}
use jingwei.Core.Event.{TaskRunStop}

-- `MAX_TASK_HISTORY_EVENTS` and `MAX_TASK_STEPS`.
abbrev pub max_task_history_events : ℕ
max_task_history_events = 100000

abbrev pub max_task_steps : ℕ
max_task_steps = 4096

pub data TaskOperationKind : Type 0 where
  model tool : TaskOperationKind

pub record UnresolvedTaskOperation : Type 0 where
  pub kind : TaskOperationKind
  pub call_id : Text
  pub intent : EventCursor
  pub step_id : Option Text

pub data TaskHistoryBoundary : Type 0 where
  empty closed : TaskHistoryBoundary
  open_turn : Text → TaskHistoryBoundary

pub record TaskHistoryAssessment : Type 0 where
  pub boundary : TaskHistoryBoundary
  pub settled_steps : List Text
  pub unresolved : List UnresolvedTaskOperation

pub data TaskPhase : Type 0 where
  created completed checkpointed : TaskPhase
  waiting_for_input : Text → TaskPhase
  stopped : TaskRunStop → TaskPhase

-- `TaskStateError`, over the error of the budget's execution module.
pub data TaskStateError (ExecutionError : Type 0) : Type 0 where
  invalid : String → TaskStateError ExecutionError
  limit identity_mismatch incompatible : TaskStateError ExecutionError
  revision_mismatch : ℕ → ℕ → TaskStateError ExecutionError
  revision_exhausted needs_review evidence_mismatch : TaskStateError ExecutionError
  budget : ExecutionError → TaskStateError ExecutionError
  encoding : TaskStateError ExecutionError

module _ {ExecutionError : Type 0} where
  unfoldable pub valid_text : Text → Result (TaskStateError ExecutionError) (Unit {0})
  valid_text value =
      refuse_if (is_blank value || ltb 4096 (byte_len value))
        (TaskStateError.invalid "empty or oversized identity/revision")
