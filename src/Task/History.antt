-- ===== src/Task/History.antt =====
-- crates/task/state/src/history.rs: `assess_task_history`, one event after the other. The two maps of
-- pending operations are lists: their keys are different, and the result is sorted by sequence number,
-- which no two operations share. The set of calls is two sets, by kind.
pub mod Scanning
pub mod Laws
pub mod Operations
pub mod Counting
pub mod Seen
pub mod Once
pub mod Unresolved
use jingwei.Base.{
  leb, Bool, true, false, ◌||◌, Option, none, some, List, [], ◌∷◌, ◌++◌, if◌then◌else◌,
}
use jingwei.Base.Text.{Text, text_eq}
use jingwei.Budget.Audit.{EventCursor}
use jingwei.Budget.Vocabulary.{EventCounts, no_counts}
use jingwei.Core.Event.{SessionEvent, SessionEventKind}
use jingwei.Task.Vocabulary.{
  TaskOperationKind, UnresolvedTaskOperation, TaskHistoryBoundary, TaskHistoryAssessment,
}

-- The locals of the loop.
pub record Scan : Type 0 where
  pub event_ids : List Text
  pub turn_ids : List Text
  pub current_turn : Option Text
  pub closed : Bool
  pub models : List UnresolvedTaskOperation
  pub tools : List UnresolvedTaskOperation
  pub models_seen : List Text
  pub tools_seen : List Text
  pub steps_seen : List Text
  pub steps : List Text
  pub counts : EventCounts
  pub report_seen : Bool

unfoldable pub empty_scan : Scan
empty_scan = record {
  event_ids = [];
  turn_ids = [];
  current_turn = none;
  closed = true;
  models = [];
  tools = [];
  models_seen = [];
  tools_seen = [];
  steps_seen = [];
  steps = [];
  counts = no_counts;
  report_seen = false;
}

-- A proposal for `pending`: the kind, the call's id and its step.
pub record Started : Type 0 where
  pub kind : TaskOperationKind
  pub call_id : Text
  pub step_id : Option Text

-- `pending.remove(id)`.
unfoldable pub find_operation : Text → List UnresolvedTaskOperation → Option UnresolvedTaskOperation
find_operation id [] = none
find_operation id (operation ∷ operations) =
    if text_eq operation.call_id id then some operation else find_operation id operations

unfoldable pub without_operation :
    Text → List UnresolvedTaskOperation → List UnresolvedTaskOperation
without_operation id [] = []
without_operation id (operation ∷ operations) =
    if text_eq operation.call_id id then operations else operation ∷ without_operation id operations

-- `unresolved.sort_by_key(|p| p.intent.seq)`.
unfoldable pub insert_operation :
    UnresolvedTaskOperation → List UnresolvedTaskOperation → List UnresolvedTaskOperation
insert_operation operation [] = operation ∷ []
insert_operation operation (other ∷ others) =
    if leb operation.intent.seq other.intent.seq
    then operation ∷ other ∷ others
    else other ∷ insert_operation operation others

unfoldable pub sort_operations : List UnresolvedTaskOperation → List UnresolvedTaskOperation
sort_operations [] = []
sort_operations (operation ∷ operations) = insert_operation operation (sort_operations operations)

-- `steps.retain(|step| !pending_steps.contains(step))`.
unfoldable pub has_pending : List UnresolvedTaskOperation → Text → Bool
has_pending [] step = false
has_pending (operation ∷ operations) step =
    elim operation.step_id [ none ↦ false | some pending ↦ text_eq pending step ]
    || has_pending operations step

unfoldable pub settled_only : List UnresolvedTaskOperation → List Text → List Text
settled_only unresolved [] = []
settled_only unresolved (step ∷ steps) =
    if has_pending unresolved step
    then settled_only unresolved steps
    else step ∷ settled_only unresolved steps

unfoldable pub boundary_of : Option Text → Bool → TaskHistoryBoundary
boundary_of none closed = TaskHistoryBoundary.empty
boundary_of (some turn) true = TaskHistoryBoundary.closed
boundary_of (some turn) false = TaskHistoryBoundary.open_turn turn

-- What the scan of a whole history amounts to.
unfoldable pub assessment_of : Scan → TaskHistoryAssessment
assessment_of scan =
    let unresolved = sort_operations (scan.models ++ scan.tools) in
    record {
      boundary = boundary_of scan.current_turn scan.closed;
      settled_steps = settled_only unresolved scan.steps;
      unresolved = unresolved;
    }

module _ {Value : Type 0} where
  -- `BudgetEventCursor::from`.
  unfoldable pub cursor_of : SessionEvent Value → EventCursor
  cursor_of event = record {
    session_id = event.session_id;
    turn_id = event.turn_id;
    event_id = event.event_id;
    seq = event.seq;
  }

  unfoldable pub is_user_message : SessionEventKind Value → Bool
  is_user_message (SessionEventKind.user_message text) = true
  is_user_message (SessionEventKind.assistant_delta text) = false
  is_user_message (SessionEventKind.assistant_message version text) = false
  is_user_message (SessionEventKind.model_request request) = false
  is_user_message (SessionEventKind.model_result answer) = false
  is_user_message (SessionEventKind.tool_call call) = false
  is_user_message (SessionEventKind.tool_result answer) = false
  is_user_message (SessionEventKind.task_run_report report) = false
  is_user_message (SessionEventKind.stage_progress stage status message) = false
  is_user_message (SessionEventKind.mode chosen decided_by reason) = false
  is_user_message (SessionEventKind.plan_ready plan) = false
  is_user_message (SessionEventKind.done status artifact) = false
  is_user_message (SessionEventKind.error code message retryable) = false
  is_user_message (SessionEventKind.custom plugin kind payload) = false
