-- ===== src/Task/Tests.antt =====
-- One turn with two tool calls of which one has no result, and witnesses.
use jingwei.Base.{ℕ, ◌+◌, ◌≤◌, ◌≡◌, refl, none, some, List, [], ◌∷◌}
use jingwei.Base.Result.{ok}
use jingwei.Base.Sets.{contains, with_member}
use jingwei.Base.Text.{Text, Text-discrete, is_blank, byte_len}
use jingwei.Budget.Vocabulary.{Identity}
use jingwei.Core.Event.{
  SessionEvent, SessionEventKind, DoneStatus, ToolRecordedOutcome, ActionContext,
}
use jingwei.Session.Log.{validate_physical_log}
use jingwei.Session.Coordinator.Turn.{is_terminal}
use jingwei.Task.Vocabulary.{
  TaskOperationKind, TaskHistoryBoundary, TaskHistoryAssessment, valid_text,
}
use jingwei.Task.History.{
  empty_scan, find_operation, without_operation, insert_operation, sort_operations, has_pending,
  settled_only, boundary_of, assessment_of, cursor_of, is_user_message,
}
use jingwei.Task.History.Scanning.{
  is_current, own_step, decision_of, finish_operation, operation_of, record_step, check_address,
  enter_turn, check_report, follow, start_operation, start_pending, scan_event, scan_events,
  assess_task_history,
}
use jingwei.Task.History.Operations.{operations_with, asks, resolves, total}
use jingwei.Task.History.Laws.{assess_task_history-IsLog}
use jingwei.Task.History.Once.{assess_task_history-asks_once}
use jingwei.Task.History.Unresolved.{assess_task_history-counts}
unfoldable use jingwei.Base.{ℕ_discrete}

abbrev identity : Identity
identity = record { task_id = 107 ∷ []; session_id = 115 ∷ []; agent_key = 97 ∷ [] }

abbrev event : Text → ℕ → SessionEventKind Text → SessionEvent Text
event id seq kind = record {
  event_id = id;
  session_id = 115 ∷ [];
  turn_id = 116 ∷ [];
  generation_id = none;
  message_id = none;
  seq = seq;
  kind = kind;
}

abbrev step : Text → ActionContext
step id = record {
  decision = record { task_id = 107 ∷ []; step_id = id };
  action_index = 0;
  provider_call_id = none;
}

abbrev tool_call : Text → Text → SessionEventKind Text
tool_call id step_id = SessionEventKind.tool_call (record {
  operation = none;
  action = some (step step_id);
  id = id;
  name = 110 ∷ [];
  arguments = [];
})

abbrev history : List (SessionEvent Text)
history =
    event (97 ∷ []) 0 (SessionEventKind.user_message (104 ∷ []))
    ∷ event (98 ∷ []) 1 (tool_call (49 ∷ []) (120 ∷ []))
    ∷ event (99 ∷ []) 2 (tool_call (50 ∷ []) (121 ∷ []))
    ∷ event (100 ∷ []) 3 (
        SessionEventKind.tool_result
          (record { call_id = 49 ∷ []; outcome = ToolRecordedOutcome.succeeded [] }))
    ∷ event (101 ∷ []) 4 (SessionEventKind.done DoneStatus.cancelled none)
    ∷ []

abbrev assessment : TaskHistoryAssessment
assessment = record {
  boundary = TaskHistoryBoundary.closed;
  settled_steps = (120 ∷ []) ∷ [];
  unresolved =
      record {
        kind = TaskOperationKind.tool;
        call_id = 50 ∷ [];
        intent = cursor_of (event (99 ∷ []) 2 (tool_call (50 ∷ []) (121 ∷ [])));
        step_id = some (121 ∷ []);
      }
      ∷ [];
}

assessed : assess_task_history {ExecutionError = Text} identity history ≡ ok assessment
unfolding assess_task_history valid_text is_blank byte_len scan_events scan_event check_address
    enter_turn check_report follow start_pending start_operation record_step finish_operation
    is_current own_step decision_of operation_of cursor_of is_user_message is_terminal empty_scan
    find_operation without_operation insert_operation sort_operations has_pending settled_only
    boundary_of assessment_of contains with_member Text-discrete ℕ_discrete
assessed = refl

assess_task_history-IsLog_example : validate_physical_log identity.session_id history ≡ ok tt
assess_task_history-IsLog_example = assess_task_history-IsLog identity history assessment assessed

assess_task_history-counts_example :
    total TaskOperationKind.tool (50 ∷ []) (asks TaskOperationKind.tool (50 ∷ [])) history
    ≡ total TaskOperationKind.tool (50 ∷ []) (resolves TaskOperationKind.tool (50 ∷ [])) history
      + operations_with TaskOperationKind.tool (50 ∷ []) assessment.unresolved
assess_task_history-counts_example =
    assess_task_history-counts Text TaskOperationKind.tool (50 ∷ []) identity history assessment
      assessed

assess_task_history-asks_once_example :
    total TaskOperationKind.tool (50 ∷ []) (asks TaskOperationKind.tool (50 ∷ [])) history ≤ 1
assess_task_history-asks_once_example =
    assess_task_history-asks_once Text TaskOperationKind.tool (50 ∷ []) identity history assessment
      assessed
