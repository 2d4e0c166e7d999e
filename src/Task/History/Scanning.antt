-- ===== src/Task/History/Scanning.antt =====
-- crates/task/state/src/history.rs: the checks of one event and the loop of `assess_task_history`.
use jingwei.Base.{
  ℕ, suc, ◌==◌, ltb, Bool, true, false, ◌&&◌, ◌||◌, not, Option, none, some, List, [], ◌∷◌, ◌++◌,
  length, is_yes, if◌then◌else◌,
}
use jingwei.Base.Result.{Result, ok, err, ◌>>=◌, ◌>>◌, refuse_if}
use jingwei.Base.Sets.{contains, with_member}
use jingwei.Base.Text.{Text, text_eq}
use jingwei.Base.Word.{wrapping_add}
use jingwei.Budget.Vocabulary.{Identity, EventCounts, RunReport, no_counts}
use jingwei.Budget.Equality.{EventCounts-discrete}
use jingwei.Core.Event.{SessionEvent, SessionEventKind, DecisionContext, ActionContext}
use jingwei.Session.Coordinator.Turn.{is_terminal}
use jingwei.Task.Vocabulary.{
  TaskOperationKind, UnresolvedTaskOperation, TaskHistoryAssessment, TaskStateError, valid_text,
  max_task_history_events, max_task_steps,
}
use jingwei.Task.History.{
  Scan, empty_scan, Started, find_operation, without_operation, assessment_of, cursor_of,
  is_user_message,
}

-- `current_turn == Some(&event.turn_id)`.
unfoldable pub is_current : Option Text → Text → Bool
is_current none turn_id = false
is_current (some turn) turn_id = text_eq turn turn_id

-- The step of a decision, where it is one of the task.
unfoldable pub own_step : Text → Option DecisionContext → Option Text
own_step task_id none = none
own_step task_id (some context) =
    if text_eq context.task_id task_id then some context.step_id else none

unfoldable pub decision_of : Option ActionContext → Option DecisionContext
decision_of none = none
decision_of (some action) = some action.decision

-- `report.budget.run.is_none_or(…)`: the run of a report is of another turn or has other counts.
unfoldable pub differs_from : Option RunReport → Text → EventCounts → Bool
differs_from none turn_id counts = true
differs_from (some run) turn_id counts =
    not (is_current run.turn_id turn_id)
    || not (is_yes (EventCounts-discrete run.metrics.confirmed counts))

abbrev pub Checked : Type 0 → Type 0 → Type 0
Checked ExecutionError A = Result (TaskStateError ExecutionError) A

unfoldable pub operation_of :
    {Value : Type 0} → Started → SessionEvent Value → UnresolvedTaskOperation
operation_of started event = record {
  kind = started.kind;
  call_id = started.call_id;
  intent = cursor_of event;
  step_id = started.step_id;
}

module _ {ExecutionError : Type 0} where
  -- `finish`: the operations that are left.
  unfoldable pub finish_operation :
      List UnresolvedTaskOperation
      → Text
      → Text
      → Checked ExecutionError (List UnresolvedTaskOperation)
  finish_operation pending id turn = elim (find_operation id pending) [
    | none ↦ err (TaskStateError.invalid "unmatched or repeated result")
    | some operation ↦
        if text_eq operation.intent.turn_id turn
        then ok (without_operation id pending)
        else err (TaskStateError.invalid "result crossed turn")
  ]

  unfoldable pub record_step : Scan → Option Text → Checked ExecutionError Scan
  record_step scan none = ok scan
  record_step scan (some step) =
      let steps = if contains step scan.steps_seen then scan.steps else scan.steps ++ step ∷ [] in
      valid_text step
      >> refuse_if (ltb max_task_steps (length steps)) TaskStateError.limit
      >> ok (record scan { steps_seen = with_member step scan.steps_seen; steps = steps })

  module _ {Value : Type 0} where
    -- The check of an event's address, with its id joined to the set.
    unfoldable pub check_address :
        Identity → ℕ → Scan → SessionEvent Value → Checked ExecutionError Scan
    check_address identity index scan event =
        refuse_if (not (text_eq event.session_id identity.session_id))
          TaskStateError.identity_mismatch
        >> valid_text event.event_id
        >> valid_text event.turn_id
        >> refuse_if (not (event.seq == index) || contains event.event_id scan.event_ids)
            (TaskStateError.invalid "physical event address")
        >> ok (record scan { event_ids = with_member event.event_id scan.event_ids })

    -- The turn that an event opens or goes on with.
    unfoldable pub enter_turn : Scan → SessionEvent Value → Checked ExecutionError Scan
    enter_turn scan event =
        if is_current scan.current_turn event.turn_id
        then (refuse_if (is_user_message event.kind)
              (TaskStateError.invalid "duplicate user envelope")
            >> refuse_if scan.closed (TaskStateError.invalid "event after terminal")
            >> ok scan)
        else (refuse_if (not scan.closed || contains event.turn_id scan.turn_ids)
              (TaskStateError.invalid "interleaved or reopened turn")
            >> refuse_if (not (is_user_message event.kind))
                (TaskStateError.invalid "turn lacks user envelope")
            >> ok (record scan {
              turn_ids = with_member event.turn_id scan.turn_ids;
              current_turn = some event.turn_id;
              closed = false;
              counts = no_counts;
              report_seen = false;
            }))

    unfoldable pub check_report : Scan → SessionEvent Value → Checked ExecutionError (Unit {0})
    check_report scan event =
        refuse_if (scan.report_seen && not (is_terminal event.kind))
          (TaskStateError.invalid "event after final report")

    -- The match on the kind of an event: the scan after it, and an operation that it starts.
    unfoldable pub follow :
        Identity
        → Scan
        → Text
        → SessionEventKind Value
        → Checked ExecutionError (Scan × Option Started)
    follow identity scan turn_id (SessionEventKind.model_request request) = ok (
      record scan {
        counts = record scan.counts { model_requests = wrapping_add scan.counts.model_requests 1 };
      },
      some (record {
        kind = TaskOperationKind.model;
        call_id = request.call_id;
        step_id = own_step identity.task_id request.options.context;
      }),
    )
    follow identity scan turn_id (SessionEventKind.tool_call call) = ok (
      record scan {
        counts = record scan.counts { tool_calls = wrapping_add scan.counts.tool_calls 1 };
      },
      some (record {
        kind = TaskOperationKind.tool;
        call_id = call.id;
        step_id = own_step identity.task_id (decision_of call.action);
      }),
    )
    follow identity scan turn_id (SessionEventKind.model_result answer) =
        finish_operation scan.models answer.call_id turn_id >>= λ models. ok (
          record scan {
            models = models;
            counts = record scan.counts {
              model_results = wrapping_add scan.counts.model_results 1;
            };
          },
          none,
        )
    follow identity scan turn_id (SessionEventKind.tool_result answer) =
        finish_operation scan.tools answer.call_id turn_id >>= λ tools. ok (
          record scan {
            tools = tools;
            counts = record scan.counts { tool_results = wrapping_add scan.counts.tool_results 1 };
          },
          none,
        )
    follow identity scan turn_id (SessionEventKind.task_run_report report) =
        refuse_if (not (text_eq report.budget.identity.session_id identity.session_id))
          TaskStateError.identity_mismatch
        >> refuse_if (differs_from report.budget.run turn_id scan.counts)
            (TaskStateError.invalid "report counts or turn mismatch")
        >> ok (record scan { report_seen = true }, none)
    follow identity scan turn_id (SessionEventKind.done status artifact) =
        ok (record scan { closed = true }, none)
    follow identity scan turn_id (SessionEventKind.error code message retryable) =
        ok (record scan { closed = true }, none)
    follow identity scan turn_id (SessionEventKind.user_message text) = ok (scan, none)
    follow identity scan turn_id (SessionEventKind.assistant_delta text) = ok (scan, none)
    follow identity scan turn_id (SessionEventKind.assistant_message version text) = ok (scan, none)
    follow identity scan turn_id (SessionEventKind.stage_progress stage status message) =
        ok (scan, none)
    follow identity scan turn_id (SessionEventKind.mode chosen decided_by reason) = ok (scan, none)
    follow identity scan turn_id (SessionEventKind.plan_ready plan) = ok (scan, none)
    follow identity scan turn_id (SessionEventKind.custom plugin kind payload) = ok (scan, none)

    -- An operation that starts, under an id that no call of its kind had.
    unfoldable pub start_operation :
        Scan → SessionEvent Value → TaskOperationKind → Started → Checked ExecutionError Scan
    start_operation scan event TaskOperationKind.model started =
        valid_text started.call_id
        >> refuse_if (contains started.call_id scan.models_seen)
            (TaskStateError.invalid "duplicate call ID")
        >> record_step (record scan { models_seen = with_member started.call_id scan.models_seen })
            started.step_id
        >>= λ next. ok (record next { models = next.models ++ operation_of started event ∷ [] })
    start_operation scan event TaskOperationKind.tool started =
        valid_text started.call_id
        >> refuse_if (contains started.call_id scan.tools_seen)
            (TaskStateError.invalid "duplicate call ID")
        >> record_step (record scan { tools_seen = with_member started.call_id scan.tools_seen })
            started.step_id
        >>= λ next. ok (record next { tools = next.tools ++ operation_of started event ∷ [] })

    unfoldable pub start_pending :
        SessionEvent Value → Scan × Option Started → Checked ExecutionError Scan
    start_pending event (scan, none) = ok scan
    start_pending event (scan, some started) = start_operation scan event started.kind started

    -- One round of the loop.
    unfoldable pub scan_event :
        Identity → ℕ → Scan → SessionEvent Value → Checked ExecutionError Scan
    scan_event identity index scan event = check_address identity index scan event >>= λ placed.
        enter_turn placed event >>= λ entered.
        check_report entered event
        >> follow identity entered event.turn_id event.kind
        >>= start_pending event

    unfoldable pub scan_events :
        Identity → ℕ → Scan → List (SessionEvent Value) → Checked ExecutionError Scan
    scan_events identity index scan [] = ok scan
    scan_events identity index scan (event ∷ events) =
        scan_event identity index scan event >>= λ next.
        scan_events identity (suc index) next events

    unfoldable pub assess_task_history :
        Identity → List (SessionEvent Value) → Checked ExecutionError TaskHistoryAssessment
    assess_task_history identity history =
        refuse_if (ltb max_task_history_events (length history)) TaskStateError.limit
        >> valid_text identity.task_id
        >> valid_text identity.session_id
        >> valid_text identity.agent_key
        >> scan_events identity 0 empty_scan history
        >>= λ scan. ok (assessment_of scan)
