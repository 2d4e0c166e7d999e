-- ===== src/Core/Event.antt =====
-- crates/core/core/src/{event,decision,tool_operation}.rs and the task-run report of budget.rs: the
-- envelope of a session's events and what it carries. An id is its string.
use jingwei.Base.{ℕ, ◌==◌, ltb, Bool, Option, none, some, if◌then◌else◌}
use jingwei.Base.Result.{Result, ok, err}
use jingwei.Base.Text.{Text, Text-discrete}
use jingwei.Budget.Vocabulary.{Report, StopReason, StopReason-discrete}
use jingwei.Budget.Equality.{Report-discrete}
use jingwei.Core.Model.{
  ModelRecordVersion, GenerationRequest, GenerationResponse, GenerationPartial, GenerationLimits,
  GenerationRequest-discrete, GenerationResponse-discrete, GenerationPartial-discrete,
  GenerationLimits-discrete,
}
unfoldable use jingwei.Base.{ℕ_discrete}

pub data StageStatus : Type 0 where
  started completed failed : StageStatus

pub data DoneStatus : Type 0 where
  completed waiting_for_input checkpointed cancelled : DoneStatus

pub data ModelCallMode : Type 0 where
  complete stream : ModelCallMode

pub record ModelTimeout : Type 0 where
  pub secs : ℕ
  pub nanos : ℕ

pub data ModelTimeoutError : Type 0 where
  nanoseconds_out_of_range : ℕ → ModelTimeoutError

-- `ModelTimeout::try_new`.
unfoldable pub try_new_timeout : ℕ → ℕ → Result ModelTimeoutError ModelTimeout
try_new_timeout secs nanos =
    if ltb nanos 1000000000
    then ok (record { secs = secs; nanos = nanos })
    else err (ModelTimeoutError.nanoseconds_out_of_range nanos)

pub record DecisionContext : Type 0 where
  pub task_id : Text
  pub step_id : Text

pub record ActionContext : Type 0 where
  pub decision : DecisionContext
  pub action_index : ℕ
  pub provider_call_id : Option Text

pub record ModelRequestOptions : Type 0 where
  pub context : Option DecisionContext
  pub max_tokens : Option ℕ
  pub timeout : Option ModelTimeout
  pub limits : GenerationLimits

pub record ModelRequest (Value : Type 0) : Type 0 where
  pub version : ModelRecordVersion
  pub call_id : Text
  pub mode : ModelCallMode
  pub input : GenerationRequest Value
  pub options : ModelRequestOptions

pub data ModelFailureCategory : Type 0 where
  upstream timeout stream_parse protocol cancelled adapter internal budget : ModelFailureCategory

pub data ModelRecordedOutcome (Value : Type 0) : Type 0 where
  succeeded : GenerationResponse Value → ModelRecordedOutcome Value
  -- category, code, message, retryable, upstream_status, partial
  failed :
      ModelFailureCategory
      → Text
      → Text
      → Bool
      → Option ℕ
      → GenerationPartial
      → ModelRecordedOutcome Value

pub record ModelResult (Value : Type 0) : Type 0 where
  pub version : ModelRecordVersion
  pub call_id : Text
  pub outcome : ModelRecordedOutcome Value

pub data ToolEffect : Type 0 where
  unknown read_only idempotent non_idempotent : ToolEffect

pub record ToolEffectContract : Type 0 where
  pub effect : ToolEffect
  pub revision : Text

pub data ToolReviewOutcome : Type 0 where
  not_executed completed uncertain : ToolReviewOutcome

pub record ToolRetryReview : Type 0 where
  pub actor : Text
  pub evidence : Text
  pub outcome : ToolReviewOutcome

pub record ToolRetryAudit : Type 0 where
  pub call_id : Text
  pub event_id : Text
  pub review : Option ToolRetryReview

pub record ToolOperation : Type 0 where
  pub task_id : Text
  pub key : Text
  pub contract : ToolEffectContract
  pub retry : Option ToolRetryAudit

pub record ToolCall (Value : Type 0) : Type 0 where
  pub operation : Option ToolOperation
  pub action : Option ActionContext
  pub id : Text
  pub name : Text
  pub arguments : Value

pub data ToolFailureCategory : Type 0 where
  unavailable invalid_arguments denied guard_fault approval_unavailable : ToolFailureCategory
  approval_denied approval_fault timeout cancelled body_failure : ToolFailureCategory
  body_panic output_limit budget : ToolFailureCategory

pub data ToolRecordedOutcome : Type 0 where
  succeeded : Text → ToolRecordedOutcome
  -- category, code, message, retryable
  failed : ToolFailureCategory → Text → Text → Bool → ToolRecordedOutcome

pub record ToolResult : Type 0 where
  pub call_id : Text
  pub outcome : ToolRecordedOutcome

pub data TaskRunReportVersion : Type 0 where
  v1 : TaskRunReportVersion

pub data TaskRunStop : Type 0 where
  completed waiting_for_input checkpointed caller_cancelled runtime_stopping : TaskRunStop
  budget : StopReason → TaskRunStop
  failed : TaskRunStop

pub record TaskRunReport : Type 0 where
  pub version : TaskRunReportVersion
  pub budget : Report
  pub stop : TaskRunStop
  pub capabilities_drained : Bool

pub data AssistantMessageVersion : Type 0 where
  v1 : AssistantMessageVersion

-- `TryFrom<u16>` for the versions of messages and of reports.
unfoldable pub message_version_of_number : ℕ → Option AssistantMessageVersion
message_version_of_number n = if n == 1 then some AssistantMessageVersion.v1 else none

unfoldable pub report_version_of_number : ℕ → Option TaskRunReportVersion
report_version_of_number n = if n == 1 then some TaskRunReportVersion.v1 else none

pub data SessionEventKind (Value : Type 0) : Type 0 where
  user_message assistant_delta : Text → SessionEventKind Value
  assistant_message : AssistantMessageVersion → Text → SessionEventKind Value
  model_request : ModelRequest Value → SessionEventKind Value
  model_result : ModelResult Value → SessionEventKind Value
  tool_call : ToolCall Value → SessionEventKind Value
  tool_result : ToolResult → SessionEventKind Value
  task_run_report : TaskRunReport → SessionEventKind Value
  stage_progress : Text → StageStatus → Option Text → SessionEventKind Value
  -- mode, decided_by, reason
  mode : Text → Text → Text → SessionEventKind Value
  plan_ready : Value → SessionEventKind Value
  done : DoneStatus → Option Value → SessionEventKind Value
  -- code, message, retryable
  error : Text → Text → Bool → SessionEventKind Value
  -- plugin, kind, payload
  custom : Text → Text → Value → SessionEventKind Value

pub record SessionEvent (Value : Type 0) : Type 0 where
  pub event_id : Text
  pub session_id : Text
  pub turn_id : Text
  pub generation_id : Option Text
  pub message_id : Option Text
  pub seq : ℕ
  pub kind : SessionEventKind Value

-- The derived `==` of these types.
unfoldable pub StageStatus-discrete : Discrete StageStatus
StageStatus-discrete = hlevel

unfoldable pub DoneStatus-discrete : Discrete DoneStatus
DoneStatus-discrete = hlevel

unfoldable pub ModelCallMode-discrete : Discrete ModelCallMode
ModelCallMode-discrete = hlevel

unfoldable pub ModelTimeout-discrete : Discrete ModelTimeout
ModelTimeout-discrete = hlevel ℕ_discrete

unfoldable pub ModelRecordVersion-discrete : Discrete ModelRecordVersion
ModelRecordVersion-discrete = hlevel

unfoldable pub DecisionContext-discrete : Discrete DecisionContext
DecisionContext-discrete = hlevel Text-discrete

unfoldable pub ActionContext-discrete : Discrete ActionContext
ActionContext-discrete = hlevel (DecisionContext-discrete, ℕ_discrete, Text-discrete)

unfoldable pub ModelRequestOptions-discrete : Discrete ModelRequestOptions
ModelRequestOptions-discrete =
    hlevel (DecisionContext-discrete, ModelTimeout-discrete, GenerationLimits-discrete, ℕ_discrete)

unfoldable pub ModelFailureCategory-discrete : Discrete ModelFailureCategory
ModelFailureCategory-discrete = hlevel

unfoldable pub ToolOperation-discrete : Discrete ToolOperation
ToolOperation-discrete = hlevel Text-discrete

unfoldable pub ToolFailureCategory-discrete : Discrete ToolFailureCategory
ToolFailureCategory-discrete = hlevel

unfoldable pub ToolResult-discrete : Discrete ToolResult
ToolResult-discrete = hlevel (ToolFailureCategory-discrete, Text-discrete)

unfoldable pub TaskRunReport-discrete : Discrete TaskRunReport
TaskRunReport-discrete = hlevel (Report-discrete, StopReason-discrete)

unfoldable pub AssistantMessageVersion-discrete : Discrete AssistantMessageVersion
AssistantMessageVersion-discrete = hlevel

module _ {Value : Type 0} (Value-discrete : Discrete Value) where
  unfoldable pub ModelRequest-discrete : Discrete (ModelRequest Value)
  ModelRequest-discrete = hlevel (
    GenerationRequest-discrete Value-discrete,
    ModelRequestOptions-discrete,
    ModelCallMode-discrete,
    ModelRecordVersion-discrete,
    Text-discrete,
  )

  unfoldable pub ModelResult-discrete : Discrete (ModelResult Value)
  ModelResult-discrete = hlevel (
    GenerationResponse-discrete Value-discrete,
    GenerationPartial-discrete,
    ModelFailureCategory-discrete,
    ModelRecordVersion-discrete,
    ℕ_discrete,
    Text-discrete,
  )

  unfoldable pub ToolCall-discrete : Discrete (ToolCall Value)
  ToolCall-discrete =
      hlevel (Value-discrete, ToolOperation-discrete, ActionContext-discrete, Text-discrete)

  unfoldable pub SessionEventKind-discrete : Discrete (SessionEventKind Value)
  SessionEventKind-discrete = hlevel (
    ModelRequest-discrete, ModelResult-discrete, ToolCall-discrete, ToolResult-discrete,
    TaskRunReport-discrete, StageStatus-discrete, DoneStatus-discrete,
    AssistantMessageVersion-discrete, Value-discrete, Text-discrete,
  )

  unfoldable pub SessionEvent-discrete : Discrete (SessionEvent Value)
  SessionEvent-discrete = hlevel (SessionEventKind-discrete, Text-discrete, ℕ_discrete)
