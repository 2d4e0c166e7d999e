-- ===== src/Core/Model.antt =====
-- crates/core/core/src/model.rs: the values that a model is asked with and answers with. A
-- `ProviderToolCallId` is its string, and `usize` and `u32` are natural numbers.
use jingwei.Base.{ℕ, ◌*◌, ◌==◌, if◌then◌else◌, Option, none, some, List, []}
use jingwei.Base.Result.{Result, ok, err}
use jingwei.Base.Text.{Text, Text-discrete, is_blank}
unfoldable use jingwei.Base.{ℕ_discrete}

-- `ModelProtocolError`.
pub data ModelProtocolError : Type 0 where
  empty_tool_call_id empty_messages missing_assistant_content empty_name : ModelProtocolError
  arguments_not_object duplicate_tool_call_id : ModelProtocolError
  unmatched_tool_result interrupted_tool_group : ℕ → ModelProtocolError
  missing_tool_results invalid_schema_shape empty_tool_set : ModelProtocolError
  duplicate_tool_name tool_not_visible unsupported_capability : ModelProtocolError
  unknown_capability incomplete_response inconsistent_finish_reason : ModelProtocolError
  unexpected_tool_calls invalid_json_output required_tool_call_missing : ModelProtocolError
  wrong_tool_choice output_limit_exceeded missing_stream_terminal : ModelProtocolError
  stream_terminal_mismatch schema_validation : ModelProtocolError

-- `ProviderToolCallId::new`.
unfoldable pub new_provider_id : Text → Result ModelProtocolError Text
new_provider_id value =
    if is_blank value then err ModelProtocolError.empty_tool_call_id else ok value

pub record ModelToolCall (Value : Type 0) : Type 0 where
  pub id : Text
  pub name : Text
  pub arguments : Value

pub data ModelMessage (Value : Type 0) : Type 0 where
  system user : Text → ModelMessage Value
  assistant : Option Text → List (ModelToolCall Value) → ModelMessage Value
  tool : Text → Text → ModelMessage Value

pub record ModelToolDefinition (Value : Type 0) : Type 0 where
  pub name : Text
  pub description : Text
  pub parameters : Value

pub data ToolChoice : Type 0 where
  auto required : ToolChoice
  named : Text → ToolChoice

pub data GenerationConstraint (Value : Type 0) : Type 0 where
  text : GenerationConstraint Value
  native_tools : List (ModelToolDefinition Value) → ToolChoice → GenerationConstraint Value
  json_schema : Text → Value → GenerationConstraint Value

pub data CapabilitySupport : Type 0 where
  supported unsupported unknown : CapabilitySupport

pub record GenerationSupport : Type 0 where
  pub complete : CapabilitySupport
  pub stream : CapabilitySupport

pub record ModelCapabilities : Type 0 where
  pub text : GenerationSupport
  pub native_tools : GenerationSupport
  pub json_schema : GenerationSupport
  pub token_usage : CapabilitySupport
  pub token_counting : CapabilitySupport

-- `ModelCapabilities::text_only`.
unfoldable pub text_only : ModelCapabilities
text_only =
    let both : CapabilitySupport → GenerationSupport =
      λ support. record { complete = support; stream = support } in
    record {
      text = both CapabilitySupport.supported;
      native_tools = both CapabilitySupport.unsupported;
      json_schema = both CapabilitySupport.unsupported;
      token_usage = CapabilitySupport.unsupported;
      token_counting = CapabilitySupport.unsupported;
    }

pub record GenerationRequest (Value : Type 0) : Type 0 where
  pub messages : List (ModelMessage Value)
  pub constraint : GenerationConstraint Value

pub data FinishReason : Type 0 where
  stop tool_calls length content_filtered unknown : FinishReason
  other : Text → FinishReason

pub record TokenUsage : Type 0 where
  pub input_tokens : Option ℕ
  pub output_tokens : Option ℕ
  pub total_tokens : Option ℕ

pub record ToolCallFragment : Type 0 where
  pub index : ℕ
  pub id : Text
  pub name : Text
  pub arguments : Text

pub record GenerationResponse (Value : Type 0) : Type 0 where
  pub content : Option Text
  pub tool_calls : List (ModelToolCall Value)
  pub incomplete_tool_calls : List ToolCallFragment
  pub finish_reason : FinishReason
  pub usage : TokenUsage

pub data ModelRecordVersion : Type 0 where
  v1 : ModelRecordVersion

-- `TryFrom<u16> for ModelRecordVersion`.
unfoldable pub record_version_of_number : ℕ → Option ModelRecordVersion
record_version_of_number n = if n == 1 then some ModelRecordVersion.v1 else none

pub record GenerationLimits : Type 0 where
  pub max_output_bytes : ℕ
  pub max_tool_calls : ℕ

-- `GenerationLimits::default`.
unfoldable pub default_generation_limits : GenerationLimits
default_generation_limits = record { max_output_bytes = 8 * 1024 * 1024; max_tool_calls = 32 }

pub data GenerationDelta : Type 0 where
  text : Text → GenerationDelta
  tool_call : ℕ → Option Text → Option Text → Text → GenerationDelta

pub record GenerationPartial : Type 0 where
  pub content : Option Text
  pub tool_calls : List ToolCallFragment

-- `ModelMessage::{system,user,assistant}`, `GenerationRequest::text` and
-- `GenerationResponse::text`.
module _ {Value : Type 0} where
  unfoldable pub system_message : Text → ModelMessage Value
  system_message content = ModelMessage.system content

  unfoldable pub user_message : Text → ModelMessage Value
  user_message content = ModelMessage.user content

  unfoldable pub assistant_message : Text → ModelMessage Value
  assistant_message content = ModelMessage.assistant (some content) []

  unfoldable pub text_request : List (ModelMessage Value) → GenerationRequest Value
  text_request messages = record { messages = messages; constraint = GenerationConstraint.text }

  unfoldable pub text_response : Text → FinishReason → GenerationResponse Value
  text_response content reason = record {
    content = some content;
    tool_calls = [];
    incomplete_tool_calls = [];
    finish_reason = reason;
    usage = record { input_tokens = none; output_tokens = none; total_tokens = none };
  }

-- The derived `==` of these types.
unfoldable pub ToolChoice-discrete : Discrete ToolChoice
ToolChoice-discrete = hlevel Text-discrete

unfoldable pub FinishReason-discrete : Discrete FinishReason
FinishReason-discrete = hlevel Text-discrete

unfoldable pub TokenUsage-discrete : Discrete TokenUsage
TokenUsage-discrete = hlevel ℕ_discrete

unfoldable pub ToolCallFragment-discrete : Discrete ToolCallFragment
ToolCallFragment-discrete = hlevel (ℕ_discrete, Text-discrete)

unfoldable pub GenerationPartial-discrete : Discrete GenerationPartial
GenerationPartial-discrete = hlevel (Text-discrete, ToolCallFragment-discrete)

unfoldable pub GenerationLimits-discrete : Discrete GenerationLimits
GenerationLimits-discrete = hlevel ℕ_discrete

module _ {Value : Type 0} (Value-discrete : Discrete Value) where
  unfoldable pub ModelToolCall-discrete : Discrete (ModelToolCall Value)
  ModelToolCall-discrete = hlevel (Value-discrete, Text-discrete)

  unfoldable pub ModelMessage-discrete : Discrete (ModelMessage Value)
  ModelMessage-discrete = hlevel (ModelToolCall-discrete, Text-discrete)

  unfoldable pub ModelToolDefinition-discrete : Discrete (ModelToolDefinition Value)
  ModelToolDefinition-discrete = hlevel (Value-discrete, Text-discrete)

  unfoldable pub GenerationConstraint-discrete : Discrete (GenerationConstraint Value)
  GenerationConstraint-discrete =
      hlevel (ModelToolDefinition-discrete, Value-discrete, Text-discrete, ToolChoice-discrete)

  unfoldable pub GenerationRequest-discrete : Discrete (GenerationRequest Value)
  GenerationRequest-discrete = hlevel (ModelMessage-discrete, GenerationConstraint-discrete)

  unfoldable pub GenerationResponse-discrete : Discrete (GenerationResponse Value)
  GenerationResponse-discrete = hlevel (
    ModelToolCall-discrete, ToolCallFragment-discrete, FinishReason-discrete, TokenUsage-discrete,
    Text-discrete,
  )
