-- ===== src/Core/Response.antt =====
-- crates/core/core/src/model.rs: the checks of a collected response.
pub mod Continues
use jingwei.Base.{Bool, true, false, ◌&&◌, not, Option, none, some, List, [], ◌∷◌, is_empty, any}
use jingwei.Base.Result.{Result, ok, err, ◌>>◌, refuse_if}
use jingwei.Base.Text.{Text, text_eq}
use jingwei.Core.Json.{Json}
use jingwei.Core.Model.{
  ModelProtocolError, ModelToolCall, ModelMessage, ModelToolDefinition, ToolChoice,
  GenerationConstraint, GenerationRequest, GenerationResponse, FinishReason,
}
use jingwei.Core.Request.{Verdict, validate_assistant, validate_shape}

-- The match on the reason in `validate_complete`, told whether there are calls.
unfoldable pub check_reason : FinishReason → Bool → Verdict
check_reason FinishReason.stop true = err ModelProtocolError.inconsistent_finish_reason
check_reason FinishReason.stop false = ok tt
check_reason FinishReason.tool_calls true = ok tt
check_reason FinishReason.tool_calls false = err ModelProtocolError.inconsistent_finish_reason
check_reason FinishReason.length calls = err ModelProtocolError.incomplete_response
check_reason FinishReason.content_filtered calls = err ModelProtocolError.incomplete_response
check_reason FinishReason.unknown calls = err ModelProtocolError.incomplete_response
check_reason (FinishReason.other code) calls = err ModelProtocolError.incomplete_response

-- `!matches!(choice, ToolChoice::Auto)`.
unfoldable pub demands_call : ToolChoice → Bool
demands_call ToolChoice.auto = false
demands_call ToolChoice.required = true
demands_call (ToolChoice.named name) = true

-- The test of a call's name against an explicit choice.
unfoldable pub differs : ToolChoice → Text → Bool
differs ToolChoice.auto called = false
differs ToolChoice.required called = false
differs (ToolChoice.named name) called = not (text_eq called name)

-- `str::unwrap_or_default`.
unfoldable pub or_empty : Option Text → Text
or_empty none = []
or_empty (some text) = text

module _ {Value : Type 0} (json : Json Value) where
  -- `GenerationResponse::validate_complete`.
  unfoldable pub validate_complete : GenerationResponse Value → Verdict
  validate_complete response =
      refuse_if (not (is_empty response.incomplete_tool_calls))
        ModelProtocolError.incomplete_response
      >> check_reason response.finish_reason (not (is_empty response.tool_calls))
      >> validate_assistant json response.content response.tool_calls

  unfoldable pub check_visible :
      List (ModelToolDefinition Value) → ToolChoice → List (ModelToolCall Value) → Verdict
  check_visible tools choice [] = ok tt
  check_visible tools choice (call ∷ calls) =
      refuse_if (not (any (λ tool. text_eq tool.name call.name) tools))
        ModelProtocolError.tool_not_visible
      >> refuse_if (differs choice call.name) ModelProtocolError.wrong_tool_choice
      >> check_visible tools choice calls

  unfoldable pub parse_output : Option Value → Verdict
  parse_output none = err ModelProtocolError.invalid_json_output
  parse_output (some value) = ok tt

  -- The match on the constraint in `validate_shape_for`.
  unfoldable pub check_constraint : GenerationConstraint Value → GenerationResponse Value → Verdict
  check_constraint GenerationConstraint.text response =
      refuse_if (not (is_empty response.tool_calls)) ModelProtocolError.unexpected_tool_calls
  check_constraint (GenerationConstraint.json_schema name schema) response =
      refuse_if (not (is_empty response.tool_calls)) ModelProtocolError.unexpected_tool_calls
      >> parse_output (json.from_str (or_empty response.content))
  check_constraint (GenerationConstraint.native_tools tools choice) response =
      refuse_if (demands_call choice && is_empty response.tool_calls)
        ModelProtocolError.required_tool_call_missing
      >> check_visible tools choice response.tool_calls

  -- `GenerationResponse::validate_shape_for`.
  unfoldable pub validate_shape_for : GenerationResponse Value → GenerationRequest Value → Verdict
  validate_shape_for response request =
      validate_shape json request
      >> validate_complete response
      >> check_constraint request.constraint response

  -- `GenerationResponse::into_message`.
  unfoldable pub into_message :
      GenerationResponse Value → Result ModelProtocolError (ModelMessage Value)
  into_message response =
      validate_complete response >> ok (ModelMessage.assistant response.content response.tool_calls)
