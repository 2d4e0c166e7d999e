-- ===== src/Core/Request.antt =====
-- crates/core/core/src/model.rs: the checks of a request before it is submitted.
pub mod Groups
use jingwei.Base.{ℕ, suc, ◌||◌, not, Option, List, [], ◌∷◌, is_empty, is_none, ◌&&◌}
use jingwei.Base.Result.{Result, ok, err, ◌>>=◌, ◌>>◌, refuse_if}
use jingwei.Base.Sets.{contains, without, with_member}
use jingwei.Base.Text.{Text, is_blank}
use jingwei.Core.Json.{Json}
use jingwei.Core.Event.{ModelCallMode}
use jingwei.Core.Model.{
  ModelProtocolError, ModelToolCall, ModelMessage, ModelToolDefinition, ToolChoice,
  GenerationConstraint, CapabilitySupport, GenerationSupport, ModelCapabilities, GenerationRequest,
}

abbrev pub Verdict : Type 0
Verdict = Result ModelProtocolError (Unit {0})

unfoldable pub validate_name : Text → Verdict
validate_name name = refuse_if (is_blank name) ModelProtocolError.empty_name

-- `GenerationSupport::for_mode`.
unfoldable pub for_mode : GenerationSupport → ModelCallMode → CapabilitySupport
for_mode support ModelCallMode.complete = support.complete
for_mode support ModelCallMode.stream = support.stream

module _ {Value : Type 0} (json : Json Value) where
  unfoldable pub validate_schema_shape : Value → Verdict
  validate_schema_shape schema =
      refuse_if (not (json.is_object schema || json.is_boolean schema))
        ModelProtocolError.invalid_schema_shape

  -- The loop of `validate_assistant`, with the ids that it has seen.
  unfoldable pub validate_calls : List Text → List (ModelToolCall Value) → Verdict
  validate_calls ids [] = ok tt
  validate_calls ids (call ∷ calls) =
      validate_name call.name
      >> refuse_if (not (json.is_object call.arguments)) ModelProtocolError.arguments_not_object
      >> refuse_if (contains call.id ids) ModelProtocolError.duplicate_tool_call_id
      >> validate_calls (with_member call.id ids) calls

  unfoldable pub validate_assistant : Option Text → List (ModelToolCall Value) → Verdict
  validate_assistant content calls =
      refuse_if (is_none content && is_empty calls) ModelProtocolError.missing_assistant_content
      >> validate_calls [] calls

  -- `pending.extend(ids)`.
  unfoldable pub extend_pending : List Text → List (ModelToolCall Value) → List Text
  extend_pending pending [] = pending
  extend_pending pending (call ∷ calls) = extend_pending (with_member call.id pending) calls

  -- What follows a message that is no tool result, where it may stand.
  unfoldable pub interrupts : ℕ → List Text → Verdict
  interrupts index pending =
      refuse_if (not (is_empty pending)) (ModelProtocolError.interrupted_tool_group index)

  -- The loop of `validate_messages` and the test behind it.
  unfoldable pub validate_messages_from : ℕ → List Text → List (ModelMessage Value) → Verdict
  validate_messages_from index pending [] =
      refuse_if (not (is_empty pending)) ModelProtocolError.missing_tool_results
  validate_messages_from index pending (ModelMessage.tool call_id content ∷ messages) =
      refuse_if (not (contains call_id pending)) (ModelProtocolError.unmatched_tool_result index)
      >> validate_messages_from (suc index) (without call_id pending) messages
  validate_messages_from index pending (ModelMessage.assistant content calls ∷ messages) =
      interrupts index pending
      >> validate_assistant content calls
      >> validate_messages_from (suc index) (extend_pending pending calls) messages
  validate_messages_from index pending (ModelMessage.system content ∷ messages) =
      interrupts index pending >> validate_messages_from (suc index) pending messages
  validate_messages_from index pending (ModelMessage.user content ∷ messages) =
      interrupts index pending >> validate_messages_from (suc index) pending messages

  unfoldable pub validate_messages : List (ModelMessage Value) → Verdict
  validate_messages messages =
      refuse_if (is_empty messages) ModelProtocolError.empty_messages
      >> validate_messages_from 0 [] messages

  -- The loop over candidate tools in `validate_shape`: the set of their names.
  unfoldable pub validate_tools :
      List Text → List (ModelToolDefinition Value) → Result ModelProtocolError (List Text)
  validate_tools names [] = ok names
  validate_tools names (tool ∷ tools) =
      validate_name tool.name
      >> validate_schema_shape tool.parameters
      >> refuse_if (contains tool.name names) ModelProtocolError.duplicate_tool_name
      >> validate_tools (with_member tool.name names) tools

  unfoldable pub validate_choice : ToolChoice → List Text → Verdict
  validate_choice ToolChoice.auto names = ok tt
  validate_choice ToolChoice.required names = ok tt
  validate_choice (ToolChoice.named name) names =
      refuse_if (not (contains name names)) ModelProtocolError.tool_not_visible

  unfoldable pub validate_constraint : GenerationConstraint Value → Verdict
  validate_constraint GenerationConstraint.text = ok tt
  validate_constraint (GenerationConstraint.json_schema name schema) =
      validate_name name >> validate_schema_shape schema
  validate_constraint (GenerationConstraint.native_tools tools choice) =
      refuse_if (is_empty tools) ModelProtocolError.empty_tool_set
      >> (validate_tools [] tools >>= validate_choice choice)

  -- `GenerationRequest::validate_shape`.
  unfoldable pub validate_shape : GenerationRequest Value → Verdict
  validate_shape request =
      validate_messages request.messages >> validate_constraint request.constraint

  -- The support that a constraint asks for, in `preflight`.
  unfoldable pub support_for : GenerationConstraint Value → ModelCapabilities → GenerationSupport
  support_for GenerationConstraint.text capabilities = capabilities.text
  support_for (GenerationConstraint.native_tools _ _) capabilities = capabilities.native_tools
  support_for (GenerationConstraint.json_schema _ _) capabilities = capabilities.json_schema

  unfoldable pub require_support : CapabilitySupport → Verdict
  require_support CapabilitySupport.supported = ok tt
  require_support CapabilitySupport.unsupported = err ModelProtocolError.unsupported_capability
  require_support CapabilitySupport.unknown = err ModelProtocolError.unknown_capability

  -- `GenerationRequest::preflight`.
  unfoldable pub preflight : GenerationRequest Value → ModelCapabilities → ModelCallMode → Verdict
  preflight request capabilities mode =
      validate_shape request
      >> require_support (for_mode (support_for request.constraint capabilities) mode)
