-- ===== src/Core/Tests.antt =====
-- Values that `serde_json` might give, tests of the vocabulary on concrete inputs, and witnesses.
use mathlib.Core.List.Perm
use jingwei.Base.{
  ◌==◌, ◌≡◌, ◌≢◌, refl, ◌↔◌, ◌≤◌, Bool, false, none, some, List, [], ◌∷◌, ◌++◌, length, arith,
}
use jingwei.Base.Result.{ok, err}
use jingwei.Base.Text.{Text, Text-discrete, byte_len, is_blank}
use jingwei.Base.Sets.{contains, without, with_member}
use jingwei.Core.Json.{Json}
unfoldable use jingwei.Base.{ℕ_discrete}
use jingwei.Core.Model.{
  ModelProtocolError, ModelToolCall, ModelMessage, ToolChoice, GenerationConstraint,
  GenerationRequest, GenerationResponse, FinishReason, GenerationLimits, GenerationDelta,
  new_provider_id,
}
use jingwei.Core.Request.{
  validate_name, validate_schema_shape, validate_calls, validate_assistant, extend_pending,
  interrupts, validate_messages_from, validate_messages, validate_tools, validate_choice,
  validate_constraint, validate_shape,
}
use jingwei.Core.Request.Groups.{ids, results_of, Conversation, validate_messages_iff}
use jingwei.Core.Response.{
  or_empty, check_reason, demands_call, differs, validate_complete, check_visible, check_constraint,
  into_message, validate_shape_for,
}
use jingwei.Core.Response.Continues.{validate_shape_for-continues}
use jingwei.Core.Accumulator.{
  Accumulator, new_accumulator, added_bytes, push_content, extend_fragment, empty_fragment,
  has_index, update_at, push_fragment, push_partial, accepted, push, push_all, insert_fragment,
  sort_fragments, completes, parse_calls, response,
}
use jingwei.Core.Accumulator.Bounds.{partial_bytes, push_all-IsBounded}
use jingwei.Core.Accumulator.Contents.{
  accept_all, joined, text_of, id_of, name_of, arguments_of, content_of, call_of, accept_all-pieces,
}

-- JSON values as their text, where `{` starts an object and everything parses.
abbrev is_braced : Text → Bool
is_braced [] = false
is_braced (c ∷ text) = c == 123

abbrev json : Json Text
json = record {
  discrete = Text-discrete;
  is_object = is_braced;
  is_boolean = λ value. false;
  from_str = λ text. some text;
}

abbrev limits : GenerationLimits
limits = record { max_output_bytes = 6; max_tool_calls = 1 }

-- "hi", a call of tool "t" in two pieces around a second call that is refused, and too much text.
abbrev deltas : List GenerationDelta
deltas =
    GenerationDelta.text (104 ∷ 105 ∷ [])
    ∷ GenerationDelta.tool_call 4 (some (97 ∷ [])) (some (116 ∷ [])) (123 ∷ [])
    ∷ GenerationDelta.tool_call 7 none none []
    ∷ GenerationDelta.tool_call 4 none none (125 ∷ [])
    ∷ GenerationDelta.text (104 ∷ 105 ∷ [])
    ∷ []

pushed : Accumulator
pushed = push_all (new_accumulator limits) deltas

pushed_bytes : pushed.bytes ≡ 6
unfolding pushed push_all push accepted push_partial push_content push_fragment has_index update_at
    extend_fragment empty_fragment new_accumulator added_bytes or_empty byte_len
pushed_bytes = refl

-- The fragments parse as one complete call.
pushed-response :
    response json pushed FinishReason.tool_calls
      (record { input_tokens = none; output_tokens = none; total_tokens = none })
    ≡ ok (record {
      content = some (104 ∷ 105 ∷ []);
      tool_calls = record { id = 97 ∷ []; name = 116 ∷ []; arguments = 123 ∷ 125 ∷ [] } ∷ [];
      incomplete_tool_calls = [];
      finish_reason = FinishReason.tool_calls;
      usage = record { input_tokens = none; output_tokens = none; total_tokens = none };
    })
unfolding pushed push_all push accepted push_partial push_content push_fragment has_index update_at
    extend_fragment empty_fragment new_accumulator added_bytes or_empty byte_len response
    sort_fragments insert_fragment completes parse_calls new_provider_id is_blank
pushed-response = refl

push_all-IsBounded_example :
    let acc = push_all (new_accumulator limits) deltas in
    (acc.bytes ≡ partial_bytes acc.partial)
    × (partial_bytes acc.partial ≤ limits.max_output_bytes)
    × (length acc.partial.tool_calls ≤ limits.max_tool_calls)
push_all-IsBounded_example = push_all-IsBounded limits deltas (omega arith)

abbrev stream : List GenerationDelta
stream =
    GenerationDelta.text (104 ∷ [])
    ∷ GenerationDelta.tool_call 4 (some (97 ∷ [])) none (123 ∷ [])
    ∷ GenerationDelta.text (105 ∷ [])
    ∷ GenerationDelta.tool_call 4 none none (125 ∷ [])
    ∷ []

abbrev streamed : Accumulator
streamed = record {
  partial = record {
    content = some (104 ∷ 105 ∷ []);
    tool_calls = record { index = 4; id = 97 ∷ []; name = []; arguments = 123 ∷ 125 ∷ [] } ∷ [];
  };
  limits = limits;
  bytes = 5;
}

stream-accepted : accept_all (new_accumulator limits) stream ≡ some streamed
unfolding accept_all accepted push_partial push_content push_fragment has_index update_at
    extend_fragment empty_fragment new_accumulator added_bytes or_empty byte_len
stream-accepted = refl

accept_all-pieces_example :
    (content_of streamed ≡ joined text_of stream)
    × ((call_of 4 streamed).id ≡ joined (id_of 4) stream)
    × ((call_of 4 streamed).name ≡ joined (name_of 4) stream)
    × ((call_of 4 streamed).arguments ≡ joined (arguments_of 4) stream)
accept_all-pieces_example = accept_all-pieces limits stream streamed 4 stream-accepted

abbrev call : Text → ModelToolCall Text
call id = record { id = id; name = 116 ∷ []; arguments = 123 ∷ 125 ∷ [] }

-- A question, two calls and their results in the other order.
abbrev messages : List (ModelMessage Text)
messages =
    ModelMessage.user (104 ∷ [])
    ∷ ModelMessage.assistant none (call (97 ∷ []) ∷ call (98 ∷ []) ∷ [])
    ∷ ModelMessage.tool (98 ∷ []) (49 ∷ [])
    ∷ ModelMessage.tool (97 ∷ []) (50 ∷ [])
    ∷ []

messages-valid : validate_messages json messages ≡ ok tt
unfolding validate_messages validate_messages_from validate_assistant validate_calls validate_name
    is_blank interrupts extend_pending with_member without contains Text-discrete ℕ_discrete
messages-valid = refl

-- Another question before the second result interrupts the group.
messages-interrupted :
    validate_messages json
      (ModelMessage.assistant none (call (97 ∷ []) ∷ []) ∷ ModelMessage.user (104 ∷ []) ∷ [])
    ≡ err (ModelProtocolError.interrupted_tool_group 1)
unfolding validate_messages validate_messages_from validate_assistant validate_calls validate_name
    is_blank interrupts extend_pending with_member without contains Text-discrete ℕ_discrete
messages-interrupted = refl

validate_messages_iff_example :
    (validate_messages json messages ≡ ok tt) ↔ ((messages ≢ []) × Conversation json messages)
validate_messages_iff_example = validate_messages_iff json messages

abbrev request : GenerationRequest Text
request = record {
  messages = messages;
  constraint =
      GenerationConstraint.native_tools
        (record { name = 116 ∷ []; description = []; parameters = 123 ∷ 125 ∷ [] } ∷ [])
        ToolChoice.required;
}

abbrev answer : GenerationResponse Text
answer = record {
  content = none;
  tool_calls = call (99 ∷ []) ∷ [];
  incomplete_tool_calls = [];
  finish_reason = FinishReason.tool_calls;
  usage = record { input_tokens = some 3; output_tokens = none; total_tokens = none };
}

answer-valid : validate_shape_for json answer request ≡ ok tt
unfolding validate_messages validate_messages_from validate_assistant validate_calls validate_name
    is_blank interrupts extend_pending with_member without contains Text-discrete ℕ_discrete
    validate_shape_for validate_shape validate_constraint validate_tools validate_schema_shape
    validate_choice validate_complete check_reason check_constraint check_visible demands_call
    differs
answer-valid = refl

validate_shape_for-continues_example :
    (message : ModelMessage Text) × (into_message json answer ≡ ok message)
    × (validate_messages json
          (request.messages ++ message ∷ results_of json ((99 ∷ [], 49 ∷ []) ∷ []))
        ≡ ok tt)
validate_shape_for-continues_example =
    validate_shape_for-continues json request answer ((99 ∷ [], 49 ∷ []) ∷ []) answer-valid
      (Perm.refl (ids json answer.tool_calls))
