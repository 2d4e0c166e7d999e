-- ===== src/Core/Accumulator.antt =====
-- crates/core/core/src/model.rs: `GenerationAccumulator`, which collects the deltas of a stream
-- within limits. A call returns the accumulator as it leaves it, beside its result.
pub mod Bounds
pub mod Contents
use jingwei.Base.{
  ℕ, ◌+◌, Bool, true, false, Option, none, some, List, [], ◌∷◌, ◌++◌, length, any, ltb, leb, ◌==◌,
  if◌then◌else◌, is_yes,
}
use jingwei.Base.Result.{Result, ok, err, ◌>>=◌, ok_or}
use jingwei.Base.Text.{Text, byte_len}
use jingwei.Base.Word.{checked_add, saturating_add}
use jingwei.Core.Json.{Json}
use jingwei.Core.Model.{
  ModelProtocolError, ModelToolCall, FinishReason, TokenUsage, ToolCallFragment, GenerationResponse,
  GenerationLimits, GenerationDelta, GenerationPartial, GenerationResponse-discrete,
  new_provider_id,
}
use jingwei.Core.Request.{Verdict}
use jingwei.Core.Response.{or_empty}

pub record Accumulator : Type 0 where
  pub partial : GenerationPartial
  pub limits : GenerationLimits
  pub bytes : ℕ

-- `GenerationAccumulator::new`.
unfoldable pub new_accumulator : GenerationLimits → Accumulator
new_accumulator limits = record {
  partial = record { content = none; tool_calls = [] };
  limits = limits;
  bytes = 0;
}

-- The bytes that a delta adds.
unfoldable pub added_bytes : GenerationDelta → ℕ
added_bytes (GenerationDelta.text text) = byte_len text
added_bytes (GenerationDelta.tool_call index id name arguments) =
    saturating_add (saturating_add (byte_len (or_empty id)) (byte_len (or_empty name)))
      (byte_len arguments)

-- `content.get_or_insert_with(String::new).push_str(text)`.
unfoldable pub push_content : GenerationPartial → Text → GenerationPartial
push_content partial text = record partial { content = some (or_empty partial.content ++ text) }

-- The three `push_str` of a fragment.
unfoldable pub extend_fragment :
    Option Text → Option Text → Text → ToolCallFragment → ToolCallFragment
extend_fragment id name arguments call = record call {
  id = call.id ++ or_empty id;
  name = call.name ++ or_empty name;
  arguments = call.arguments ++ arguments;
}

unfoldable pub empty_fragment : ℕ → ToolCallFragment
empty_fragment index = record { index = index; id = []; name = []; arguments = [] }

-- `position(|call| call.index == *index)`, as whether there is one.
unfoldable pub has_index : ℕ → List ToolCallFragment → Bool
has_index index = any (λ call. call.index == index)

-- The update of the fragment at that position: the first with the index.
unfoldable pub update_at :
    ℕ → (ToolCallFragment → ToolCallFragment) → List ToolCallFragment → List ToolCallFragment
update_at index change [] = []
update_at index change (call ∷ calls) =
    if call.index == index then change call ∷ calls else call ∷ update_at index change calls

-- The fragments with the delta, or none where one more is not allowed.
unfoldable pub push_fragment :
    ℕ
    → ℕ
    → (ToolCallFragment → ToolCallFragment)
    → List ToolCallFragment
    → Option (List ToolCallFragment)
push_fragment max_tool_calls index change calls =
    if has_index index calls
    then some (update_at index change calls)
    else if leb max_tool_calls (length calls)
    then none
    else some (calls ++ change (empty_fragment index) ∷ [])

unfoldable pub push_partial : ℕ → GenerationPartial → GenerationDelta → Option GenerationPartial
push_partial max_tool_calls partial (GenerationDelta.text text) = some (push_content partial text)
push_partial max_tool_calls partial (GenerationDelta.tool_call index id name arguments) =
    elim (push_fragment max_tool_calls index (extend_fragment id name arguments)
      partial.tool_calls) [
        | none ↦ none
        | some calls ↦ some (record partial { tool_calls = calls })
      ]

-- The accumulator that `push` leaves behind, where it goes through.
unfoldable pub accepted : Accumulator → GenerationDelta → Option Accumulator
accepted acc delta = elim (checked_add acc.bytes (added_bytes delta)) [
  | none ↦ none
  | some total ↦
      if ltb acc.limits.max_output_bytes total
      then none
      else elim (push_partial acc.limits.max_tool_calls acc.partial delta) [
        | none ↦ none
        | some partial ↦ some (record acc { partial = partial; bytes = total })
      ]
]

-- `GenerationAccumulator::push`: every refusal is `OutputLimitExceeded`, before any change.
unfoldable pub push : Accumulator → GenerationDelta → Accumulator × Verdict
push acc delta = elim (accepted acc delta) [
  | none ↦ (acc, err ModelProtocolError.output_limit_exceeded)
  | some next ↦ (next, ok tt)
]

-- The accumulator after the deltas of a stream, with or without refusals among them.
unfoldable pub push_all : Accumulator → List GenerationDelta → Accumulator
push_all acc [] = acc
push_all acc (delta ∷ deltas) = push_all (push acc delta).0 deltas

-- `fragments.sort_by_key(|call| call.index)`, which is stable.
unfoldable pub insert_fragment : ToolCallFragment → List ToolCallFragment → List ToolCallFragment
insert_fragment call [] = call ∷ []
insert_fragment call (other ∷ others) =
    if leb call.index other.index
    then call ∷ other ∷ others
    else other ∷ insert_fragment call others

unfoldable pub sort_fragments : List ToolCallFragment → List ToolCallFragment
sort_fragments [] = []
sort_fragments (call ∷ calls) = insert_fragment call (sort_fragments calls)

-- `matches!(finish_reason, FinishReason::Stop | FinishReason::ToolCalls)`.
unfoldable pub completes : FinishReason → Bool
completes FinishReason.stop = true
completes FinishReason.tool_calls = true
completes FinishReason.length = false
completes FinishReason.content_filtered = false
completes FinishReason.unknown = false
completes (FinishReason.other code) = false

module _ {Value : Type 0} (json : Json Value) where
  -- The loop that parses fragments as calls.
  unfoldable pub parse_calls :
      List ToolCallFragment → Result ModelProtocolError (List (ModelToolCall Value))
  parse_calls [] = ok []
  parse_calls (fragment ∷ fragments) = new_provider_id fragment.id >>= λ id.
      ok_or (json.from_str fragment.arguments) ModelProtocolError.invalid_json_output
      >>= λ arguments. parse_calls fragments >>= λ calls.
          ok (record { id = id; name = fragment.name; arguments = arguments } ∷ calls)

  -- `GenerationAccumulator::response`.
  unfoldable pub response :
      Accumulator → FinishReason → TokenUsage → Result ModelProtocolError (GenerationResponse Value)
  response acc reason usage =
      let fragments = sort_fragments acc.partial.tool_calls in
      let answer : List (ModelToolCall Value) → List ToolCallFragment → GenerationResponse Value =
        λ calls incomplete. record {
          content = acc.partial.content;
          tool_calls = calls;
          incomplete_tool_calls = incomplete;
          finish_reason = reason;
          usage = usage;
        } in
      if completes reason
      then parse_calls fragments >>= (λ calls. ok (answer calls []))
      else ok (answer [] fragments)

  -- `GenerationAccumulator::verify_terminal`.
  unfoldable pub verify_terminal : Accumulator → GenerationResponse Value → Verdict
  verify_terminal acc terminal = response acc terminal.finish_reason terminal.usage >>= λ collected.
      if is_yes (GenerationResponse-discrete json.discrete collected terminal)
      then ok tt
      else err ModelProtocolError.stream_terminal_mismatch
