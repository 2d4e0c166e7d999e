-- ===== src/Core/Response/Continues.antt =====
-- crates/core/core/src/model.rs: how an accepted response goes on with the conversation.
use mathlib.Core.List.{Perm, append-nil}
use jingwei.Base.{◌≡◌, ◌≢◌, refl, subst, List, [], ◌∷◌, ◌++◌, map, arith}
use jingwei.Base.Result.{ok, ok->>}
use jingwei.Base.Text.{Text}
use jingwei.Core.Json.{Json}
use jingwei.Core.Model.{ModelMessage, GenerationRequest, GenerationResponse}
use jingwei.Core.Request.{validate_messages, validate_shape}
use jingwei.Core.Request.Groups.{
  ids, results_of, IsProposal, Conversation, Conversation-append, validate_assistant_iff,
  validate_messages_iff,
}
use jingwei.Core.Response.{validate_complete, into_message, validate_shape_for}

module _ {Value : Type 0} (json : Json Value) where
  append-≢ : (first second : List (ModelMessage Value)) → first ≢ [] → first ++ second ≢ []
  append-≢ [] second h = λ e. h refl
  append-≢ (message ∷ first) second h = λ e. cc

  complete-IsProposal :
      (response : GenerationResponse Value)
      → validate_complete json response ≡ ok tt
      → IsProposal json response.content response.tool_calls
  unfolding validate_complete
  complete-IsProposal response e =
      (validate_assistant_iff json response.content response.tool_calls).0 (ground arith)

  -- A response that the checks accept for a request becomes an assistant message, and the request's
  -- messages with it and one result for each of its calls, in any order, are again accepted.
  pub validate_shape_for-continues :
      (request : GenerationRequest Value) (response : GenerationResponse Value)
      (results : List (Text × Text))
      → validate_shape_for json response request ≡ ok tt
      → Perm (map (λ r. r.0) results) (ids json response.tool_calls)
      → (message : ModelMessage Value) × (into_message json response ≡ ok message)
        × (validate_messages json (request.messages ++ message ∷ results_of json results) ≡ ok tt)
  unfolding validate_shape_for validate_shape into_message
  validate_shape_for-continues request response results e p =
      let complete : validate_complete json response ≡ ok tt = ground arith in
      let before : validate_messages json request.messages ≡ ok tt = ground arith in
      let (some_message, conversation) = (validate_messages_iff json request.messages).0 before in
      let message = ModelMessage.assistant response.content response.tool_calls in
      let group =
        Conversation.group (complete-IsProposal response complete) results p
          Conversation.finished in
      let after : Conversation json (message ∷ results_of json results) =
        subst (λ rest. Conversation json (message ∷ rest)) (append-nil (results_of json results))
          group in
      (
        message,
        ok->> (validate_complete json response) (ok message) complete,
        (validate_messages_iff json (request.messages ++ message ∷ results_of json results)).1 (
          append-≢ request.messages (message ∷ results_of json results) some_message,
          Conversation-append json request.messages (message ∷ results_of json results) conversation
              after,
        ),
      )
