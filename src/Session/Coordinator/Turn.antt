-- ===== src/Session/Coordinator/Turn.antt =====
-- crates/session/runtime/src/coordinator.rs: `settle`, `mark_terminal` and what `append` is made of.
use jingwei.Base.{
  ℕ, zero, suc, ◌==◌, Bool, true, false, ◌&&◌, Option, none, some, List, [], ◌∷◌, ◌++◌,
  if◌then◌else◌,
}
use jingwei.Base.Result.{ok, err}
use jingwei.Base.Text.{Text, Text-discrete, text_eq, literal}
use jingwei.Core.Event.{SessionEvent, SessionEventKind}
use jingwei.Session.Vocabulary.{
  CommitCertainty, SessionPersistenceError, SessionRuntimeError, SessionEventDraft,
}
use jingwei.Session.Coordinator.{
  ActiveTurn, PoisonedFailure, CoordinatorState, Output, runtime_error,
}

-- `state.active.filter(|active| active.token == token && active.turn_id == turn_id)`.
unfoldable pub lease_of : Option ActiveTurn → ℕ → Text → Option ActiveTurn
lease_of none token turn_id = none
lease_of (some turn) token turn_id =
    if turn.token == token && text_eq turn.turn_id turn_id then some turn else none

-- `&state.events[from..]`.
unfoldable pub drop {ℓ} : {A : Type ℓ} → ℕ → List A → List A
drop zero xs = xs
drop (suc n) [] = []
drop (suc n) (x ∷ xs) = drop n xs

-- `&events[..count]`.
unfoldable pub take {ℓ} : {A : Type ℓ} → ℕ → List A → List A
take zero xs = []
take (suc n) [] = []
take (suc n) (x ∷ xs) = x ∷ take n xs

unfoldable pub Id-discrete : Discrete (Option Text)
Id-discrete = hlevel Text-discrete

-- The turn with the sequence number of its terminal event.
unfoldable pub close_turn : Option ActiveTurn → Text → ℕ → Option ActiveTurn
close_turn none turn_id seq = none
close_turn (some turn) turn_id seq =
    if text_eq turn.turn_id turn_id
    then some (record turn { terminal_seq = some seq })
    else some turn

-- What a failed commit means: it may have happened, the log can no longer be trusted, or neither.
pub data Failure : Type 0 where
  unknown fatal harmless : Failure

unfoldable pub failure_of : SessionPersistenceError → Failure
failure_of (SessionPersistenceError.io _ _ CommitCertainty.indeterminate) = Failure.unknown
failure_of (SessionPersistenceError.io _ _ CommitCertainty.definitely_not_committed) =
    Failure.harmless
failure_of (SessionPersistenceError.serialization _) = Failure.harmless
failure_of (SessionPersistenceError.corrupt_log _ _) = Failure.fatal
failure_of (SessionPersistenceError.invalid_history _) = Failure.fatal
failure_of (SessionPersistenceError.conflict _ _ _) = Failure.fatal

abbrev pub Answer : Type 0 → Type 0
Answer Value = CoordinatorState Value × List (Output Value)

-- The `Io` error after a reconciliation that found nothing.
unfoldable pub proven_absent : SessionPersistenceError → SessionPersistenceError
proven_absent (SessionPersistenceError.io operation message certainty) =
    SessionPersistenceError.io operation
      (message ++ literal "; physical reconciliation proved the candidate was not committed")
      CommitCertainty.definitely_not_committed
proven_absent (SessionPersistenceError.serialization message) =
    SessionPersistenceError.serialization message
proven_absent (SessionPersistenceError.corrupt_log index message) =
    SessionPersistenceError.corrupt_log index message
proven_absent (SessionPersistenceError.invalid_history failure) =
    SessionPersistenceError.invalid_history failure
proven_absent (SessionPersistenceError.conflict seq id message) =
    SessionPersistenceError.conflict seq id message

module _ {Value : Type 0} where
  -- `matches!(event.kind, Done { .. } | Error { .. })`.
  unfoldable pub is_terminal : SessionEventKind Value → Bool
  is_terminal (SessionEventKind.done status artifact) = true
  is_terminal (SessionEventKind.error code message retryable) = true
  is_terminal (SessionEventKind.user_message text) = false
  is_terminal (SessionEventKind.assistant_delta text) = false
  is_terminal (SessionEventKind.assistant_message version text) = false
  is_terminal (SessionEventKind.model_request request) = false
  is_terminal (SessionEventKind.model_result answer) = false
  is_terminal (SessionEventKind.tool_call call) = false
  is_terminal (SessionEventKind.tool_result answer) = false
  is_terminal (SessionEventKind.task_run_report report) = false
  is_terminal (SessionEventKind.stage_progress stage status message) = false
  is_terminal (SessionEventKind.mode chosen decided_by reason) = false
  is_terminal (SessionEventKind.plan_ready plan) = false
  is_terminal (SessionEventKind.custom plugin kind payload) = false

  unfoldable pub mark_terminal :
      CoordinatorState Value → SessionEvent Value → CoordinatorState Value
  mark_terminal state event =
      if is_terminal event.kind
      then record state { active = close_turn state.active event.turn_id event.seq }
      else state

  -- `state.events.push(event)` and `mark_terminal`.
  unfoldable pub push_event : CoordinatorState Value → SessionEvent Value → CoordinatorState Value
  push_event state event =
      mark_terminal (record state { events = state.events ++ event ∷ [] }) event

  unfoldable pub poison : CoordinatorState Value → PoisonedFailure → CoordinatorState Value
  poison state failure = record state { poisoned = some failure }

  -- `state.events.iter().find(|event| event.event_id == id)`.
  unfoldable pub find_event : Text → List (SessionEvent Value) → Option (SessionEvent Value)
  find_event id [] = none
  find_event id (event ∷ events) =
      if text_eq event.event_id id then some event else find_event id events

  -- The event that a draft becomes.
  unfoldable pub candidate_event : Text → Text → ℕ → SessionEventDraft Value → SessionEvent Value
  candidate_event session_id turn_id seq draft = record {
    event_id = draft.event_id;
    session_id = session_id;
    turn_id = turn_id;
    generation_id = draft.generation_id;
    message_id = draft.message_id;
    seq = seq;
    kind = draft.kind;
  }

  unfoldable pub diverged : SessionEvent Value → SessionPersistenceError
  diverged event =
      SessionPersistenceError.conflict event.seq event.event_id
        (literal "durable log diverged while reconciling an indeterminate commit")

  unfoldable pub reused : SessionEvent Value → Text → SessionPersistenceError
  reused existing id =
      SessionPersistenceError.conflict existing.seq id
        (literal "event ID " ++ id ++ literal " was reused with different content")

  unfoldable pub reply_error : CoordinatorState Value → ℕ → SessionRuntimeError Value → Answer Value
  reply_error state response failure = (state, Output.appended response (err failure) ∷ [])

  unfoldable pub reply_persistence :
      CoordinatorState Value → ℕ → SessionPersistenceError → Answer Value
  reply_persistence state response failure =
      reply_error state response (SessionRuntimeError.persistence failure)

  unfoldable pub settle_turn : Text → CoordinatorState Value → ℕ → Text → ℕ → Answer Value
  settle_turn session_id state token turn_id response = elim (lease_of state.active token turn_id) [
    | none ↦ (
      state,
      Output.settled response (err (SessionRuntimeError.turn_not_active session_id turn_id)) ∷ [],
    )
    | some turn ↦ elim state.poisoned [
      | some failure ↦ (
        record state { active = none },
        Output.settled response (err (runtime_error failure)) ∷ [],
      )
      | none ↦ (
        record state { active = none },
        Output.settled response
              (ok (record { turn_id = turn.turn_id; events = drop turn.start_seq state.events }))
            ∷ [],
      )
    ]
  ]
