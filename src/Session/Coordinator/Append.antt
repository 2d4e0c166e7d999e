-- ===== src/Session/Coordinator/Append.antt =====
-- crates/session/runtime/src/coordinator.rs: `append` and `reconcile_indeterminate`.
use jingwei.Base.{
  ℕ, suc, ◌==◌, ltb, Bool, false, ◌&&◌, none, some, List, [], ◌∷◌, length, is_yes, if◌then◌else◌,
}
use jingwei.Base.Result.{Result, ok, err}
use jingwei.Base.Text.{Text, text_eq}
use jingwei.Base.Word.{u64_mod}
use jingwei.Core.Event.{SessionEvent, SessionEvent-discrete, SessionEventKind-discrete}
use jingwei.Session.Vocabulary.{
  PersistAppendOutcome, SessionPersistenceError, SessionRuntimeError, SessionEventDraft,
}
use jingwei.Session.Log.{validate_physical_log}
use jingwei.Session.Coordinator.{
  ActiveTurn, PoisonedFailure, CoordinatorState, Output, runtime_error,
}
use jingwei.Session.Coordinator.Turn.{
  Answer, Failure, failure_of, lease_of, drop, take, Id-discrete, mark_terminal, push_event, poison,
  find_event, candidate_event, proven_absent, diverged, reused, reply_error, reply_persistence,
}

module _ {Value : Type 0} (Value-discrete : Discrete Value) where
  unfoldable pub Log-discrete : Discrete (List (SessionEvent Value))
  Log-discrete = hlevel (SessionEvent-discrete Value-discrete)

  -- `restored[head] == candidate`, for `restored[head..]`.
  unfoldable pub starts_with : SessionEvent Value → List (SessionEvent Value) → Bool
  starts_with event [] = false
  starts_with event (first ∷ rest) = is_yes (SessionEvent-discrete Value-discrete first event)

  unfoldable pub extends_by_one :
      List (SessionEvent Value) → List (SessionEvent Value) → SessionEvent Value → Bool
  extends_by_one restored events event =
      length restored == suc (length events)
      && is_yes (Log-discrete (take (length events) restored) events)
      && starts_with event (drop (length events) restored)

  -- `reconcile_indeterminate` after the log has been read and checked: with what was restored.
  unfoldable pub reconcile_with :
      CoordinatorState Value
      → SessionEvent Value
      → SessionPersistenceError
      → ℕ
      → List (SessionEvent Value)
      → Answer Value
  reconcile_with state event original response restored =
      if is_yes (Log-discrete restored state.events)
      then reply_persistence state response (proven_absent original)
      else if extends_by_one restored state.events event
      then (
        mark_terminal (record state { events = restored }) event,
        Output.observed event ∷ Output.appended response (ok event) ∷ [],
      )
      else reply_persistence (poison state (PoisonedFailure.persistence (diverged event))) response
          (diverged event)

  unfoldable pub reconcile_indeterminate :
      Text
      → CoordinatorState Value
      → SessionEvent Value
      → SessionPersistenceError
      → ℕ
      → Result SessionPersistenceError (List (SessionEvent Value))
      → Answer Value
  reconcile_indeterminate session_id state event original response (err failure) =
      reply_persistence (poison state (PoisonedFailure.persistence failure)) response failure
  reconcile_indeterminate session_id state event original response (ok restored) =
      elim (validate_physical_log session_id restored) [
        | err failure ↦
            reply_error (poison state (PoisonedFailure.invalid_history failure)) response
              (SessionRuntimeError.invalid_history failure)
        | ok _ ↦ reconcile_with state event original response restored
      ]

  -- The match on the answer of `commit_durable`, given what a later `load` answers.
  unfoldable pub commit :
      Text
      → CoordinatorState Value
      → SessionEvent Value
      → ℕ
      → Result SessionPersistenceError PersistAppendOutcome
      → Result SessionPersistenceError (List (SessionEvent Value))
      → Answer Value
  commit session_id state event response (ok PersistAppendOutcome.appended) reloaded =
      (push_event state event, Output.observed event ∷ Output.appended response (ok event) ∷ [])
  commit session_id state event response (ok PersistAppendOutcome.replayed_exact) reloaded =
      (push_event state event, Output.appended response (ok event) ∷ [])
  commit session_id state event response (err failure) reloaded = elim (failure_of failure) [
    | Failure.unknown ↦ reconcile_indeterminate session_id state event failure response reloaded
    | Failure.fatal ↦
        reply_persistence (poison state (PoisonedFailure.persistence failure)) response failure
    | Failure.harmless ↦ reply_persistence state response failure
  ]

  -- The content of an event is that of a draft of the turn.
  unfoldable pub repeats : SessionEvent Value → Text → SessionEventDraft Value → Bool
  repeats existing turn_id draft =
      text_eq existing.turn_id turn_id
      && is_yes (Id-discrete existing.generation_id draft.generation_id)
      && is_yes (Id-discrete existing.message_id draft.message_id)
      && is_yes (SessionEventKind-discrete Value-discrete existing.kind draft.kind)

  -- `append` once the turn is found and the log is not poisoned.
  unfoldable pub append_new :
      Text
      → CoordinatorState Value
      → ActiveTurn
      → SessionEventDraft Value
      → ℕ
      → Result SessionPersistenceError PersistAppendOutcome
      → Result SessionPersistenceError (List (SessionEvent Value))
      → Answer Value
  append_new session_id state turn draft response committed reloaded = elim turn.terminal_seq [
    | some terminal_seq ↦
        reply_error state response
          (SessionRuntimeError.turn_closed session_id turn.turn_id terminal_seq)
    | none ↦
        if ltb (length state.events) u64_mod
        then commit session_id state
            (candidate_event session_id turn.turn_id (length state.events) draft) response committed
            reloaded
        else reply_error state response SessionRuntimeError.sequence_exhausted
  ]

  unfoldable pub append_to :
      Text
      → CoordinatorState Value
      → ActiveTurn
      → SessionEventDraft Value
      → ℕ
      → Result SessionPersistenceError PersistAppendOutcome
      → Result SessionPersistenceError (List (SessionEvent Value))
      → Answer Value
  append_to session_id state turn draft response committed reloaded = elim state.poisoned [
    | some failure ↦ reply_error state response (runtime_error failure)
    | none ↦ elim (find_event draft.event_id state.events) [
      | some existing ↦
          if repeats existing turn.turn_id draft
          then (state, Output.appended response (ok existing) ∷ [])
          else reply_persistence state response (reused existing draft.event_id)
      | none ↦ append_new session_id state turn draft response committed reloaded
    ]
  ]

  unfoldable pub append :
      Text
      → CoordinatorState Value
      → ℕ
      → Text
      → SessionEventDraft Value
      → ℕ
      → Result SessionPersistenceError PersistAppendOutcome
      → Result SessionPersistenceError (List (SessionEvent Value))
      → Answer Value
  append session_id state token turn_id draft response committed reloaded =
      elim (lease_of state.active token turn_id) [
        | none ↦ reply_error state response (SessionRuntimeError.turn_not_active session_id turn_id)
        | some turn ↦ append_to session_id state turn draft response committed reloaded
      ]
