-- ===== src/Session/Vocabulary.antt =====
-- crates/session/session/src/lib.rs: drafts, admissions, summaries and errors of a session.
use jingwei.Base.{ℕ, Option, none, some, List}
use jingwei.Base.Text.{Text}
use jingwei.Core.Event.{SessionEvent, SessionEventKind}

pub data CommitCertainty : Type 0 where
  definitely_not_committed indeterminate : CommitCertainty

pub data PersistAppendOutcome : Type 0 where
  appended replayed_exact : PersistAppendOutcome

-- The physical index, then what was expected and what was found, or the id.
pub data PhysicalLogError : Type 0 where
  wrong_session : ℕ → Text → Text → PhysicalLogError
  wrong_sequence : ℕ → ℕ → ℕ → PhysicalLogError
  duplicate_event_id : ℕ → Text → PhysicalLogError

pub data SessionPersistenceError : Type 0 where
  -- operation, message, certainty
  io : Text → Text → CommitCertainty → SessionPersistenceError
  serialization : Text → SessionPersistenceError
  -- physical index, message
  corrupt_log : ℕ → Text → SessionPersistenceError
  invalid_history : PhysicalLogError → SessionPersistenceError
  -- sequence, event id, message
  conflict : ℕ → Text → Text → SessionPersistenceError

pub data SessionRuntimeError (Value : Type 0) : Type 0 where
  -- turn, expected event, events
  invalid_message_settlement :
      Text → SessionEvent Value → List (SessionEvent Value) → SessionRuntimeError Value
  persistence : SessionPersistenceError → SessionRuntimeError Value
  invalid_history : PhysicalLogError → SessionRuntimeError Value
  stopped : SessionRuntimeError Value
  -- session, turn
  turn_not_active : Text → Text → SessionRuntimeError Value
  -- session, turn, sequence of the terminal event
  turn_closed : Text → Text → ℕ → SessionRuntimeError Value
  sequence_exhausted : SessionRuntimeError Value

pub record SessionEventDraft (Value : Type 0) : Type 0 where
  pub event_id : Text
  pub generation_id : Option Text
  pub message_id : Option Text
  pub kind : SessionEventKind Value

pub record TurnAdmission (Value : Type 0) : Type 0 where
  pub session_id : Text
  pub turn_id : Text
  pub history : List (SessionEvent Value)

pub record TurnCommitSummary (Value : Type 0) : Type 0 where
  pub turn_id : Text
  pub events : List (SessionEvent Value)

module _ {Value : Type 0} where
  -- `SessionEventDraft::new`, with the fresh id as an argument.
  unfoldable pub new_draft : Text → SessionEventKind Value → SessionEventDraft Value
  new_draft event_id kind = record {
    event_id = event_id;
    generation_id = none;
    message_id = none;
    kind = kind;
  }

  -- `SessionEventDraft::{with_generation_id,with_message_id}`.
  unfoldable pub with_generation_id : SessionEventDraft Value → Text → SessionEventDraft Value
  with_generation_id draft id = record draft { generation_id = some id }

  unfoldable pub with_message_id : SessionEventDraft Value → Text → SessionEventDraft Value
  with_message_id draft id = record draft { message_id = some id }
