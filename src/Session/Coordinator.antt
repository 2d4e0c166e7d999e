-- ===== src/Session/Coordinator.antt =====
-- crates/session/runtime/src/coordinator.rs: the task that owns a session's log, one command after
-- the other. A response channel is a number; what a command sends and tells observers is a list.
-- What the code reads from outside (the stopping flag, the closed channels, the provider's answers
-- and the fresh turn ids) is an argument.
pub mod Turn
pub mod Append
pub mod Effects
pub mod Invariant
pub mod Commands
pub mod Steps
pub mod Preserved
pub mod Orderly
pub mod Summary
pub mod Waiters
pub mod Silent
pub mod Liveness
pub mod Queue
use jingwei.Base.{ℕ, Option, none, Bool, false, List, []}
use jingwei.Base.Result.{Result}
use jingwei.Base.Text.{Text}
use jingwei.Core.Event.{SessionEvent}
use jingwei.Session.Vocabulary.{
  PersistAppendOutcome, SessionEventDraft, SessionPersistenceError, PhysicalLogError,
  SessionRuntimeError, TurnAdmission, TurnCommitSummary,
}

pub record ActiveTurn : Type 0 where
  pub token : ℕ
  pub turn_id : Text
  pub start_seq : ℕ
  pub terminal_seq : Option ℕ

pub data PoisonedFailure : Type 0 where
  persistence : SessionPersistenceError → PoisonedFailure
  invalid_history : PhysicalLogError → PoisonedFailure

pub record CoordinatorState (Value : Type 0) : Type 0 where
  pub loaded : Bool
  pub events : List (SessionEvent Value)
  pub active : Option ActiveTurn
  pub next_token : ℕ
  pub pending : List ℕ
  pub poisoned : Option PoisonedFailure

-- `AdmissionGrant`: the admission, and the token of its `LeaseRelease`.
pub record AdmissionGrant (Value : Type 0) : Type 0 where
  pub admission : TurnAdmission Value
  pub token : ℕ

pub data Output (Value : Type 0) : Type 0 where
  begun : ℕ → Result (SessionRuntimeError Value) (AdmissionGrant Value) → Output Value
  appended : ℕ → Result (SessionRuntimeError Value) (SessionEvent Value) → Output Value
  settled : ℕ → Result (SessionRuntimeError Value) (TurnCommitSummary Value) → Output Value
  -- an event that the observers are told of
  observed : SessionEvent Value → Output Value
  shut_down : ℕ → Output Value

-- What one attempt at an admission reads from outside: whether the channel is closed before it and
-- at its start, the stopping flag before and after loading, the provider's log, whether the
-- coordinator's handle is alive, the fresh turn id, and whether the grant is received.
pub record Moment (Value : Type 0) : Type 0 where
  pub closed_before : Bool
  pub closed : Bool
  pub stopping_first : Bool
  pub answer : Result SessionPersistenceError (List (SessionEvent Value))
  pub stopping_then : Bool
  pub alive : Bool
  pub turn_id : Text
  pub received : Bool

-- A command, with the response channel it carries and what serving it reads from outside.
pub data Command (Value : Type 0) : Type 0 where
  begin : ℕ → Bool → Moment Value → Command Value
  append :
      ℕ
      → Text
      → SessionEventDraft Value
      → ℕ
      → Result SessionPersistenceError PersistAppendOutcome
      → Result SessionPersistenceError (List (SessionEvent Value))
      → Command Value
  settle : ℕ → Text → ℕ → Bool → (ℕ → Moment Value) → Command Value
  abandon : ℕ → Bool → (ℕ → Moment Value) → Command Value
  shutdown : ℕ → Command Value

module _ {Value : Type 0} where
  -- `PoisonedFailure::runtime_error`.
  unfoldable pub runtime_error : PoisonedFailure → SessionRuntimeError Value
  runtime_error (PoisonedFailure.persistence error) = SessionRuntimeError.persistence error
  runtime_error (PoisonedFailure.invalid_history error) = SessionRuntimeError.invalid_history error

  -- `CoordinatorState::default`.
  unfoldable pub default_state : CoordinatorState Value
  default_state = record {
    loaded = false;
    events = [];
    active = none;
    next_token = 1;
    pending = [];
    poisoned = none;
  }
