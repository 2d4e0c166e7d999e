-- ===== src/Session/Coordinator/Silent.antt =====
-- crates/session/runtime/src/coordinator.rs: that an append answers no request for a turn.
use jingwei.Base.{ℕ, ◌≡◌, refl, List, length, Option-cases, inl, inr, arith}
use jingwei.Base.Result.{Result, ok, err}
use jingwei.Base.Text.{Text}
use jingwei.Core.Event.{SessionEvent}
use jingwei.Session.Vocabulary.{PersistAppendOutcome, SessionPersistenceError, SessionEventDraft}
use jingwei.Session.Coordinator.{ActiveTurn, CoordinatorState}
use jingwei.Session.Coordinator.Turn.{candidate_event, lease_of, reply_error, reply_persistence}
use jingwei.Session.Coordinator.Append.{
  reconcile_with, reconcile_indeterminate, commit, append_new, append_to, append,
}
use jingwei.Session.Coordinator.Waiters.{is_answer, answers}

module _ {Value : Type 0} (session_id : Text) (r : ℕ) where
  module _ (Value-discrete : Discrete Value) where
    reconcile_with-silent :
        (s : CoordinatorState Value) (event : SessionEvent Value)
        (original : SessionPersistenceError) (response : ℕ) (restored : List (SessionEvent Value))
        → answers r (reconcile_with Value-discrete s event original response restored).1 ≡ 0
    unfolding reconcile_with reply_persistence reply_error answers is_answer
    reconcile_with-silent s event original response restored = ground arith

    commit-silent :
        (s : CoordinatorState Value) (event : SessionEvent Value) (response : ℕ)
        (committed : Result SessionPersistenceError PersistAppendOutcome)
        (reloaded : Result SessionPersistenceError (List (SessionEvent Value)))
        → answers r (commit Value-discrete session_id s event response committed reloaded).1 ≡ 0
    unfolding commit reconcile_indeterminate reply_persistence reply_error answers is_answer
    commit-silent s event response (ok PersistAppendOutcome.appended) reloaded = refl
    commit-silent s event response (ok PersistAppendOutcome.replayed_exact) reloaded = refl
    commit-silent s event response (err failure) (err again) = ground arith
    commit-silent s event response (err failure) (ok restored) =
        ground (arith, reconcile_with-silent s event failure response restored)

    append_to-silent :
        (s : CoordinatorState Value) (turn : ActiveTurn) (draft : SessionEventDraft Value)
        (response : ℕ) (committed : Result SessionPersistenceError PersistAppendOutcome)
        (reloaded : Result SessionPersistenceError (List (SessionEvent Value)))
        → answers r (append_to Value-discrete session_id s turn draft response committed reloaded).1
          ≡ 0
    unfolding append_to append_new reply_persistence reply_error answers is_answer
    append_to-silent s turn draft response committed reloaded = ground (
      arith,
      commit-silent s (candidate_event session_id turn.turn_id (length s.events) draft) response
          committed reloaded,
    )

    pub append-silent :
        (s : CoordinatorState Value) (token : ℕ) (turn_id : Text) (draft : SessionEventDraft Value)
        (response : ℕ) (committed : Result SessionPersistenceError PersistAppendOutcome)
        (reloaded : Result SessionPersistenceError (List (SessionEvent Value)))
        → answers r
            (append Value-discrete session_id s token turn_id draft response committed reloaded).1
          ≡ 0
    unfolding append reply_error answers is_answer
    append-silent s token turn_id draft response committed reloaded =
        elim (Option-cases (lease_of s.active token turn_id)) [
          | inl none_held ↦ ground arith
          | inr (turn, held) ↦
              ground (arith, append_to-silent s turn draft response committed reloaded)
        ]
