-- ===== src/Session/Coordinator/Waiters.antt =====
-- crates/session/runtime/src/coordinator.rs: that no request for a turn is lost or answered twice.
use jingwei.Base.{
  ℕ, ◌+◌, ◌==◌, ◌≡◌, refl, ap, Bool, true, false, none, List, [], ◌∷◌, ◌++◌, map, if◌then◌else◌,
  inl, inr, arith,
}
use jingwei.Base.Result.{ok, err, Result-cases}
use jingwei.Base.Text.{Text}
use jingwei.Session.Vocabulary.{SessionRuntimeError}
use jingwei.Session.Coordinator.{CoordinatorState, Moment, Command, Output}
use jingwei.Session.Coordinator.Turn.{Answer, settle_turn}
use jingwei.Session.Coordinator.Commands.{
  reply_begin, admit_loaded, load_log, admit_turn, reject_pending, after, grant_from, grant_pending,
  on_begin, on_abandon, on_settle,
}

abbrev pub one_if : Bool → ℕ
one_if b = if b then 1 else 0

-- How often a channel stands in the queue.
unfoldable pub waiting : ℕ → List ℕ → ℕ
waiting r [] = 0
waiting r (w ∷ ws) = one_if (w == r) + waiting r ws

waiting-concat :
    (r w : ℕ) (queue : List ℕ) → waiting r (queue ++ w ∷ []) ≡ waiting r queue + one_if (w == r)
unfolding waiting
waiting-concat r w [] = omega arith
waiting-concat r w (v ∷ queue) = omega (arith, waiting-concat r w queue)

module _ {Value : Type 0} where
  -- How many answers to a request for a turn go to a channel.
  unfoldable pub is_answer : ℕ → Output Value → Bool
  is_answer r (Output.begun w outcome) = w == r
  is_answer r (Output.appended w outcome) = false
  is_answer r (Output.settled w outcome) = false
  is_answer r (Output.observed event) = false
  is_answer r (Output.shut_down w) = false

  unfoldable pub answers : ℕ → List (Output Value) → ℕ
  answers r [] = 0
  answers r (output ∷ outputs) = one_if (is_answer r output) + answers r outputs

  -- How often commands request a turn on a channel.
  unfoldable pub is_request : ℕ → Command Value → Bool
  is_request r (Command.begin w stopping moment) = w == r
  is_request r (Command.append token turn_id draft w committed reloaded) = false
  is_request r (Command.settle token turn_id w stopping moments) = false
  is_request r (Command.abandon token stopping moments) = false
  is_request r (Command.shutdown w) = false

  unfoldable pub requests : ℕ → List (Command Value) → ℕ
  requests r [] = 0
  requests r (command ∷ commands) = one_if (is_request r command) + requests r commands

  -- The requester has not hung up.
  pub record IsOpen (moment : Moment Value) : Type 0 where
    pub open_before : moment.closed_before ≡ false
    pub open_then : moment.closed ≡ false
    pub receives : moment.received ≡ true

  -- Nobody hangs up while a command is served.
  unfoldable pub IsAttended : Command Value → Type 0
  IsAttended (Command.begin w stopping moment) = IsOpen moment
  IsAttended (Command.append token turn_id draft w committed reloaded) = Unit
  IsAttended (Command.settle token turn_id w stopping moments) = (r : ℕ) → IsOpen (moments r)
  IsAttended (Command.abandon token stopping moments) = (r : ℕ) → IsOpen (moments r)
  IsAttended (Command.shutdown w) = Unit

  -- Answers that are given and those that are owed.
  abbrev pub account : ℕ → Answer Value → ℕ
  account r (state, sent) = answers r sent + waiting r state.pending

  pub answers-append :
      (r : ℕ) (first second : List (Output Value))
      → answers r (first ++ second) ≡ answers r first + answers r second
  unfolding answers
  answers-append r [] second = omega arith
  answers-append r (output ∷ first) second = omega (arith, answers-append r first second)

  answers-rejected :
      (rejected : ℕ → Output Value) (r : ℕ) (queue : List ℕ)
      → ((w : ℕ) → rejected w ≡ Output.begun w (err SessionRuntimeError.stopped))
      → answers r (map rejected queue) ≡ waiting r queue
  unfolding answers waiting is_answer
  answers-rejected rejected r [] same = refl
  answers-rejected rejected r (w ∷ queue) same =
      ground (arith, same w, answers-rejected rejected r queue same)

  module _ (session_id : Text) (r : ℕ) where
    admit_loaded-account :
        (s : CoordinatorState Value) (w : ℕ) (moment : Moment Value)
        → IsOpen moment
        → (answers r (admit_loaded session_id s w moment).1.1 ≡ one_if (w == r))
          × ((admit_loaded session_id s w moment).1.0.pending ≡ s.pending)
    unfolding admit_loaded reply_begin answers is_answer
    admit_loaded-account s w moment attended =
        ground (arith, attended.open_before, attended.open_then, attended.receives)

    load_log-pending :
        (s ready : CoordinatorState Value) (moment : Moment Value)
        → load_log session_id s moment ≡ ok ready
        → ready.pending ≡ s.pending
    unfolding load_log
    load_log-pending s ready moment e = ground arith

    admit_turn-account :
        (s : CoordinatorState Value) (w : ℕ) (moment : Moment Value)
        → IsOpen moment
        → (answers r (admit_turn session_id s w moment).1.1 ≡ one_if (w == r))
          × ((admit_turn session_id s w moment).1.0.pending ≡ s.pending)
    unfolding admit_turn reply_begin answers is_answer
    admit_turn-account s w moment attended = elim (Result-cases (load_log session_id s moment)) [
      | inl (failure, refused) ↦ ground (arith, attended.open_then)
      | inr (ready, loading) ↦ ground (
        arith,
        attended.open_then,
        admit_loaded-account ready w moment attended,
        load_log-pending s ready moment loading,
      )
    ]

    grant_from-account :
        (moments : ℕ → Moment Value) (queue : List ℕ) (s : CoordinatorState Value)
        → ((w : ℕ) → IsOpen (moments w))
        → account r (grant_from session_id moments queue s) ≡ waiting r queue
    unfolding grant_from after answers waiting
    grant_from-account moments [] s attended = refl
    grant_from-account moments (w ∷ queue) s attended =
        let attempted = record s { pending = queue } in
        let (tried, sent) = (admit_turn session_id attempted w (moments w)).1 in
        let (answered, queued) = admit_turn-account attempted w (moments w) (attended w) in
        ground (
          arith,
          (attended w).open_before,
          answered,
          ap (waiting r) queued,
          grant_from-account moments queue tried attended,
          answers-append r sent (grant_from session_id moments queue tried).1,
        )

    pub reject_pending-account :
        (s : CoordinatorState Value) → account r (reject_pending s) ≡ waiting r s.pending
    unfolding reject_pending waiting
    reject_pending-account s = omega (
      arith,
      answers-rejected (λ w. Output.begun w (err SessionRuntimeError.stopped)) r s.pending
          (λ w. refl),
    )

    grant_pending-account :
        (stopping : Bool) (moments : ℕ → Moment Value) (s : CoordinatorState Value)
        → ((w : ℕ) → IsOpen (moments w))
        → account r (grant_pending session_id stopping moments s) ≡ waiting r s.pending
    unfolding grant_pending
    grant_pending-account true moments s attended = reject_pending-account s
    grant_pending-account false moments s attended = grant_from-account moments s.pending s attended

    pub on_begin-account :
        (s : CoordinatorState Value) (w : ℕ) (stopping : Bool) (moment : Moment Value)
        → IsOpen moment
        → account r (on_begin session_id s w stopping moment)
          ≡ waiting r s.pending + one_if (w == r)
    unfolding on_begin answers is_answer
    on_begin-account s w stopping moment attended =
        let (answered, queued) = admit_turn-account s w moment attended in
        ground (
          arith,
          attended.open_before,
          answered,
          ap (waiting r) queued,
          waiting-concat r w s.pending,
        )

    settle-account :
        (s : CoordinatorState Value) (token : ℕ) (turn_id : Text) (response : ℕ)
        → (answers r (settle_turn session_id s token turn_id response).1 ≡ 0)
          × ((settle_turn session_id s token turn_id response).0.pending ≡ s.pending)
    unfolding settle_turn answers is_answer
    settle-account s token turn_id response = ground arith

    pub on_settle-account :
        (s : CoordinatorState Value) (token : ℕ) (turn_id : Text) (response : ℕ) (stopping : Bool)
        (moments : ℕ → Moment Value)
        → ((w : ℕ) → IsOpen (moments w))
        → account r (on_settle session_id s token turn_id response stopping moments)
          ≡ waiting r s.pending
    unfolding on_settle after
    on_settle-account s token turn_id response stopping moments attended =
        let (settled, sent) = settle_turn session_id s token turn_id response in
        let (silent, queued) = settle-account s token turn_id response in
        omega (
          arith,
          silent,
          ap (waiting r) queued,
          grant_pending-account stopping moments settled attended,
          answers-append r sent (grant_pending session_id stopping moments settled).1,
        )

    pub on_abandon-account :
        (s : CoordinatorState Value) (token : ℕ) (stopping : Bool) (moments : ℕ → Moment Value)
        → ((w : ℕ) → IsOpen (moments w))
        → account r (on_abandon session_id s token stopping moments) ≡ waiting r s.pending
    unfolding on_abandon answers
    on_abandon-account s token stopping moments attended =
        ground (arith, grant_pending-account stopping moments (record s { active = none }) attended)
