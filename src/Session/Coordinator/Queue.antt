-- ===== src/Session/Coordinator/Queue.antt =====
-- crates/session/runtime/src/coordinator.rs: when requests for a turn wait.
use jingwei.Base.{
  ℕ, ◌≡◌, refl, sym, ap, ◌∙◌, Bool, true, false, Option, none, some, List, [], ◌∷◌, is_some, inl,
  inr, by_test, arith,
}
use jingwei.Base.Result.{ok, Result-cases}
use jingwei.Base.Text.{Text}
use jingwei.Session.Vocabulary.{SessionEventDraft}
use jingwei.Session.Coordinator.{ActiveTurn, CoordinatorState, Moment, Command, default_state}
use jingwei.Session.Coordinator.Turn.{Answer, settle_turn, close_turn}
use jingwei.Session.Coordinator.Append.{append}
use jingwei.Session.Coordinator.Effects.{Effect, append-Effect}
use jingwei.Session.Coordinator.Commands.{
  reply_begin, admit_loaded, load_log, admit_turn, reject_pending, after, grant_from, grant_pending,
  on_begin, on_abandon, on_settle, Coordinator, keep, serve, serve_all, fresh_coordinator,
}

-- Without a lease nobody waits.
abbrev pub IsServed : {Value : Type 0} → CoordinatorState Value → Type 0
IsServed s = is_some s.active ≡ false → s.pending ≡ []

is_some-close_turn :
    (o : Option ActiveTurn) (turn_id : Text) (seq : ℕ)
    → is_some (close_turn o turn_id seq) ≡ is_some o
unfolding close_turn
is_some-close_turn none turn_id seq = refl
is_some-close_turn (some turn) turn_id seq = ground arith

module _ {Value : Type 0} (session_id : Text) where
  load_log-active :
      (s ready : CoordinatorState Value) (moment : Moment Value)
      → load_log session_id s moment ≡ ok ready
      → (ready.pending ≡ s.pending) × (ready.active ≡ s.active)
  unfolding load_log
  load_log-active s ready moment e = ground arith

  admit_loaded-active :
      (s : CoordinatorState Value) (w : ℕ) (moment : Moment Value)
      → let (granted, (t, sent)) = admit_loaded session_id s w moment in
        is_some s.active ≡ false → (is_some t.active ≡ granted) × (t.pending ≡ s.pending)
  unfolding admit_loaded reply_begin
  admit_loaded-active s w moment idle = ground arith

  -- An admission is granted exactly when it leaves a lease.
  admit_turn-active :
      (s : CoordinatorState Value) (w : ℕ) (moment : Moment Value)
      → let (granted, (t, sent)) = admit_turn session_id s w moment in
        is_some s.active ≡ false → (is_some t.active ≡ granted) × (t.pending ≡ s.pending)
  unfolding admit_turn reply_begin
  admit_turn-active s w moment idle = elim (Result-cases (load_log session_id s moment)) [
    | inl (failure, refused) ↦ ground arith
    | inr (ready, loading) ↦
        ground (arith, load_log-active s ready moment loading, admit_loaded-active ready w moment)
  ]

  -- The loop over the queue ends with a lease or with nobody waiting.
  grant_from-IsServed :
      (moments : ℕ → Moment Value) (queue : List ℕ) (s : CoordinatorState Value)
      → IsServed (grant_from session_id moments queue s).0
  unfolding grant_from after
  grant_from-IsServed moments [] s = λ idle. refl
  grant_from-IsServed moments (w ∷ queue) s =
      let attempted = record s { pending = queue } in
      by_test Serves (is_some s.active) (λ busy idle. ground arith)
        (λ free.
          by_test Serves (moments w).closed_before (λ closed. grant_from-IsServed moments queue s)
            (λ receiving.
              by_test Serves (admit_turn session_id attempted w (moments w)).0
                (λ granted idle. ground (arith, admit_turn-active attempted w (moments w)))
                (λ refused.
                  grant_from-IsServed moments queue
                    (admit_turn session_id attempted w (moments w)).1.0)))
    where
      Serves : Answer Value → Type 0
      Serves answer = IsServed answer.0

  grant_pending-IsServed :
      (stopping : Bool) (moments : ℕ → Moment Value) (s : CoordinatorState Value)
      → IsServed (grant_pending session_id stopping moments s).0
  unfolding grant_pending reject_pending
  grant_pending-IsServed true moments s = λ idle. refl
  grant_pending-IsServed false moments s = grant_from-IsServed moments s.pending s

  on_begin-IsServed :
      (s : CoordinatorState Value) (w : ℕ) (stopping : Bool) (moment : Moment Value)
      → IsServed s
      → IsServed (on_begin session_id s w stopping moment).0
  unfolding on_begin
  on_begin-IsServed s w stopping moment served idle =
      ground (arith, admit_turn-active s w moment, served)

  on_abandon-IsServed :
      (s : CoordinatorState Value) (token : ℕ) (stopping : Bool) (moments : ℕ → Moment Value)
      → IsServed s
      → IsServed (on_abandon session_id s token stopping moments).0
  unfolding on_abandon
  on_abandon-IsServed s token stopping moments served idle =
      ground (arith, grant_pending-IsServed stopping moments (record s { active = none }), served)

  Effect-IsServed :
      (s t : CoordinatorState Value) (draft : SessionEventDraft Value)
      → Effect session_id s draft t
      → IsServed s
      → IsServed t
  unfolding Effect
  Effect-IsServed s t draft ((loaded, next, pending), inl (events, active)) served idle =
      pending ∙ served (sym (ap is_some active) ∙ idle)
  Effect-IsServed s t draft ((loaded, next, pending), inr (turn, event, is_next, events, active))
        served idle =
      pending
      ∙ served (
          ground
            (arith, ap is_some active, idle, is_some-close_turn s.active event.turn_id event.seq))

  module _ (Value-discrete : Discrete Value) where
    serve-IsServed :
        (c : Coordinator Value) (command : Command Value)
        → IsServed c.state
        → IsServed (serve Value-discrete session_id c command).0.state
    unfolding serve keep on_settle after reject_pending
    serve-IsServed c (Command.begin w stopping moment) served =
        on_begin-IsServed c.state w stopping moment served
    serve-IsServed c (Command.append token turn_id draft w committed reloaded) served =
        Effect-IsServed c.state
          (append Value-discrete session_id c.state token turn_id draft w committed reloaded).0
          draft
          (append-Effect Value-discrete session_id c.state token turn_id draft w committed reloaded)
          served
    serve-IsServed c (Command.settle token turn_id w stopping moments) served =
        grant_pending-IsServed stopping moments (settle_turn session_id c.state token turn_id w).0
    serve-IsServed c (Command.abandon token stopping moments) served =
        on_abandon-IsServed c.state token stopping moments served
    serve-IsServed c (Command.shutdown w) served = λ idle. refl

    serve_all-IsServed_from :
        (c : Coordinator Value) (commands : List (Command Value))
        → IsServed c.state
        → IsServed (serve_all Value-discrete session_id c commands).0.state
    unfolding serve_all
    serve_all-IsServed_from c [] served = served
    serve_all-IsServed_from c (command ∷ commands) served =
        serve_all-IsServed_from (serve Value-discrete session_id c command).0 commands
          (serve-IsServed c command served)

    -- After any commands, whoever has hung up in between, a coordinator without a turn has nobody
    -- waiting for one.
    pub serve_all-no_waiters :
        (commands : List (Command Value))
        → let s =
            (serve_all Value-discrete session_id
              (fresh_coordinator Value-discrete session_id)
              commands).0.state in
          is_some s.active ≡ false → s.pending ≡ []
    unfolding fresh_coordinator default_state
    serve_all-no_waiters commands =
        serve_all-IsServed_from (fresh_coordinator Value-discrete session_id) commands
          (λ idle. refl)
