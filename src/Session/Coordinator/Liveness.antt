-- ===== src/Session/Coordinator/Liveness.antt =====
-- crates/session/runtime/src/coordinator.rs: every request for a turn is answered once.
use jingwei.Base.{ℕ, ◌+◌, ◌≡◌, refl, ap, none, List, [], ◌∷◌, map, All, arith}
use jingwei.Base.Text.{Text}
use jingwei.Session.Coordinator.{CoordinatorState, Command, Output, default_state}
use jingwei.Session.Coordinator.Append.{append}
use jingwei.Session.Coordinator.Effects.{Effect, append-Effect}
use jingwei.Session.Coordinator.Commands.{
  reject_pending, Coordinator, keep, serve, serve_all, close, fresh_coordinator, run_coordinator,
}
use jingwei.Session.Coordinator.Waiters.{
  one_if, waiting, is_answer, answers, is_request, requests, IsAttended, answers-append,
  reject_pending-account, on_begin-account, on_settle-account, on_abandon-account,
}
use jingwei.Session.Coordinator.Silent.{append-silent}

module _ {Value : Type 0} (Value-discrete : Discrete Value) (session_id : Text) (r : ℕ) where
  Effect-pending :
      (s t : CoordinatorState Value) (draft : _)
      → Effect session_id s draft t
      → t.pending ≡ s.pending
  unfolding Effect
  Effect-pending s t draft ((loaded, next, pending), grown) = pending

  -- What a command adds to the answers that are given or owed is its own request.
  serve-account :
      (c : Coordinator Value) (command : Command Value)
      → IsAttended command
      → let (next, sent) = serve Value-discrete session_id c command in
        answers r sent + waiting r next.state.pending
        ≡ waiting r c.state.pending + one_if (is_request r command)
  unfolding serve keep IsAttended is_request
  serve-account c (Command.begin w stopping moment) attended =
      on_begin-account session_id r c.state w stopping moment attended
  serve-account c (Command.append token turn_id draft w committed reloaded) attended =
      let answer =
        append Value-discrete session_id c.state token turn_id draft w committed reloaded in
      omega (
        arith,
        append-silent session_id r Value-discrete c.state token turn_id draft w committed reloaded,
        ap (waiting r) (
            Effect-pending c.state answer.0 draft (
              append-Effect Value-discrete session_id c.state token turn_id draft w committed
                reloaded)),
      )
  serve-account c (Command.settle token turn_id w stopping moments) attended =
      omega
        (arith, on_settle-account session_id r c.state token turn_id w stopping moments attended)
  serve-account c (Command.abandon token stopping moments) attended =
      omega (arith, on_abandon-account session_id r c.state token stopping moments attended)
  serve-account c (Command.shutdown w) attended =
      omega (arith, reject_pending-account session_id r c.state)

  serve_all-account :
      (c : Coordinator Value) (commands : List (Command Value))
      → All IsAttended commands
      → let (last, sent) = serve_all Value-discrete session_id c commands in
        answers r sent + waiting r last.state.pending
        ≡ waiting r c.state.pending + requests r commands
  unfolding serve_all answers requests
  serve_all-account c [] attended = omega arith
  serve_all-account c (command ∷ commands) (attended, rest) =
      let (next, sent) = serve Value-discrete session_id c command in
      omega (
        arith,
        serve-account c command attended,
        serve_all-account next commands rest,
        answers-append r sent (serve_all Value-discrete session_id next commands).1,
      )

  shut_down-silent :
      (closing : List ℕ) → answers {Value = Value} r (map (λ w. Output.shut_down w) closing) ≡ 0
  unfolding answers is_answer
  shut_down-silent [] = refl
  shut_down-silent (w ∷ closing) = omega (arith, shut_down-silent closing)

  rejected : (s : CoordinatorState Value) → answers r (reject_pending s).1 ≡ waiting r s.pending
  unfolding reject_pending waiting
  rejected s = omega (arith, reject_pending-account session_id r s)

  close-account :
      (c : Coordinator Value)
      → answers r (close Value-discrete session_id c).1 ≡ waiting r c.state.pending
  unfolding close
  close-account c =
      let idle = record c.state { active = none } in
      let sent : List (Output Value) = map (λ w. Output.shut_down w) c.shutdown_responses in
      omega (
        arith,
        rejected idle,
        shut_down-silent c.shutdown_responses,
        answers-append r (reject_pending idle).1 sent,
      )

  -- Once the mailbox is closed and empty, the coordinator has sent on every channel as many answers
  -- as the commands have requested turns on it: each request is answered, by a grant or by an error, and
  -- none twice; where nobody hangs up before the answer.
  pub run_coordinator-answers :
      (commands : List (Command Value))
      → All IsAttended commands
      → answers r (run_coordinator Value-discrete session_id commands).1 ≡ requests r commands
  unfolding run_coordinator fresh_coordinator default_state waiting
  run_coordinator-answers commands attended =
      let fresh = fresh_coordinator Value-discrete session_id in
      let (last, sent) = serve_all Value-discrete session_id fresh commands in
      omega (
        arith,
        serve_all-account fresh commands attended,
        close-account last,
        answers-append r sent (close Value-discrete session_id last).1,
      )
