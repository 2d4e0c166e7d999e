-- ===== src/Session/Coordinator/Commands.antt =====
-- crates/session/runtime/src/coordinator.rs: `run_coordinator` with `admit`, `grant_pending` and
-- `reject_pending`.
use jingwei.Base.{
  ℕ, Bool, true, false, not, Option, none, some, List, [], ◌∷◌, ◌++◌, map, length, is_some,
  if◌then◌else◌, ◌==◌,
}
use jingwei.Base.Result.{Result, ok, err}
use jingwei.Base.Text.{Text}
use jingwei.Base.Word.{checked_add}
use jingwei.Session.Vocabulary.{SessionRuntimeError}
use jingwei.Session.Log.{validate_physical_log}
use jingwei.Session.Coordinator.{
  ActiveTurn, CoordinatorState, Output, Moment, Command, runtime_error, default_state,
}
use jingwei.Session.Coordinator.Turn.{Answer, settle_turn}
use jingwei.Session.Coordinator.Append.{append}

-- `state.active.is_some_and(|turn| turn.token == token)`.
unfoldable pub holds_lease : Option ActiveTurn → ℕ → Bool
holds_lease none token = false
holds_lease (some turn) token = turn.token == token

module _ {Value : Type 0} where
  unfoldable pub reply_begin :
      CoordinatorState Value → ℕ → SessionRuntimeError Value → Bool × Answer Value
  reply_begin state response failure = (false, (state, Output.begun response (err failure) ∷ []))

  -- The end of `admit`, with a log in memory.
  unfoldable pub admit_loaded :
      Text → CoordinatorState Value → ℕ → Moment Value → Bool × Answer Value
  admit_loaded session_id state response moment =
      if moment.stopping_then
      then reply_begin state response SessionRuntimeError.stopped
      else if not moment.alive
      then reply_begin state response SessionRuntimeError.stopped
      else elim (checked_add state.next_token 1) [
        | none ↦ reply_begin state response SessionRuntimeError.sequence_exhausted
        | some next_token ↦
            if moment.received
            then (
              true,
              (
                record state {
                  next_token = next_token;
                  active = some (record {
                    token = state.next_token;
                    turn_id = moment.turn_id;
                    start_seq = length state.events;
                    terminal_seq = none;
                  });
                },
                Output.begun response (
                      ok (record {
                        admission = record {
                          session_id = session_id;
                          turn_id = moment.turn_id;
                          history = state.events;
                        };
                        token = state.next_token;
                      }))
                    ∷ [],
              ),
            )
            else (false, (record state { next_token = next_token; active = none }, []))
      ]

  -- The log that `admit` reads where none is in memory yet.
  unfoldable pub load_log :
      Text
      → CoordinatorState Value
      → Moment Value
      → Result (SessionRuntimeError Value) (CoordinatorState Value)
  load_log session_id state moment = if state.loaded then ok state else elim moment.answer [
    | err failure ↦ err (SessionRuntimeError.persistence failure)
    | ok events ↦ elim (validate_physical_log session_id events) [
      | err failure ↦ err (SessionRuntimeError.invalid_history failure)
      | ok _ ↦ ok (record state { events = events; loaded = true })
    ]
  ]

  -- `admit`, and whether the turn was granted.
  unfoldable pub admit_turn : Text → CoordinatorState Value → ℕ → Moment Value → Bool × Answer Value
  admit_turn session_id state response moment =
      if moment.closed
      then (false, (state, []))
      else if moment.stopping_first
      then reply_begin state response SessionRuntimeError.stopped
      else elim state.poisoned [
        | some failure ↦ reply_begin state response (runtime_error failure)
        | none ↦ elim (load_log session_id state moment) [
          | err failure ↦ reply_begin state response failure
          | ok ready ↦ admit_loaded session_id ready response moment
        ]
      ]

  unfoldable pub reject_pending : CoordinatorState Value → Answer Value
  reject_pending state = (
    record state { pending = [] },
    map (λ response. Output.begun response (err SessionRuntimeError.stopped)) state.pending,
  )

  -- What a loop's earlier rounds have sent goes before what the rest sends.
  unfoldable pub after : List (Output Value) → Answer Value → Answer Value
  after sent (state, later) = (state, sent ++ later)

  -- The loop of `grant_pending` over the queue.
  unfoldable pub grant_from :
      Text → (ℕ → Moment Value) → List ℕ → CoordinatorState Value → Answer Value
  grant_from session_id moments [] state = (record state { pending = [] }, [])
  grant_from session_id moments (response ∷ queue) state =
      let skipped = grant_from session_id moments queue state in
      let (granted, (tried, sent)) =
        admit_turn session_id (record state { pending = queue }) response (moments response) in
      let rest = grant_from session_id moments queue tried in
      if is_some state.active
      then (record state { pending = response ∷ queue }, [])
      else if (moments response).closed_before
      then skipped
      else if granted
      then (tried, sent)
      else after sent rest

  unfoldable pub grant_pending :
      Text → Bool → (ℕ → Moment Value) → CoordinatorState Value → Answer Value
  grant_pending session_id stopping moments state =
      if stopping then reject_pending state else grant_from session_id moments state.pending state

  unfoldable pub on_begin : Text → CoordinatorState Value → ℕ → Bool → Moment Value → Answer Value
  on_begin session_id state response stopping moment =
      if stopping
      then (state, Output.begun response (err SessionRuntimeError.stopped) ∷ [])
      else if moment.closed_before
      then (state, [])
      else if is_some state.active
      then (record state { pending = state.pending ++ response ∷ [] }, [])
      else (admit_turn session_id state response moment).1

  unfoldable pub on_abandon :
      Text → CoordinatorState Value → ℕ → Bool → (ℕ → Moment Value) → Answer Value
  on_abandon session_id state token stopping moments =
      if holds_lease state.active token
      then grant_pending session_id stopping moments (record state { active = none })
      else (state, [])

  -- The `Settle` arm: the settlement, then the next turn.
  unfoldable pub on_settle :
      Text → CoordinatorState Value → ℕ → Text → ℕ → Bool → (ℕ → Moment Value) → Answer Value
  on_settle session_id state token turn_id response stopping moments =
      let (settled, sent) = settle_turn session_id state token turn_id response in
      after sent (grant_pending session_id stopping moments settled)

-- The locals of `run_coordinator`.
pub record Coordinator (Value : Type 0) : Type 0 where
  pub state : CoordinatorState Value
  pub shutdown_responses : List ℕ

-- The coordinator with the state that a command leaves.
unfoldable pub keep :
    {Value : Type 0} → Coordinator Value → Answer Value → Coordinator Value × List (Output Value)
keep c (state, sent) = (record c { state = state }, sent)

module _ {Value : Type 0} (Value-discrete : Discrete Value) (session_id : Text) where
  -- One round of the loop of `run_coordinator`.
  unfoldable pub serve : Coordinator Value → Command Value → Coordinator Value × List (Output Value)
  serve c (Command.begin response stopping moment) =
      keep c (on_begin session_id c.state response stopping moment)
  serve c (Command.append token turn_id draft response committed reloaded) =
      keep c
        (append Value-discrete session_id c.state token turn_id draft response committed reloaded)
  serve c (Command.settle token turn_id response stopping moments) =
      keep c (on_settle session_id c.state token turn_id response stopping moments)
  serve c (Command.abandon token stopping moments) =
      keep c (on_abandon session_id c.state token stopping moments)
  serve c (Command.shutdown response) =
      keep (record c { shutdown_responses = c.shutdown_responses ++ response ∷ [] })
        (reject_pending c.state)

  -- The loop over the commands that the mailbox delivers.
  unfoldable pub serve_all :
      Coordinator Value → List (Command Value) → Coordinator Value × List (Output Value)
  serve_all c [] = (c, [])
  serve_all c (command ∷ commands) =
      let (next, sent) = serve c command in
      let (last, later) = serve_all next commands in (last, sent ++ later)

  -- What `run_coordinator` does once the mailbox is closed and empty.
  unfoldable pub close : Coordinator Value → Answer Value
  close c =
      let (state, sent) = reject_pending (record c.state { active = none }) in
      (state, sent ++ map (λ response. Output.shut_down response) c.shutdown_responses)

  unfoldable pub fresh_coordinator : Coordinator Value
  fresh_coordinator = record { state = default_state; shutdown_responses = [] }

  -- `run_coordinator`.
  unfoldable pub run_coordinator : List (Command Value) → Answer Value
  run_coordinator commands =
      let (last, sent) = serve_all fresh_coordinator commands in
      let (state, later) = close last in (state, sent ++ later)
