-- ===== src/Session/Tests.antt =====
-- One session on concrete inputs, and witnesses.
use jingwei.Base.{ℕ, ◌≡◌, refl, ◌↔◌, true, false, none, some, List, [], ◌∷◌, ◌++◌, All, is_some}
use jingwei.Base.Result.{ok}
use jingwei.Base.Text.{Text, Text-discrete}
use jingwei.Base.Sets.{contains, with_member}
use jingwei.Core.Event.{SessionEvent, SessionEventKind}
use jingwei.Session.Vocabulary.{PersistAppendOutcome, SessionEventDraft, TurnCommitSummary}
use jingwei.Session.Log.{
  expected_seq, validate_from, validate_physical_log, IsLog, validate_physical_log_iff,
}
use jingwei.Session.Coordinator.{ActiveTurn, Moment, Command, AdmissionGrant, Output, default_state}
use jingwei.Session.Coordinator.Turn.{
  lease_of, drop, is_terminal, mark_terminal, push_event, find_event, candidate_event, settle_turn,
}
use jingwei.Session.Coordinator.Append.{commit, append_new, append_to, append}
use jingwei.Session.Coordinator.Effects.{Effect, append-Effect}
use jingwei.Session.Coordinator.Commands.{
  admit_loaded, load_log, admit_turn, reject_pending, grant_pending, on_begin, on_abandon,
  holds_lease, Coordinator, keep, serve, serve_all, fresh_coordinator, run_coordinator,
}
use jingwei.Session.Coordinator.Orderly.{serve_all-IsOrderly}
use jingwei.Session.Coordinator.Summary.{settle-completes_history}
use jingwei.Session.Coordinator.Queue.{serve_all-no_waiters}
use jingwei.Session.Coordinator.Waiters.{answers, requests, IsOpen, IsAttended}
use jingwei.Session.Coordinator.Liveness.{run_coordinator-answers}
unfoldable use jingwei.Base.{ℕ_discrete}

abbrev session : Text
session = 115 ∷ []

abbrev turn : Text
turn = 116 ∷ []

abbrev kind : SessionEventKind Text
kind = SessionEventKind.user_message (104 ∷ [])

abbrev event : Text → Text → ℕ → SessionEvent Text
event id turn_id seq = record {
  event_id = id;
  session_id = session;
  turn_id = turn_id;
  generation_id = none;
  message_id = none;
  seq = seq;
  kind = kind;
}

abbrev stored : List (SessionEvent Text)
stored = event (97 ∷ []) (117 ∷ []) 0 ∷ []

abbrev draft : SessionEventDraft Text
draft = record { event_id = 98 ∷ []; generation_id = none; message_id = none; kind = kind }

abbrev moment : Moment Text
moment = record {
  closed_before = false;
  closed = false;
  stopping_first = false;
  answer = ok stored;
  stopping_then = false;
  alive = true;
  turn_id = turn;
  received = true;
}

moment-IsOpen : IsOpen moment
moment-IsOpen = record { open_before = refl; open_then = refl; receives = refl }

validate_physical_log_iff_example :
    (validate_physical_log session stored ≡ ok tt) ↔ IsLog session stored
validate_physical_log_iff_example = validate_physical_log_iff session stored

-- Two requests, an event for the first, its settlement, which grants the second, and a shutdown.
abbrev commands : List (Command Text)
commands =
    Command.begin 1 false moment
    ∷ Command.begin 2 false moment
    ∷ Command.append 1 turn draft 3 (ok PersistAppendOutcome.appended) (ok [])
    ∷ Command.settle 1 turn 4 false (λ r. moment)
    ∷ Command.begin 5 false moment
    ∷ Command.shutdown 6
    ∷ []

commands-IsAttended : All IsAttended commands
unfolding IsAttended
commands-IsAttended =
    (moment-IsOpen, (moment-IsOpen, (tt, ((λ r. moment-IsOpen), (moment-IsOpen, (tt, tt))))))

run_coordinator-answers_example :
    answers 5 (run_coordinator Text-discrete session commands).1 ≡ requests 5 commands
run_coordinator-answers_example =
    run_coordinator-answers Text-discrete session 5 commands commands-IsAttended

serve_all-IsOrderly_example :
    let s =
      (serve_all Text-discrete session
        (fresh_coordinator Text-discrete session)
        commands).0.state in
    (validate_physical_log session s.events ≡ ok tt)
    × ((turn : ActiveTurn)
        → s.active ≡ some turn
        → All (λ event. event.turn_id ≡ turn.turn_id) (drop turn.start_seq s.events))
serve_all-IsOrderly_example = serve_all-IsOrderly session Text-discrete commands

append-Effect_example :
    Effect session default_state draft
      (append Text-discrete session default_state 1 turn draft 3
        (ok PersistAppendOutcome.appended)
        (ok [])).0
append-Effect_example =
    append-Effect Text-discrete session default_state 1 turn draft 3
      (ok PersistAppendOutcome.appended) (ok [])

abbrev grant : AdmissionGrant Text
grant = record {
  admission = record { session_id = session; turn_id = turn; history = stored };
  token = 1;
}

abbrev appending : List (Command Text)
appending = Command.append 1 turn draft 3 (ok PersistAppendOutcome.appended) (ok []) ∷ []

abbrev summary : TurnCommitSummary Text
summary = record { turn_id = turn; events = event (98 ∷ []) turn 1 ∷ [] }

granted_first : (admit_turn session default_state 1 moment).1.1 ≡ Output.begun 1 (ok grant) ∷ []
unfolding admit_turn admit_loaded load_log default_state validate_physical_log validate_from
    expected_seq contains with_member Text-discrete ℕ_discrete
granted_first = refl

settled :
    let c : Coordinator Text = record {
      state = (admit_turn session default_state 1 moment).1.0;
      shutdown_responses = [];
    } in
    (settle_turn session (serve_all Text-discrete session c appending).0.state 1 turn 4).1
    ≡ Output.settled 4 (ok summary) ∷ []
unfolding admit_turn admit_loaded load_log default_state validate_physical_log validate_from
    expected_seq contains with_member Text-discrete ℕ_discrete settle_turn serve_all serve keep
    append append_to append_new commit push_event mark_terminal is_terminal candidate_event
    find_event lease_of drop
settled = refl

settle-completes_history_example :
    let c : Coordinator Text = record {
      state = (admit_turn session default_state 1 moment).1.0;
      shutdown_responses = [];
    } in
    (stored ++ summary.events ≡ (serve_all Text-discrete session c appending).0.state.events)
    × (turn ≡ turn)
settle-completes_history_example =
    settle-completes_history session Text-discrete default_state 1 moment grant [] appending turn 4
      summary granted_first settled

-- Two requests, both of which are refused or given up.
abbrev abandoned : List (Command Text)
abandoned =
    Command.begin 1 false moment
    ∷ Command.begin 2 false moment
    ∷ Command.abandon 1 true (λ r. moment)
    ∷ []

abandoned-idle :
    is_some
      (serve_all Text-discrete session
        (fresh_coordinator Text-discrete session)
        abandoned).0.state.active
    ≡ false
unfolding admit_turn admit_loaded load_log default_state validate_physical_log validate_from
    expected_seq contains with_member Text-discrete ℕ_discrete serve_all serve keep on_begin
    on_abandon holds_lease grant_pending reject_pending fresh_coordinator
abandoned-idle = refl

serve_all-no_waiters_example :
    (serve_all Text-discrete session
      (fresh_coordinator Text-discrete session)
      abandoned).0.state.pending
    ≡ []
serve_all-no_waiters_example = serve_all-no_waiters session Text-discrete abandoned abandoned-idle
