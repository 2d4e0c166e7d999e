-- ===== src/Session/Coordinator/Summary.antt =====
-- crates/session/runtime/src/coordinator.rs: what a turn is told at its settlement.
use jingwei.Base.{
  ℕ, zero, suc, ◌+◌, ◌≤◌, ◌<◌, ◌≡◌, refl, sym, ap, ◌∙◌, subst, none, some, List, [], ◌∷◌, ◌++◌,
  length, inl, inr, Option-cases, arith,
}
use jingwei.Base.Result.{ok, Result-cases}
use jingwei.Base.Text.{Text}
use jingwei.Core.Event.{SessionEvent}
use jingwei.Session.Vocabulary.{SessionEventDraft, TurnCommitSummary}
use jingwei.Session.Coordinator.{
  ActiveTurn, CoordinatorState, Moment, Command, AdmissionGrant, Output,
}
use jingwei.Session.Coordinator.Turn.{lease_of, drop, take, settle_turn}
use jingwei.Session.Coordinator.Effects.{Effect, take-drop, lease_of-holds}
use jingwei.Session.Coordinator.Invariant.{marked-cases, length-concat, none≢some}
use jingwei.Session.Coordinator.Commands.{
  Coordinator, admit_turn, admit_loaded, load_log, reply_begin, serve_all,
}
use jingwei.Session.Coordinator.Steps.{granted_turn, IsStable}
use jingwei.Session.Coordinator.Preserved.{serve_all-keeps}

take-concat :
    {A : Type 0} (n : ℕ) (xs : List A) (x : A) → n ≤ length xs → take n (xs ++ x ∷ []) ≡ take n xs
unfolding take
take-concat zero xs x h = refl
take-concat (suc n) [] x h = absurd (omega arith)
take-concat (suc n) (y ∷ xs) x h = ap (λ ys. y ∷ ys) (take-concat n xs x (omega arith))

take-all : {A : Type 0} (xs : List A) → take (length xs) xs ≡ xs
unfolding take
take-all [] = refl
take-all (x ∷ xs) = ap (λ ys. x ∷ ys) (take-all xs)

module _ {Value : Type 0} (session_id : Text) (token : ℕ)
    (history : List (SessionEvent Value)) where
  -- The token has been issued, and while its turn holds the lease the log starts with the history.
  record Remembers (s : CoordinatorState Value) : Type 0 where
    issued : token < s.next_token
    starts :
        (turn : ActiveTurn)
        → s.active ≡ some turn
        → turn.token ≡ token
        → (turn.start_seq ≤ length s.events) × (take turn.start_seq s.events ≡ history)

  Remembers-same :
      (s t : CoordinatorState Value)
      → Remembers s
      → t.events ≡ s.events
      → t.active ≡ s.active
      → t.next_token ≡ s.next_token
      → Remembers t
  Remembers-same s t r events active next = record {
    issued = omega (arith, next, r.issued);
    starts = λ turn held own.
        subst (λ log. (turn.start_seq ≤ length log) × (take turn.start_seq log ≡ history))
          (sym events) (r.starts turn (sym active ∙ held) own);
  }

  Remembers-idle :
      (t : CoordinatorState Value) → token < t.next_token → t.active ≡ none → Remembers t
  Remembers-idle t issued idle = record {
    issued = issued;
    starts = λ turn held own. absurd (none≢some (sym idle ∙ held));
  }

  Remembers-granted :
      (s t : CoordinatorState Value) (moment : Moment Value)
      → Remembers s
      → t.active ≡ some (granted_turn s moment)
      → t.next_token ≡ s.next_token + 1
      → Remembers t
  unfolding granted_turn
  Remembers-granted s t moment r active next = record {
    issued = omega (arith, next, r.issued);
    starts = λ turn held own. absurd (omega (arith, own, r.issued, token_of (sym active ∙ held)));
  }
    where
      token_of : {a b : ActiveTurn} → some a ≡ some b → a.token ≡ b.token
      token_of e = cc

  Remembers-appends :
      (s t : CoordinatorState Value) (draft : SessionEventDraft Value)
      → Remembers s
      → Effect session_id s draft t
      → Remembers t
  unfolding Effect
  Remembers-appends s t draft r ((loaded, next, pending), inl (events, active)) =
      Remembers-same s t r events active next
  Remembers-appends s t draft r
        ((loaded, next, pending), inr (turn, event, is_next, events, active)) =
      record {
        issued = omega (arith, next, r.issued);
        starts = λ closed held own.
            grown closed (marked-cases s event turn closed is_next.holds (sym active ∙ held)) own;
      }
    where
      grown :
          (closed : ActiveTurn)
          → (closed.token ≡ turn.token)
            × (closed.turn_id ≡ turn.turn_id)
            × (closed.start_seq ≡ turn.start_seq)
          → closed.token ≡ token
          → (closed.start_seq ≤ length t.events) × (take closed.start_seq t.events ≡ history)
      grown closed (same_token, id, start) own =
          let (within, prefix) = r.starts turn is_next.holds (sym same_token ∙ own) in
          (
            subst (λ log. closed.start_seq ≤ length log) (sym events)
                (omega (arith, start, within, length-concat s.events event)),
            ap (λ log. take closed.start_seq log) events
                ∙ ap (λ n. take n (s.events ++ event ∷ [])) start
                ∙ take-concat turn.start_seq s.events event within
                ∙ prefix,
          )

  Remembers-IsStable : IsStable session_id Remembers
  Remembers-IsStable = record {
    same = λ s t r events active next loaded. Remembers-same s t r events active next;
    released = λ s t r events active next. Remembers-idle t (omega (arith, r.issued, next)) active;
    loads = λ s t r idle active next valid. Remembers-idle t (omega (arith, r.issued, next)) active;
    grants =
        λ s t moment r idle loaded events active next. Remembers-granted s t moment r active next;
    appends = λ s t draft r effect. Remembers-appends s t draft r effect;
  }

module _ {Value : Type 0} (session_id : Text) where
  -- A granted admission hands out the log, and the lease under the token it hands out.
  admit_loaded-grant :
      (s : CoordinatorState Value) (response : ℕ) (moment : Moment Value)
      (grant : AdmissionGrant Value)
      → let (granted, (t, sent)) = admit_loaded session_id s response moment in
        sent ≡ Output.begun response (ok grant) ∷ []
        → (t.events ≡ grant.admission.history)
          × (grant.token < t.next_token)
          × (t.active
              ≡ some (record {
                token = grant.token;
                turn_id = grant.admission.turn_id;
                start_seq = length grant.admission.history;
                terminal_seq = none;
              }))
  unfolding admit_loaded reply_begin
  admit_loaded-grant s response moment grant e = ground arith

  settle-summary :
      (s : CoordinatorState Value) (token : ℕ) (turn_id : Text) (response : ℕ)
      (summary : TurnCommitSummary Value)
      → (settle_turn session_id s token turn_id response).1
        ≡ Output.settled response (ok summary) ∷ []
      → (turn : ActiveTurn) × (s.active ≡ some turn)
        × (turn.token ≡ token)
        × (summary ≡ record { turn_id = turn_id; events = drop turn.start_seq s.events })
  unfolding settle_turn
  settle-summary s token turn_id response summary e =
      elim (Option-cases (lease_of s.active token turn_id)) [
        | inl none_held ↦ absurd (ground arith)
        | inr (turn, held) ↦
            let (active, own, id) = lease_of-holds s.active token turn_id turn held in
            (turn, active, own, ground arith)
      ]

  admit_turn-grant :
      (s : CoordinatorState Value) (response : ℕ) (moment : Moment Value)
      (grant : AdmissionGrant Value)
      → let (granted, (t, sent)) = admit_turn session_id s response moment in
        sent ≡ Output.begun response (ok grant) ∷ []
        → (t.events ≡ grant.admission.history)
          × (grant.token < t.next_token)
          × (t.active
              ≡ some (record {
                token = grant.token;
                turn_id = grant.admission.turn_id;
                start_seq = length grant.admission.history;
                terminal_seq = none;
              }))
  unfolding admit_turn reply_begin
  admit_turn-grant s response moment grant e = elim (Result-cases (load_log session_id s moment)) [
    | inl (failure, refused) ↦ absurd (ground arith)
    | inr (ready, loading) ↦ ground (arith, admit_loaded-grant ready response moment grant)
  ]

  admit_turn-Remembers :
      (s : CoordinatorState Value) (response : ℕ) (moment : Moment Value)
      (grant : AdmissionGrant Value)
      → (admit_turn session_id s response moment).1.1 ≡ Output.begun response (ok grant) ∷ []
      → Remembers session_id grant.token grant.admission.history
          (admit_turn session_id s response moment).1.0
  admit_turn-Remembers s response moment grant e =
      let (events, issued, active) = admit_turn-grant s response moment grant e in
      record {
        issued = issued;
        starts = λ turn held own.
            let start = start_of (sym active ∙ held) in
            (
              omega (arith, start, ap length events),
              ap (λ n. take n (admit_turn session_id s response moment).1.0.events) (sym start)
                  ∙ ap (λ log. take (length grant.admission.history) log) events
                  ∙ take-all grant.admission.history,
            );
      }
    where
      start_of : {a b : ActiveTurn} → some a ≡ some b → a.start_seq ≡ b.start_seq
      start_of e = cc

  module _ (Value-discrete : Discrete Value) where
    -- When a turn is granted and, after any commands in between, a settlement under its token goes
    -- through, then the history of its admission followed by the events of the settlement's summary is
    -- the log at that time, and the summary names the turn that asked.
    pub settle-completes_history :
        (s : CoordinatorState Value) (response : ℕ) (moment : Moment Value)
        (grant : AdmissionGrant Value) (waiting : List ℕ) (commands : List (Command Value))
        (turn_id : Text) (settlement : ℕ) (summary : TurnCommitSummary Value)
        → (admit_turn session_id s response moment).1.1 ≡ Output.begun response (ok grant) ∷ []
        → let c : Coordinator Value = record {
          state = (admit_turn session_id s response moment).1.0;
          shutdown_responses = waiting;
        } in
          let later = (serve_all Value-discrete session_id c commands).0.state in
          (settle_turn session_id later grant.token turn_id settlement).1
            ≡ Output.settled settlement (ok summary) ∷ []
          → (grant.admission.history ++ summary.events ≡ later.events) × (summary.turn_id ≡ turn_id)
    settle-completes_history s response moment grant waiting commands turn_id settlement summary
          granted settled =
        let c : Coordinator Value = record {
          state = (admit_turn session_id s response moment).1.0;
          shutdown_responses = waiting;
        } in
        let later = (serve_all Value-discrete session_id c commands).0.state in
        let remembers =
          serve_all-keeps session_id (Remembers session_id grant.token grant.admission.history)
            (Remembers-IsStable session_id grant.token grant.admission.history) Value-discrete c
            commands (admit_turn-Remembers s response moment grant granted) in
        let (turn, held, own, whole) =
          settle-summary later grant.token turn_id settlement summary settled in
        let (within, prefix) = remembers.starts turn held own in
        (
          ap (λ events. grant.admission.history ++ events) (ap (λ r. r.events) whole)
              ∙ ap (λ front. front ++ drop turn.start_seq later.events) (sym prefix)
              ∙ take-drop turn.start_seq later.events,
          ap (λ r. r.turn_id) whole,
        )
