-- ===== src/Session/Coordinator/Effects.antt =====
-- crates/session/runtime/src/coordinator.rs: what `append` does to the log and to the turn.
use jingwei.Base.{
  ℕ, zero, suc, ◌<◌, ◌≡◌, refl, sym, ap, ◌∙◌, subst, true, Option, none, some, List, [], ◌∷◌, ◌++◌,
  length, is_yes, is_yes_iff, if◌then◌else◌, ◌⊎◌, inl, inr, Option-cases, arith,
}
use jingwei.Base.Result.{Result, ok, err}
use jingwei.Base.Text.{Text, text_eq→≡}
use jingwei.Base.Word.{u64_mod}
use jingwei.Core.Event.{SessionEvent, SessionEvent-discrete}
use jingwei.Session.Vocabulary.{PersistAppendOutcome, SessionPersistenceError, SessionEventDraft}
use jingwei.Session.Coordinator.{ActiveTurn, CoordinatorState}
use jingwei.Session.Coordinator.Turn.{
  lease_of, drop, take, close_turn, is_terminal, mark_terminal, push_event, poison, find_event,
  candidate_event, reply_error, reply_persistence,
}
use jingwei.Session.Coordinator.Append.{
  Log-discrete, starts_with, extends_by_one, reconcile_with, reconcile_indeterminate, commit,
  append_new, append_to, append,
}

pub take-drop : {A : Type 0} (n : ℕ) (xs : List A) → take n xs ++ drop n xs ≡ xs
unfolding take drop
take-drop zero xs = refl
take-drop (suc n) [] = refl
take-drop (suc n) (x ∷ xs) = ap (λ ys. x ∷ ys) (take-drop n xs)

length-drop_last :
    {A : Type 0} (n : ℕ) (xs ys : List A)
    → length xs ≡ suc (length ys)
    → n ≡ length ys
    → length (drop n xs) ≡ 1
unfolding drop
length-drop_last zero xs [] e h = e
length-drop_last zero xs (y ∷ ys) e h = omega arith
length-drop_last (suc n) [] ys e h = omega arith
length-drop_last (suc n) (x ∷ xs) [] e h = omega arith
length-drop_last (suc n) (x ∷ xs) (y ∷ ys) e h =
    length-drop_last n xs ys (omega arith) (omega arith)

pub lease_of-holds :
    (o : Option ActiveTurn) (token : ℕ) (turn_id : Text) (turn : ActiveTurn)
    → lease_of o token turn_id ≡ some turn
    → (o ≡ some turn) × (turn.token ≡ token) × (turn.turn_id ≡ turn_id)
unfolding lease_of
lease_of-holds none token turn_id turn e = cc
lease_of-holds (some held) token turn_id turn e = ground (arith, text_eq→≡ held.turn_id turn_id)

module _ {Value : Type 0} where
  -- What no append changes.
  abbrev pub Frame : CoordinatorState Value → CoordinatorState Value → Type 0
  Frame s t = (t.loaded ≡ s.loaded) × (t.next_token ≡ s.next_token) × (t.pending ≡ s.pending)

  -- The lease once an event is in the log.
  abbrev pub marked : CoordinatorState Value → SessionEvent Value → Option ActiveTurn
  marked s event =
      if is_terminal event.kind then close_turn s.active event.turn_id event.seq else s.active

  -- The log and the turn are left alone, or the log grows by the event.
  abbrev pub Grown : CoordinatorState Value → SessionEvent Value → CoordinatorState Value → Type 0
  Grown s event t =
      Frame s t
      × (((t.events ≡ s.events) × (t.active ≡ s.active))
          ⊎ ((t.events ≡ s.events ++ event ∷ []) × (t.active ≡ marked s event)))

  Kept : (s : CoordinatorState Value) (event : SessionEvent Value) → Grown s event s
  Kept s event = ((refl, refl, refl), inl (refl, refl))

  mark_terminal-Frame :
      (s : CoordinatorState Value) (event : SessionEvent Value)
      → Frame s (mark_terminal s event)
        × ((mark_terminal s event).events ≡ s.events)
        × ((mark_terminal s event).active ≡ marked s event)
  unfolding mark_terminal
  mark_terminal-Frame s event = ground arith

  -- An event that an append may add: the draft's, in the open turn that is addressed, at the end
  -- of a log that can be trusted and has no event with its id.
  pub record IsNext (session_id : Text) (s : CoordinatorState Value)
      (draft : SessionEventDraft Value) (turn : ActiveTurn) (event : SessionEvent Value)
      : Type 0 where
    pub holds : s.active ≡ some turn
    pub unclosed : turn.terminal_seq ≡ none
    pub trusted : s.poisoned ≡ none
    pub unused : find_event draft.event_id s.events ≡ none
    pub small : length s.events < u64_mod
    pub is_candidate : event ≡ candidate_event session_id turn.turn_id (length s.events) draft

  -- The state that an append leaves.
  unfoldable pub Effect :
      Text → CoordinatorState Value → SessionEventDraft Value → CoordinatorState Value → Type 0
  Effect session_id s draft t =
      Frame s t
      × (((t.events ≡ s.events) × (t.active ≡ s.active))
          ⊎ ((turn : ActiveTurn) × (event : SessionEvent Value) × IsNext session_id s draft turn
                event
              × (t.events ≡ s.events ++ event ∷ [])
              × (t.active ≡ marked s event)))

  unmoved :
      (session_id : Text) {s t : CoordinatorState Value} (draft : SessionEventDraft Value)
      → t ≡ s
      → Effect session_id s draft t
  unfolding Effect
  unmoved session_id {s} {t} draft e =
      subst (λ u. Effect session_id s draft u) (sym e) ((refl, refl, refl), inl (refl, refl))

  grown :
      (session_id : Text) {s : CoordinatorState Value} (t : CoordinatorState Value)
      {draft : SessionEventDraft Value} (turn : ActiveTurn) {event : SessionEvent Value}
      → IsNext session_id s draft turn event
      → Grown s event t
      → Effect session_id s draft t
  unfolding Effect
  grown session_id t turn next (frame, inl same) = (frame, inl same)
  grown session_id t turn {event} next (frame, inr (events, active)) =
      (frame, inr (turn, event, next, events, active))

  module _ (Value-discrete : Discrete Value) where
    starts_with-one :
        (event : SessionEvent Value) (rest : List (SessionEvent Value))
        → starts_with Value-discrete event rest ≡ true
        → length rest ≡ 1
        → rest ≡ event ∷ []
    unfolding starts_with
    starts_with-one event [] e h = cc
    starts_with-one event (first ∷ []) e h =
        ap (λ x. x ∷ []) ((is_yes_iff (SessionEvent-discrete Value-discrete first event)).0 e)
    starts_with-one event (first ∷ second ∷ rest) e h = absurd (omega arith)

    extends_by_one-exact :
        (restored events : List (SessionEvent Value)) (event : SessionEvent Value)
        → extends_by_one Value-discrete restored events event ≡ true
        → restored ≡ events ++ event ∷ []
    unfolding extends_by_one
    extends_by_one-exact restored events event e =
        let size : length restored ≡ suc (length events) = ground arith in
        let front : is_yes (Log-discrete Value-discrete (take (length events) restored) events)
            ≡ true =
          ground arith in
        let last : starts_with Value-discrete event (drop (length events) restored) ≡ true =
          ground arith in
        sym (take-drop (length events) restored)
        ∙ ap (λ xs. xs ++ drop (length events) restored)
            ((is_yes_iff (Log-discrete Value-discrete (take (length events) restored) events)).0
              front)
        ∙ ap (λ ys. events ++ ys)
            (starts_with-one event (drop (length events) restored) last
              (length-drop_last (length events) restored events size refl))

    reconcile_with-Grown :
        (s : CoordinatorState Value) (event : SessionEvent Value)
        (original : SessionPersistenceError) (response : ℕ) (restored : List (SessionEvent Value))
        → Grown s event (reconcile_with Value-discrete s event original response restored).0
    unfolding reconcile_with reply_persistence reply_error poison
    reconcile_with-Grown s event original response restored = ground (
      arith,
      extends_by_one-exact restored s.events event,
      mark_terminal-Frame (record s { events = restored }) event,
    )

    commit-Grown :
        (session_id : Text) (s : CoordinatorState Value) (event : SessionEvent Value) (response : ℕ)
        (committed : Result SessionPersistenceError PersistAppendOutcome)
        (reloaded : Result SessionPersistenceError (List (SessionEvent Value)))
        → Grown s event (commit Value-discrete session_id s event response committed reloaded).0
    unfolding commit reconcile_indeterminate reply_persistence reply_error poison push_event
    commit-Grown session_id s event response (ok PersistAppendOutcome.appended) reloaded =
        ground (arith, mark_terminal-Frame (record s { events = s.events ++ event ∷ [] }) event)
    commit-Grown session_id s event response (ok PersistAppendOutcome.replayed_exact) reloaded =
        ground (arith, mark_terminal-Frame (record s { events = s.events ++ event ∷ [] }) event)
    commit-Grown session_id s event response (err failure) (err again) = ground arith
    commit-Grown session_id s event response (err failure) (ok restored) =
        ground (arith, reconcile_with-Grown s event failure response restored)

    append_to-cases :
        (session_id : Text) (s : CoordinatorState Value) (turn : ActiveTurn)
        (draft : SessionEventDraft Value) (response : ℕ)
        (committed : Result SessionPersistenceError PersistAppendOutcome)
        (reloaded : Result SessionPersistenceError (List (SessionEvent Value)))
        → let answer =
            append_to Value-discrete session_id s turn draft response committed reloaded in
          (answer.0 ≡ s)
          ⊎ ((turn.terminal_seq ≡ none)
              × (s.poisoned ≡ none)
              × (find_event draft.event_id s.events ≡ none)
              × (length s.events < u64_mod)
              × (answer
                  ≡ commit Value-discrete session_id s
                      (candidate_event session_id turn.turn_id (length s.events) draft)
                      response
                      committed
                      reloaded))
    unfolding append_to append_new reply_persistence reply_error
    append_to-cases session_id s turn draft response committed reloaded = ground arith

    append-cases :
        (session_id : Text) (s : CoordinatorState Value) (token : ℕ) (turn_id : Text)
        (draft : SessionEventDraft Value) (response : ℕ)
        (committed : Result SessionPersistenceError PersistAppendOutcome)
        (reloaded : Result SessionPersistenceError (List (SessionEvent Value)))
        → let answer =
            append Value-discrete session_id s token turn_id draft response committed reloaded in
          (answer.0 ≡ s)
          ⊎ ((turn : ActiveTurn) × (lease_of s.active token turn_id ≡ some turn)
              × (answer
                  ≡ append_to Value-discrete session_id s turn draft response committed reloaded))
    unfolding append reply_error
    append-cases session_id s token turn_id draft response committed reloaded =
        elim (Option-cases (lease_of s.active token turn_id)) [
          | inl none_held ↦ inl (ground arith)
          | inr (turn, held) ↦ inr (turn, held, ground arith)
        ]

    -- Whatever the provider answers, an append leaves the tokens and the queue alone, and either leaves
    -- the log and the turn alone too, or adds exactly one event to the log's end: the draft's, under
    -- the open turn that holds the lease, at the next sequence number, under an id that the log does
    -- not have, when no earlier failure has poisoned the log. A terminal event closes the turn.
    pub append-Effect :
        (session_id : Text) (s : CoordinatorState Value) (token : ℕ) (turn_id : Text)
        (draft : SessionEventDraft Value) (response : ℕ)
        (committed : Result SessionPersistenceError PersistAppendOutcome)
        (reloaded : Result SessionPersistenceError (List (SessionEvent Value)))
        → Effect session_id s draft
            (append Value-discrete session_id s token turn_id draft response committed reloaded).0
    append-Effect session_id s token turn_id draft response committed reloaded =
        elim (append-cases session_id s token turn_id draft response committed reloaded) [
          | inl same ↦ unmoved session_id draft same
          | inr (turn, held, e) ↦
              elim (append_to-cases session_id s turn draft response committed reloaded) [
                | inl same ↦ unmoved session_id draft (ap (λ a. a.0) e ∙ same)
                | inr (unclosed, trusted, unused, small, committing) ↦
                    let event = candidate_event session_id turn.turn_id (length s.events) draft in
                    grown session_id
                      (append Value-discrete session_id s token turn_id draft response committed
                        reloaded).0
                      turn
                      (record {
                        holds = (lease_of-holds s.active token turn_id turn held).0;
                        unclosed = unclosed;
                        trusted = trusted;
                        unused = unused;
                        small = small;
                        is_candidate = refl;
                      })
                      (subst (λ t. Grown s event t) (sym (ap (λ a. a.0) (e ∙ committing)))
                        (commit-Grown session_id s event response committed reloaded))
              ]
        ]
