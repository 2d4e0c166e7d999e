-- ===== src/Session/Coordinator/Invariant.antt =====
-- crates/session/runtime/src/coordinator.rs: what holds of a coordinator between two commands.
use jingwei.Base.{
  ℕ, zero, suc, ◌+◌, ◌≤◌, ◌<◌, ◌≡◌, ◌≢◌, refl, sym, ap, ◌∙◌, subst, false, none, some, List, [],
  ◌∷◌, ◌++◌, length, All, inl, inr, Bool-cases, arith,
}
use jingwei.Base.Sets.{contains, Distinct, Distinct-concat, text_eq-sym}
use jingwei.Base.Text.{Text}
use jingwei.Base.Word.{u64_mod}
use jingwei.Core.Event.{SessionEvent}
use jingwei.Session.Vocabulary.{SessionEventDraft}
use jingwei.Session.Log.{expected_seq, IsPlaced, IsLog, event_ids}
use jingwei.Session.Coordinator.{ActiveTurn, CoordinatorState}
use jingwei.Session.Coordinator.Turn.{drop, close_turn, is_terminal, find_event, candidate_event}
use jingwei.Session.Coordinator.Effects.{marked, Effect}

module _ {A : Type 0} where
  pub length-concat : (xs : List A) (x : A) → length (xs ++ x ∷ []) ≡ suc (length xs)
  length-concat [] x = refl
  length-concat (y ∷ xs) x = ap suc (length-concat xs x)

  pub drop-concat :
      (n : ℕ) (xs : List A) (x : A) → n ≤ length xs → drop n (xs ++ x ∷ []) ≡ drop n xs ++ x ∷ []
  unfolding drop
  drop-concat zero xs x h = refl
  drop-concat (suc n) [] x h = absurd (omega arith)
  drop-concat (suc n) (y ∷ xs) x h = drop-concat n xs x (omega arith)

  pub drop-all : (xs : List A) → drop (length xs) xs ≡ []
  unfolding drop
  drop-all [] = refl
  drop-all (x ∷ xs) = drop-all xs

  All-concat : (P : A → Type 0) (xs : List A) (x : A) → All P xs → P x → All P (xs ++ x ∷ [])
  All-concat P [] x all p = (p, tt)
  All-concat P (y ∷ xs) x (q, all) p = (q, All-concat P xs x all p)

expected_seq-small : (n : ℕ) → n < u64_mod → n ≡ expected_seq (0 + n)
unfolding expected_seq
expected_seq-small n h = ground arith

-- Marking a turn as closed changes nothing of its lease.
close_turn-cases :
    (turn : ActiveTurn) (closed : ActiveTurn) (turn_id : Text) (seq : ℕ)
    → close_turn (some turn) turn_id seq ≡ some closed
    → (closed.token ≡ turn.token)
      × (closed.turn_id ≡ turn.turn_id)
      × (closed.start_seq ≡ turn.start_seq)
unfolding close_turn
close_turn-cases turn closed turn_id seq e = ground arith

pub none≢some : {turn : ActiveTurn} → none ≢ some turn
none≢some = λ e. cc

module _ {Value : Type 0} where
  -- A lease that was granted under an issued token, and that owns the log from its start.
  pub record IsCurrent (events : List (SessionEvent Value)) (next_token : ℕ) (turn : ActiveTurn)
      : Type 0 where
    pub issued : turn.token < next_token
    pub starts : turn.start_seq ≤ length events
    pub owns : All (λ event. event.turn_id ≡ turn.turn_id) (drop turn.start_seq events)

  -- The log is in order, a lease is current, and without a log in memory there is no lease.
  pub record IsOrderly (session_id : Text) (s : CoordinatorState Value) : Type 0 where
    pub log : IsLog session_id s.events
    pub lease : (turn : ActiveTurn) → s.active ≡ some turn → IsCurrent s.events s.next_token turn
    pub unloaded : s.loaded ≡ false → s.active ≡ none

  find_event-none :
      (id : Text) (events : List (SessionEvent Value))
      → find_event id events ≡ none
      → contains id (event_ids events) ≡ false
  unfolding find_event contains
  find_event-none id [] e = refl
  find_event-none id (event ∷ events) e =
      ground (arith, text_eq-sym event.event_id id, find_event-none id events)

  IsPlaced-concat :
      (session_id : Text) (index : ℕ) (events : List (SessionEvent Value))
      (event : SessionEvent Value)
      → IsPlaced session_id index events
      → event.session_id ≡ session_id
      → event.seq ≡ expected_seq (index + length events)
      → IsPlaced session_id index (events ++ event ∷ [])
  unfolding IsPlaced
  IsPlaced-concat session_id index [] event placed own seq =
      (own, seq ∙ ap expected_seq (omega arith), tt)
  IsPlaced-concat session_id index (first ∷ events) event (a, b, placed) own seq = (
    a,
    b,
    IsPlaced-concat session_id (suc index) events event placed own
        (seq ∙ ap expected_seq (omega arith)),
  )

  event_ids-concat :
      (events : List (SessionEvent Value)) (event : SessionEvent Value)
      → event_ids (events ++ event ∷ []) ≡ event_ids events ++ event.event_id ∷ []
  event_ids-concat [] event = refl
  event_ids-concat (first ∷ events) event =
      ap (λ ids. first.event_id ∷ ids) (event_ids-concat events event)

  -- The next event keeps the log in order.
  IsLog-next :
      (session_id turn_id : Text) (events : List (SessionEvent Value))
      (draft : SessionEventDraft Value)
      → IsLog session_id events
      → find_event draft.event_id events ≡ none
      → length events < u64_mod
      → IsLog session_id (events ++ candidate_event session_id turn_id (length events) draft ∷ [])
  unfolding IsLog candidate_event
  IsLog-next session_id turn_id events draft (placed, distinct) unused small =
      let event = candidate_event session_id turn_id (length events) draft in
      (
        IsPlaced-concat session_id 0 events event placed refl
            (expected_seq-small (length events) small),
        subst (λ ids. Distinct ids) (sym (event_ids-concat events event))
            (Distinct-concat draft.event_id (event_ids events) distinct
              (find_event-none draft.event_id events unused)),
      )

  pub marked-cases :
      (s : CoordinatorState Value) (event : SessionEvent Value) (turn closed : ActiveTurn)
      → s.active ≡ some turn
      → marked s event ≡ some closed
      → (closed.token ≡ turn.token)
        × (closed.turn_id ≡ turn.turn_id)
        × (closed.start_seq ≡ turn.start_seq)
  marked-cases s event turn closed held e = elim (Bool-cases (is_terminal event.kind)) [
    | inl terminal ↦ close_turn-cases turn closed event.turn_id event.seq (ground arith)
    | inr open_still ↦ ground arith
  ]

  IsCurrent-next :
      (events : List (SessionEvent Value)) (event : SessionEvent Value) (next_token : ℕ)
      (turn closed : ActiveTurn)
      → IsCurrent events next_token turn
      → event.turn_id ≡ turn.turn_id
      → (closed.token ≡ turn.token)
        × (closed.turn_id ≡ turn.turn_id)
        × (closed.start_seq ≡ turn.start_seq)
      → IsCurrent (events ++ event ∷ []) next_token closed
  IsCurrent-next events event next_token turn closed current own (token, id, start) = record {
    issued = omega (arith, token, current.issued);
    starts = omega (arith, start, current.starts, length-concat events event);
    owns =
        subst (λ id. All (λ e. e.turn_id ≡ id) (drop closed.start_seq (events ++ event ∷ [])))
          (sym id)
          (subst (λ rest. All (λ e. e.turn_id ≡ turn.turn_id) rest)
            (sym (
              ap (λ n. drop n (events ++ event ∷ [])) start
              ∙ drop-concat turn.start_seq events event current.starts))
            (All-concat (λ e. e.turn_id ≡ turn.turn_id) (drop turn.start_seq events) event
              current.owns own));
  }

  candidate_event-turn :
      (session_id turn_id : Text) (seq : ℕ) (draft : SessionEventDraft Value)
      (event : SessionEvent Value)
      → event ≡ candidate_event session_id turn_id seq draft
      → event.turn_id ≡ turn_id
  unfolding candidate_event
  candidate_event-turn session_id turn_id seq draft event e = ap (λ x. x.turn_id) e

  pub IsOrderly-same :
      (session_id : Text) (s t : CoordinatorState Value)
      → IsOrderly session_id s
      → (t.events ≡ s.events)
      → (t.active ≡ s.active)
      → (t.next_token ≡ s.next_token)
      → (t.loaded ≡ s.loaded)
      → IsOrderly session_id t
  IsOrderly-same session_id s t orderly events active next loaded = record {
    log = subst (λ log. IsLog session_id log) (sym events) orderly.log;
    lease = λ turn held.
        subst (λ log. IsCurrent log t.next_token turn) (sym events)
          (subst (λ n. IsCurrent s.events n turn) (sym next)
            (orderly.lease turn (sym active ∙ held)));
    unloaded = λ e. active ∙ orderly.unloaded (sym loaded ∙ e);
  }

  -- An append keeps the order.
  pub Effect-IsOrderly :
      (session_id : Text) (s t : CoordinatorState Value) (draft : SessionEventDraft Value)
      → IsOrderly session_id s
      → Effect session_id s draft t
      → IsOrderly session_id t
  unfolding Effect
  Effect-IsOrderly session_id s t draft orderly ((loaded, next, pending), inl (events, active)) =
      IsOrderly-same session_id s t orderly events active next loaded
  Effect-IsOrderly session_id s t draft orderly
        ((loaded, next, pending), inr (turn, event, is_next, events, active)) =
      record {
        log =
            subst (λ log. IsLog session_id log)
              (sym (events ∙ ap (λ e. s.events ++ e ∷ []) is_next.is_candidate))
              (IsLog-next session_id turn.turn_id s.events draft orderly.log is_next.unused
                is_next.small);
        lease = λ closed held.
            subst (λ log. IsCurrent log t.next_token closed) (sym events)
              (subst (λ n. IsCurrent (s.events ++ event ∷ []) n closed) (sym next)
                (IsCurrent-next s.events event s.next_token turn closed
                  (orderly.lease turn is_next.holds)
                  (candidate_event-turn session_id turn.turn_id (length s.events) draft event
                    is_next.is_candidate)
                  (marked-cases s event turn closed is_next.holds (sym active ∙ held))));
        unloaded =
            λ e. absurd (none≢some (sym (orderly.unloaded (sym loaded ∙ e)) ∙ is_next.holds));
      }

  -- Giving up the lease keeps the order.
  pub IsOrderly-released :
      (session_id : Text) (s t : CoordinatorState Value)
      → IsOrderly session_id s
      → t.events ≡ s.events
      → t.active ≡ none
      → IsOrderly session_id t
  IsOrderly-released session_id s t orderly events active = record {
    log = subst (λ log. IsLog session_id log) (sym events) orderly.log;
    lease = λ turn held. absurd (none≢some (sym active ∙ held));
    unloaded = λ e. active;
  }
