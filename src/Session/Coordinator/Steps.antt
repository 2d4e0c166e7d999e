-- ===== src/Session/Coordinator/Steps.antt =====
-- crates/session/runtime/src/coordinator.rs: the steps that commands are made of.
use jingwei.Base.{ℕ, ◌+◌, ◌≤◌, ◌≡◌, true, false, none, some, length, ◌⊎◌, inl, inr, arith}
use jingwei.Base.Result.{ok, Result-cases}
use jingwei.Base.Text.{Text}
use jingwei.Session.Vocabulary.{SessionEventDraft}
use jingwei.Session.Log.{validate_physical_log}
use jingwei.Session.Coordinator.{ActiveTurn, CoordinatorState, Moment}
use jingwei.Session.Coordinator.Turn.{settle_turn}
use jingwei.Session.Coordinator.Effects.{Effect}
use jingwei.Session.Coordinator.Commands.{reply_begin, admit_loaded, load_log, admit_turn}

-- The lease that an admission grants.
unfoldable pub granted_turn : {Value : Type 0} → CoordinatorState Value → Moment Value → ActiveTurn
granted_turn s moment = record {
  token = s.next_token;
  turn_id = moment.turn_id;
  start_seq = length s.events;
  terminal_seq = none;
}

-- A predicate on coordinators that each step keeps.
pub record IsStable {Value : Type 0} (session_id : Text) (P : CoordinatorState Value → Type 0)
    : Type 0 where
  pub same :
      (s t : CoordinatorState Value)
      → P s
      → t.events ≡ s.events
      → t.active ≡ s.active
      → t.next_token ≡ s.next_token
      → t.loaded ≡ s.loaded
      → P t
  pub released :
      (s t : CoordinatorState Value)
      → P s
      → t.events ≡ s.events
      → t.active ≡ none
      → s.next_token ≤ t.next_token
      → P t
  pub loads :
      (s t : CoordinatorState Value)
      → P s
      → s.active ≡ none
      → t.active ≡ none
      → t.next_token ≡ s.next_token
      → validate_physical_log session_id t.events ≡ ok tt
      → P t
  pub grants :
      (s t : CoordinatorState Value) (moment : Moment Value)
      → P s
      → s.active ≡ none
      → t.loaded ≡ true
      → t.events ≡ s.events
      → t.active ≡ some (granted_turn s moment)
      → t.next_token ≡ s.next_token + 1
      → P t
  pub appends :
      (s t : CoordinatorState Value) (draft : SessionEventDraft Value)
      → P s
      → Effect session_id s draft t
      → P t

module _ {Value : Type 0} (session_id : Text) where
  pub settle-cases :
      (s : CoordinatorState Value) (token : ℕ) (turn_id : Text) (response : ℕ)
      → let t = (settle_turn session_id s token turn_id response).0 in
        (t.events ≡ s.events)
        × (t.loaded ≡ s.loaded)
        × (t.next_token ≡ s.next_token)
        × ((t.active ≡ s.active) ⊎ (t.active ≡ none))
  unfolding settle_turn
  settle-cases s token turn_id response = ground arith

  -- A log in memory stays, and one that is read has been checked.
  pub load_log-cases :
      (s ready : CoordinatorState Value) (moment : Moment Value)
      → load_log session_id s moment ≡ ok ready
      → (ready.active ≡ s.active)
        × (ready.loaded ≡ true)
        × (ready.next_token ≡ s.next_token)
        × (ready.pending ≡ s.pending)
        × ((ready ≡ s)
            ⊎ ((s.loaded ≡ false) × (validate_physical_log session_id ready.events ≡ ok tt)))
  unfolding load_log
  load_log-cases s ready moment e = ground arith

  pub admit_loaded-cases :
      (s : CoordinatorState Value) (response : ℕ) (moment : Moment Value)
      → let t = (admit_loaded session_id s response moment).1.0 in
        (t.events ≡ s.events)
        × (t.loaded ≡ s.loaded)
        × (t.pending ≡ s.pending)
        × (((t.active ≡ s.active) × (t.next_token ≡ s.next_token))
            ⊎ ((t.active ≡ none) × (t.next_token ≡ s.next_token + 1))
            ⊎ ((t.active ≡ some (granted_turn s moment)) × (t.next_token ≡ s.next_token + 1)))
  unfolding admit_loaded reply_begin granted_turn
  admit_loaded-cases s response moment = ground arith

  pub admit_turn-cases :
      (s : CoordinatorState Value) (response : ℕ) (moment : Moment Value)
      → ((admit_turn session_id s response moment).1.0 ≡ s)
        ⊎ ((ready : CoordinatorState Value) × (load_log session_id s moment ≡ ok ready)
            × (admit_turn session_id s response moment
                ≡ admit_loaded session_id ready response moment))
  unfolding admit_turn reply_begin
  admit_turn-cases s response moment = elim (Result-cases (load_log session_id s moment)) [
    | inl (failure, e) ↦ inl (ground arith)
    | inr (ready, e) ↦
        let which : ((admit_turn session_id s response moment).1.0 ≡ s)
            ⊎ (admit_turn session_id s response moment
                ≡ admit_loaded session_id ready response moment) =
          ground arith in
        elim which [ inl same ↦ inl same | inr loaded ↦ inr (ready, e, loaded) ]
  ]
