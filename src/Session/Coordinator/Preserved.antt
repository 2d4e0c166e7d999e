-- ===== src/Session/Coordinator/Preserved.antt =====
-- crates/session/runtime/src/coordinator.rs: what every step of the coordinator keeps, every command
-- keeps. A step leaves the log and the lease alone, gives up the lease, reads the log, grants a turn or
-- appends.
use jingwei.Base.{
  ℕ, ◌≡◌, refl, sym, ◌∙◌, subst, Bool, true, false, Option, none, some, List, [], ◌∷◌, ◌++◌,
  is_some, inl, inr, by_test, arith,
}
use jingwei.Base.Result.{ok}
use jingwei.Base.Text.{Text}
use jingwei.Session.Coordinator.{CoordinatorState, Moment, Command}
use jingwei.Session.Coordinator.Turn.{Answer, settle_turn}
use jingwei.Session.Coordinator.Append.{append}
use jingwei.Session.Coordinator.Effects.{append-Effect}
use jingwei.Session.Coordinator.Commands.{
  admit_loaded, load_log, admit_turn, reject_pending, after, grant_from, grant_pending, on_begin,
  on_abandon, on_settle, holds_lease, Coordinator, keep, serve, serve_all,
}
use jingwei.Session.Coordinator.Steps.{
  IsStable, settle-cases, load_log-cases, admit_loaded-cases, admit_turn-cases,
}

is_some-none : {A : Type 0} {o : Option A} → is_some o ≡ false → o ≡ none
is_some-none {o = none} e = refl
is_some-none {o = some a} e = cc

module _ {Value : Type 0} (session_id : Text) (P : CoordinatorState Value → Type 0)
    (stable : IsStable session_id P) where
  settle-keeps :
      (s : CoordinatorState Value) (token : ℕ) (turn_id : Text) (response : ℕ)
      → P s
      → P (settle_turn session_id s token turn_id response).0
  settle-keeps s token turn_id response kept =
      let t = (settle_turn session_id s token turn_id response).0 in
      let (events, loaded, next, released) = settle-cases session_id s token turn_id response in
      elim released [
        | inl active ↦ stable.same s t kept events active next loaded
        | inr active ↦ stable.released s t kept events active (omega (arith, next))
      ]

  load_log-keeps :
      (s ready : CoordinatorState Value) (moment : Moment Value)
      → load_log session_id s moment ≡ ok ready
      → s.active ≡ none
      → P s
      → P ready
  load_log-keeps s ready moment e idle kept =
      let (active, loaded, next, pending, log) = load_log-cases session_id s ready moment e in
      elim log [
        | inl same ↦ subst P (sym same) kept
        | inr (unloaded, valid) ↦ stable.loads s ready kept idle (active ∙ idle) next valid
      ]

  admit_loaded-keeps :
      (s : CoordinatorState Value) (response : ℕ) (moment : Moment Value)
      → s.active ≡ none
      → s.loaded ≡ true
      → P s
      → P (admit_loaded session_id s response moment).1.0
  admit_loaded-keeps s response moment idle ready kept =
      let t = (admit_loaded session_id s response moment).1.0 in
      let (events, loaded, pending, outcome) = admit_loaded-cases session_id s response moment in
      elim outcome [
        | inl (active, next) ↦ stable.same s t kept events active next loaded
        | inr (inl (active, next)) ↦ stable.released s t kept events active (omega (arith, next))
        | inr (inr (active, next)) ↦
            stable.grants s t moment kept idle (loaded ∙ ready) events active next
      ]

  admit_turn-keeps :
      (s : CoordinatorState Value) (response : ℕ) (moment : Moment Value)
      → s.active ≡ none
      → P s
      → P (admit_turn session_id s response moment).1.0
  admit_turn-keeps s response moment idle kept =
      elim (admit_turn-cases session_id s response moment) [
        | inl same ↦ subst P (sym same) kept
        | inr (ready, loading, e) ↦
            let (active, loaded, next, pending, log) =
              load_log-cases session_id s ready moment loading in
            subst (λ answer. P answer.1.0) (sym e)
              (admit_loaded-keeps ready response moment (active ∙ idle) loaded
                (load_log-keeps s ready moment loading idle kept))
      ]

  reject_pending-keeps : (s : CoordinatorState Value) → P s → P (reject_pending s).0
  unfolding reject_pending
  reject_pending-keeps s kept = stable.same s (record s { pending = [] }) kept refl refl refl refl

  with_queue :
      (s : CoordinatorState Value) (queue : List ℕ) → P s → P (record s { pending = queue })
  with_queue s queue kept = stable.same s (record s { pending = queue }) kept refl refl refl refl

  -- An answer whose state is in order.
  abbrev Keeps : Answer Value → Type 0
  Keeps answer = P answer.0

  grant_from-keeps :
      (moments : ℕ → Moment Value) (queue : List ℕ) (s : CoordinatorState Value)
      → P s
      → P (grant_from session_id moments queue s).0
  unfolding grant_from after
  grant_from-keeps moments [] s kept = with_queue s [] kept
  grant_from-keeps moments (response ∷ queue) s kept =
      let attempted = record s { pending = queue } in
      let tried : s.active ≡ none
          → P (admit_turn session_id attempted response (moments response)).1.0 =
        λ idle.
          admit_turn-keeps attempted response (moments response) idle (with_queue s queue kept) in
      by_test Keeps (is_some s.active) (λ busy. with_queue s (response ∷ queue) kept)
        (λ idle.
          by_test Keeps (moments response).closed_before
            (λ closed. grant_from-keeps moments queue s kept)
            (λ receiving.
              by_test Keeps (admit_turn session_id attempted response (moments response)).0
                (λ granted. tried (is_some-none idle))
                (λ refused.
                  grant_from-keeps moments queue
                    (admit_turn session_id attempted response (moments response)).1.0
                    (tried (is_some-none idle)))))

  grant_pending-keeps :
      (stopping : Bool) (moments : ℕ → Moment Value) (s : CoordinatorState Value)
      → P s
      → P (grant_pending session_id stopping moments s).0
  unfolding grant_pending
  grant_pending-keeps true moments s kept = reject_pending-keeps s kept
  grant_pending-keeps false moments s kept = grant_from-keeps moments s.pending s kept

  on_begin-keeps :
      (s : CoordinatorState Value) (response : ℕ) (stopping : Bool) (moment : Moment Value)
      → P s
      → P (on_begin session_id s response stopping moment).0
  unfolding on_begin
  on_begin-keeps s response stopping moment kept =
      by_test Keeps stopping (λ stopped. kept)
        (λ running.
          by_test Keeps moment.closed_before (λ closed. kept)
            (λ receiving.
              by_test Keeps (is_some s.active)
                (λ busy. with_queue s (s.pending ++ response ∷ []) kept)
                (λ idle. admit_turn-keeps s response moment (is_some-none idle) kept)))

  on_abandon-keeps :
      (s : CoordinatorState Value) (token : ℕ) (stopping : Bool) (moments : ℕ → Moment Value)
      → P s
      → P (on_abandon session_id s token stopping moments).0
  unfolding on_abandon
  on_abandon-keeps s token stopping moments kept =
      by_test Keeps (holds_lease s.active token)
        (λ held.
          grant_pending-keeps stopping moments (record s { active = none })
            (stable.released s (record s { active = none }) kept refl refl (omega arith)))
        (λ stale. kept)

  on_settle-keeps :
      (s : CoordinatorState Value) (token : ℕ) (turn_id : Text) (response : ℕ) (stopping : Bool)
      (moments : ℕ → Moment Value)
      → P s
      → P (on_settle session_id s token turn_id response stopping moments).0
  unfolding on_settle after
  on_settle-keeps s token turn_id response stopping moments kept =
      grant_pending-keeps stopping moments (settle_turn session_id s token turn_id response).0
        (settle-keeps s token turn_id response kept)

  module _ (Value-discrete : Discrete Value) where
    pub serve-keeps :
        (c : Coordinator Value) (command : Command Value)
        → P c.state
        → P (serve Value-discrete session_id c command).0.state
    unfolding serve keep
    serve-keeps c (Command.begin response stopping moment) kept =
        on_begin-keeps c.state response stopping moment kept
    serve-keeps c (Command.append token turn_id draft response committed reloaded) kept =
        stable.appends c.state
          (append Value-discrete session_id c.state token turn_id draft response committed
            reloaded).0
          draft kept
          (append-Effect Value-discrete session_id c.state token turn_id draft response committed
            reloaded)
    serve-keeps c (Command.settle token turn_id response stopping moments) kept =
        on_settle-keeps c.state token turn_id response stopping moments kept
    serve-keeps c (Command.abandon token stopping moments) kept =
        on_abandon-keeps c.state token stopping moments kept
    serve-keeps c (Command.shutdown response) kept = reject_pending-keeps c.state kept

    pub serve_all-keeps :
        (c : Coordinator Value) (commands : List (Command Value))
        → P c.state
        → P (serve_all Value-discrete session_id c commands).0.state
    unfolding serve_all
    serve_all-keeps c [] kept = kept
    serve_all-keeps c (command ∷ commands) kept =
        serve_all-keeps (serve Value-discrete session_id c command).0 commands
          (serve-keeps c command kept)
