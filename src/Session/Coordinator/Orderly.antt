-- ===== src/Session/Coordinator/Orderly.antt =====
-- crates/session/runtime/src/coordinator.rs: a coordinator is in order after any commands.
use jingwei.Base.{◌+◌, ◌≡◌, ◌≢◌, refl, sym, ◌∙◌, subst, true, false, none, some, List, All, arith}
use jingwei.Base.Result.{ok}
use jingwei.Base.Sets.{Distinct}
use jingwei.Base.Text.{Text}
use jingwei.Session.Log.{validate_physical_log, validate_physical_log_iff, IsLog, IsPlaced}
use jingwei.Session.Coordinator.{ActiveTurn, CoordinatorState, Moment, Command, default_state}
use jingwei.Session.Coordinator.Turn.{drop}
use jingwei.Session.Coordinator.Invariant.{
  IsCurrent, IsOrderly, IsOrderly-same, IsOrderly-released, Effect-IsOrderly, drop-all, none≢some,
}
use jingwei.Session.Coordinator.Commands.{serve_all, fresh_coordinator}
use jingwei.Session.Coordinator.Steps.{granted_turn, IsStable}
use jingwei.Session.Coordinator.Preserved.{serve_all-keeps}

same_turn : {a b : ActiveTurn} → some a ≡ some b → a ≡ b
same_turn e = cc

true≢false : true ≢ false
true≢false = λ e. cc

module _ {Value : Type 0} (session_id : Text) where
  default_state-IsOrderly : IsOrderly session_id (default_state {Value = Value})
  unfolding default_state IsLog IsPlaced Distinct
  default_state-IsOrderly = record { log = (tt, tt); lease = λ turn held. cc; unloaded = λ e. refl }

  IsOrderly-idle :
      (s : CoordinatorState Value)
      → IsLog session_id s.events
      → s.active ≡ none
      → IsOrderly session_id s
  IsOrderly-idle s log idle = record {
    log = log;
    lease = λ turn held. absurd (none≢some (sym idle ∙ held));
    unloaded = λ e. idle;
  }

  granted_turn-IsCurrent :
      (s : CoordinatorState Value) (moment : Moment Value)
      → IsCurrent s.events (s.next_token + 1) (granted_turn s moment)
  unfolding granted_turn
  granted_turn-IsCurrent s moment = record {
    issued = omega arith;
    starts = omega arith;
    owns = subst (λ rest. All (λ e. e.turn_id ≡ moment.turn_id) rest) (sym (drop-all s.events)) tt;
  }

  IsOrderly-granted :
      (s t : CoordinatorState Value) (moment : Moment Value)
      → IsOrderly session_id s
      → t.loaded ≡ true
      → t.events ≡ s.events
      → t.active ≡ some (granted_turn s moment)
      → t.next_token ≡ s.next_token + 1
      → IsOrderly session_id t
  IsOrderly-granted s t moment orderly loaded events active next = record {
    log = subst (λ log. IsLog session_id log) (sym events) orderly.log;
    lease = λ turn held.
        subst (λ log. IsCurrent log t.next_token turn) (sym events)
          (subst (λ n. IsCurrent s.events n turn) (sym next)
            (subst (λ u. IsCurrent s.events (s.next_token + 1) u) (same_turn (sym active ∙ held))
              (granted_turn-IsCurrent s moment)));
    unloaded = λ e. absurd (true≢false (sym loaded ∙ e));
  }

  pub IsOrderly-IsStable : IsStable session_id (IsOrderly {Value = Value} session_id)
  IsOrderly-IsStable = record {
    same = λ s t orderly events active next loaded.
        IsOrderly-same session_id s t orderly events active next loaded;
    released =
        λ s t orderly events active next. IsOrderly-released session_id s t orderly events active;
    loads = λ s t orderly idle active next valid.
        IsOrderly-idle t ((validate_physical_log_iff session_id t.events).0 valid) active;
    grants = λ s t moment orderly idle loaded events active next.
        IsOrderly-granted s t moment orderly loaded events active next;
    appends = λ s t draft orderly effect. Effect-IsOrderly session_id s t draft orderly effect;
  }

  module _ (Value-discrete : Discrete Value) where
    -- After any commands, whatever the provider answers, whoever has hung up and whether the runtime is
    -- stopping, the log that a coordinator holds is one that the check of physical logs accepts, and all
    -- events from the start of the turn that holds the lease are that turn's.
    pub serve_all-IsOrderly :
        (commands : List (Command Value))
        → let s =
            (serve_all Value-discrete session_id
              (fresh_coordinator Value-discrete session_id)
              commands).0.state in
          (validate_physical_log session_id s.events ≡ ok tt)
          × ((turn : ActiveTurn)
              → s.active ≡ some turn
              → All (λ event. event.turn_id ≡ turn.turn_id) (drop turn.start_seq s.events))
    unfolding fresh_coordinator
    serve_all-IsOrderly commands =
        let fresh = fresh_coordinator Value-discrete session_id in
        let orderly =
          serve_all-keeps session_id (IsOrderly session_id) IsOrderly-IsStable Value-discrete fresh
            commands default_state-IsOrderly in
        (
          (validate_physical_log_iff session_id
                (serve_all Value-discrete session_id fresh commands).0.state.events).1
              orderly.log,
          λ turn held. (orderly.lease turn held).owns,
        )
