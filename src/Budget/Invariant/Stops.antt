-- ===== src/Budget/Invariant/Stops.antt =====
-- Recording a stop keeps every part of the invariant: it only frees the ledger of its bounds.
use jingwei.Base.{ℕ, ◌≡◌, Option, none, some, List}
use jingwei.Budget.Amounts.{Amounts, Limits}
use jingwei.Budget.Vocabulary.{StopReason, Pending}
use jingwei.Budget.Ledger.{Inner, RunState, State}
use jingwei.Budget.Invariant.{TaskInv, RunPart, Inv}

module _ (limits : Limits) (charged reserved : Amounts) (active cleanup : ℕ)
    (pending : List Pending) (next_id : ℕ) (stop stop' : Option StopReason)
    (keeps : stop' ≡ none → stop ≡ none) where
  pub TaskInv-stop :
      TaskInv limits charged reserved active stop pending next_id
      → TaskInv limits charged reserved active stop' pending next_id
  TaskInv-stop h = record {
    charged_word = h.charged_word;
    reserved_word = h.reserved_word;
    reserved_exact = h.reserved_exact;
    attempts_charged = h.attempts_charged;
    ids_below = h.ids_below;
    next_word = h.next_word;
    within_limits = λ e. h.within_limits (keeps e);
    within_time = λ e. h.within_time (keeps e);
  }

  pub RunPart-stop :
      (run : Option RunState)
      → RunPart limits charged reserved active cleanup stop pending next_id run
      → RunPart limits charged reserved active cleanup stop' pending next_id run
  RunPart-stop none h = h
  RunPart-stop (some run) h = record {
    run_reserved = h.run_reserved;
    run_charged = h.run_charged;
    run_attempts = h.run_attempts;
    run_limits = h.run_limits;
    run_active = h.run_active;
    run_cleanup = h.run_cleanup;
    run_id_below = h.run_id_below;
    run_within = λ e. h.run_within (keeps e);
    run_time = λ e. h.run_time (keeps e);
  }

-- The task stop of a ledger may be set.
pub Inv-stop :
    (inner : Inner) (s : State) (stop : Option StopReason)
    → (stop ≡ none → s.stop ≡ none)
    → Inv inner s
    → Inv inner (record s { stop = stop })
Inv-stop inner s stop keeps h = record {
  limits_word = h.limits_word;
  task =
      TaskInv-stop inner.limits s.charged s.reserved s.active_time s.cleanup_time s.pending
        s.next_id s.stop stop keeps h.task;
  run_part =
      RunPart-stop inner.limits s.charged s.reserved s.active_time s.cleanup_time s.pending
        s.next_id s.stop stop keeps s.run h.run_part;
  evidence = h.evidence;
}
