-- ===== src/Budget/Invariant/Reports.antt =====
-- Replacing the run of a ledger by one with the same accounts, and the checks that come first.
use jingwei.Base.{
  ℕ, ◌+◌, ◌≤◌, ◌<◌, ◌≡◌, ◌≢◌, ◌⊎◌, Option, none, some, List, [], ◌∷◌, arith, All, get_or_insert,
}
use jingwei.Base.Word.{u64_mod}
use jingwei.Budget.Amounts.{Amounts, Limits}
use jingwei.Budget.Vocabulary.{StopReason, RunReport, Pending}
use jingwei.Budget.Ledger.{Inner, RunState, State, BudgetError}
use jingwei.Budget.Ledger.Action.{ok, err, panicked}
use jingwei.Budget.Ledger.Clock.{check_run, check_writable, check_stop, allocate_id}
use jingwei.Budget.Invariant.{TaskInv, RunInv, Inv}

-- The report `b` has the accounts of `a`, and a stop if `a` has one.
pub record SameAccounts (a b : RunReport) : Type 0 where
  pub same_limits : b.limits ≡ a.limits
  pub same_charged : b.charged ≡ a.charged
  pub same_reserved : b.reserved ≡ a.reserved
  pub same_active : b.active_time ≡ a.active_time
  pub same_cleanup : b.cleanup_time ≡ a.cleanup_time
  pub keeps_stop : b.stop ≡ none → a.stop ≡ none

-- A run may be replaced by one with the same accounts.
pub Inv-report :
    (inner : Inner) (s : State) (run run' : RunState)
    → Inv inner s
    → s.run ≡ some run
    → SameAccounts run.report run'.report
    → run'.id ≡ run.id
    → Inv inner (record s { run = some run' })
Inv-report inner s run run' h e same i = record {
  limits_word = h.limits_word;
  task = h.task;
  run_part = record {
    run_reserved = λ r. rw same.same_reserved (part.run_reserved r);
    run_charged = λ r. rw same.same_charged (part.run_charged r);
    run_attempts = λ r a. rw same.same_charged (part.run_attempts r a);
    run_limits = rw same.same_limits part.run_limits;
    run_within =
        λ x y r. rw (same.same_charged, same.same_limits) (part.run_within x (same.keeps_stop y) r);
    run_time = λ x y. rw (same.same_active, same.same_limits) (part.run_time x (same.keeps_stop y));
    run_active = rw same.same_active part.run_active;
    run_cleanup = rw same.same_cleanup part.run_cleanup;
    run_id_below = rw i part.run_id_below;
  };
  evidence = h.evidence;
}
  where
    part :
        RunInv inner.limits s.charged s.reserved s.active_time s.cleanup_time s.stop s.pending
          s.next_id run
    part = rw e at h.run_part

-- A run whose report is closed or otherwise marked.
abbrev pub marked : RunState → RunReport → RunState
marked run report = record run { report = report }

pub check_writable-total : (s : State) → check_writable s ≢ panicked
unfolding check_writable
check_writable-total s = ground arith

pub check_run-total : (id : ℕ) (s : State) → check_run id s ≢ panicked
unfolding check_run
check_run-total id s = ground arith

pub check_stop-total : (s : State) → check_stop s ≢ panicked
unfolding check_stop
check_stop-total s = ground arith

-- An id is allocated, above all that are in use, or the id space is exhausted and the task stops.
pub allocate_id_cases :
    (s : State)
    → ((s.next_id + 1 < u64_mod)
        × (allocate_id s ≡ (ok (s.next_id + 1), record s { next_id = s.next_id + 1 })))
      ⊎ (allocate_id s ≡ (
        err (BudgetError.stopped StopReason.accounting_overflow),
        record s { stop = get_or_insert s.stop StopReason.accounting_overflow },
      ))
unfolding allocate_id
allocate_id_cases s = ground arith

All-below : (n m : ℕ) (ps : List Pending) → n ≤ m → All (λ p. p.id ≤ n) ps → All (λ p. p.id ≤ m) ps
All-below n m [] h a = tt
All-below n m (p ∷ ps) h a = (omega arith, All-below n m ps h a.1)

-- The watermark of the ids may rise.
pub TaskInv-next :
    (limits : Limits) (charged reserved : Amounts) (active : ℕ) (stop : Option StopReason)
    (pending : List Pending) (n m : ℕ)
    → n ≤ m
    → m < u64_mod
    → TaskInv limits charged reserved active stop pending n
    → TaskInv limits charged reserved active stop pending m
TaskInv-next limits charged reserved active stop pending n m le word h = record {
  charged_word = h.charged_word;
  reserved_word = h.reserved_word;
  reserved_exact = h.reserved_exact;
  attempts_charged = h.attempts_charged;
  within_limits = h.within_limits;
  within_time = h.within_time;
  ids_below = All-below n m pending le h.ids_below;
  next_word = word;
}
