-- ===== src/Budget/Invariant/Settled.antt =====
-- The ledger after an entry has been cancelled or settled.
use jingwei.Base.{ℕ, ◌+◌, ◌≤◌, ◌<◌, ◌≡◌, refl, ap, ◌⊎◌, true, false, Option, none, some, arith}
use jingwei.Base.Word.{u64_mod}
use jingwei.Budget.Amounts.{Resource, is_attempt, Amounts, get}
use jingwei.Budget.Vocabulary.{Pending, UsageReport, StopReason}
use jingwei.Budget.Ledger.{Inner, RunState, State}
use jingwei.Budget.Ledger.Requests.{find_pending, remove_pending}
use jingwei.Budget.Ledger.Settlement.{Draft}
use jingwei.Budget.Invariant.{pending_sum, RunInv, EvidenceInv, Inv}
use jingwei.Budget.Invariant.Entries.{pending_sum-remove, ids-remove}
use jingwei.Budget.Invariant.Release.{minus_variables, settled, gives_back}
use jingwei.Budget.Invariant.Settlement.{Covering}

-- New charges that grow by the same debit in task and run, attempts by none.
pub record Charging (s : State) (run : RunState) (a charged run_charged : Amounts)
    (stop : Option StopReason) : Type 0 where
  pub debit : Resource → ℕ
  pub task_charged : (r : Resource) → get charged r ≡ get s.charged r + debit r
  pub run_charged_too : (r : Resource) → get run_charged r ≡ get run.report.charged r + debit r
  pub attempt_free : (r : Resource) → is_attempt r ≡ true → debit r ≡ 0
  pub fits_word : (r : Resource) → get s.charged r + debit r < u64_mod
  pub in_reserve : stop ≡ none → (r : Resource) → debit r ≤ get a r
  pub keeps_stop : stop ≡ none → s.stop ≡ none

pub settled-Inv :
    (inner : Inner) (s : State) (run : RunState) (p : Pending) (id : ℕ)
    (charged run_charged : Amounts) (usage : UsageReport) (stop : Option StopReason)
    → Inv inner s
    → s.run ≡ some run
    → find_pending id s.pending ≡ some p
    → Charging s run p.request.amounts charged run_charged stop
    → EvidenceInv usage charged
    → Inv inner
        (record (settled id p.request.amounts charged run_charged usage s run) { stop = stop })
settled-Inv inner s run p id charged run_charged usage stop h e found c covered = record {
  limits_word = h.limits_word;
  task = record {
    charged_word = λ r. omega (arith, c.task_charged r, c.fits_word r);
    reserved_word = λ r. ground (arith, back r, h.task.reserved_word r);
    reserved_exact = λ r. ground (arith, back r);
    attempts_charged = λ r a. omega (arith, c.task_charged r, h.task.attempts_charged r a, left r);
    within_limits = λ x r. ground (
      arith,
      back r,
      c.task_charged r,
      c.in_reserve x r,
      c.attempt_free r,
      h.task.within_limits (c.keeps_stop x) r,
    );
    within_time = λ x. h.task.within_time (c.keeps_stop x);
    ids_below = ids-remove s.next_id id s.pending h.task.ids_below;
    next_word = h.task.next_word;
  };
  run_part = record {
    run_reserved = λ r. ground (arith, back r);
    run_charged = λ r. omega (arith, c.task_charged r, c.run_charged_too r, part.run_charged r);
    run_attempts = λ r a. omega (arith, c.run_charged_too r, part.run_attempts r a, left r);
    run_limits = part.run_limits;
    run_within = λ x y r. ground (
      arith,
      back r,
      c.run_charged_too r,
      c.in_reserve x r,
      c.attempt_free r,
      part.run_within (c.keeps_stop x) y r,
    );
    run_time = λ x y. part.run_time (c.keeps_stop x) y;
    run_active = part.run_active;
    run_cleanup = part.run_cleanup;
    run_id_below = part.run_id_below;
  };
  evidence = covered;
}
  where
    part :
        RunInv inner.limits s.charged s.reserved s.active_time s.cleanup_time s.stop s.pending
          s.next_id run
    part = rw e at h.run_part

    left :
        (r : Resource)
        → get p.request.amounts r + pending_sum r (remove_pending id s.pending)
          ≡ pending_sum r s.pending
    left r = pending_sum-remove r id p s.pending found

    back :
        (r : Resource)
        → ((is_attempt r ≡ true)
            × (get (minus_variables p.request.amounts s.reserved) r ≡ get s.reserved r)
            × (get (minus_variables p.request.amounts run.report.reserved) r ≡ get s.reserved r)
            × (get s.reserved r ≡ 0))
          ⊎ ((is_attempt r ≡ false)
              × (get (minus_variables p.request.amounts s.reserved) r + get p.request.amounts r
                  ≡ get s.reserved r)
              × (get (minus_variables p.request.amounts run.report.reserved) r
                    + get p.request.amounts r
                  ≡ get s.reserved r)
              × (get s.reserved r
                  ≡ get p.request.amounts r + pending_sum r (remove_pending id s.pending)))
    back r = gives_back inner s run p id h e found r

-- A cancelled entry charges nothing.
pub no_charge :
    (inner : Inner) (s : State) (run : RunState) (a : Amounts)
    → Inv inner s
    → Charging s run a s.charged run.report.charged s.stop
no_charge inner s run a h = record {
  debit = λ r. 0;
  task_charged = λ r. omega arith;
  run_charged_too = λ r. omega arith;
  attempt_free = λ r x. refl;
  fits_word = λ r. omega (arith, h.task.charged_word r);
  in_reserve = λ x r. omega arith;
  keeps_stop = λ x. x;
}

-- The debits of a settlement, for the resource that each is about.
debit_for : ℕ → ℕ → ℕ → Resource → ℕ
debit_for x y z Resource.input_tokens = x
debit_for x y z Resource.output_tokens = y
debit_for x y z Resource.tool_output_bytes = z
debit_for x y z r = 0

-- The rounds of a settlement charge the entry, if a breach stops the task.
pub Covering-Charging :
    (inner : Inner) (s : State) (run : RunState) (a : Amounts) (after : UsageReport) (draft : Draft)
    (stop : Option StopReason)
    → Inv inner s
    → Covering s.charged run.report.charged s.usage after a draft
    → (stop ≡ none → (s.stop ≡ none) × (draft.breach ≡ none))
    → Charging s run a draft.charged draft.run_charged stop
unfolding debit_for get
Covering-Charging inner s run a after draft stop h k none_set = record {
  debit = debit_for k.input k.output k.bytes;
  task_charged = λ r. charged_by r;
  run_charged_too = λ r. run_by r;
  attempt_free = λ r x. free r x;
  fits_word = λ r. word r;
  in_reserve = λ x r. within (k.in_reserve (none_set x).1) r;
  keeps_stop = λ x. (none_set x).0;
}
  where
    charged_by :
        (r : Resource)
        → get draft.charged r ≡ get s.charged r + debit_for k.input k.output k.bytes r
    charged_by Resource.steps =
        omega (arith, ap (λ (v : Amounts). get v Resource.steps) k.charged_set)
    charged_by r = omega (arith, ap (λ (v : Amounts). get v r) k.charged_set)

    run_by :
        (r : Resource)
        → get draft.run_charged r ≡ get run.report.charged r + debit_for k.input k.output k.bytes r
    run_by Resource.steps = omega (arith, ap (λ (v : Amounts). get v Resource.steps) k.run_set)
    run_by r = omega (arith, ap (λ (v : Amounts). get v r) k.run_set)

    free : (r : Resource) → is_attempt r ≡ true → debit_for k.input k.output k.bytes r ≡ 0
    free Resource.steps x = refl
    free r x = ground arith

    word : (r : Resource) → get s.charged r + debit_for k.input k.output k.bytes r < u64_mod
    word Resource.steps = omega (arith, h.task.charged_word Resource.steps)
    word r = omega (arith, k.words, h.task.charged_word r)

    within :
        (k.input ≤ a.input_tokens) × (k.output ≤ a.output_tokens) × (k.bytes ≤ a.tool_output_bytes)
        → (r : Resource) → debit_for k.input k.output k.bytes r ≤ get a r
    within w Resource.steps = omega arith
    within w r = omega arith
