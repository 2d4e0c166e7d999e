-- ===== src/Budget/Invariant/Admit.antt =====
-- The second loop of `reserve` and the new entry: with the checks passed, no addition wraps.
use jingwei.Base.{◌+◌, ◌<◌, ◌≡◌, refl, ◌⊎◌, true, false, some, arith, if◌then◌else◌}
use jingwei.Base.Word.{u64_mod, wrapping_add, wrapping_add_exact}
use jingwei.Budget.Amounts.{Resource, all_resources, is_attempt, Amounts, get, set}
use jingwei.Budget.Vocabulary.{Request}
use jingwei.Budget.Ledger.{Inner, RunState, State}
use jingwei.Budget.Ledger.Action.{ok}
use jingwei.Budget.Ledger.Requests.{insert_pending}
use jingwei.Budget.Ledger.Reserve.{charge_each, new_pending, admit}
use jingwei.Budget.Invariant.{pending_sum, RunInv, Inv}
use jingwei.Budget.Invariant.Entries.{pending_sum-insert, ids-insert}
use jingwei.Budget.Invariant.Reports.{marked}
use jingwei.Budget.Invariant.Reserve.{Fits}

-- The attempts added, and the variable amounts added.
abbrev pub plus_attempts : Amounts → Amounts → Amounts
plus_attempts a t = record t {
  steps = wrapping_add t.steps a.steps;
  model_requests = wrapping_add t.model_requests a.model_requests;
  tool_calls = wrapping_add t.tool_calls a.tool_calls;
  corrections = wrapping_add t.corrections a.corrections;
}

abbrev pub plus_variables : Amounts → Amounts → Amounts
plus_variables a t = record t {
  input_tokens = wrapping_add t.input_tokens a.input_tokens;
  output_tokens = wrapping_add t.output_tokens a.output_tokens;
  tool_output_bytes = wrapping_add t.tool_output_bytes a.tool_output_bytes;
}

get-plus_attempts :
    (a t : Amounts) (r : Resource)
    → get (plus_attempts a t) r
      ≡ (if is_attempt r then wrapping_add (get t r) (get a r) else get t r)
unfolding get
get-plus_attempts a t Resource.steps = refl
get-plus_attempts a t r = refl

get-plus_variables :
    (a t : Amounts) (r : Resource)
    → get (plus_variables a t) r
      ≡ (if is_attempt r then get t r else wrapping_add (get t r) (get a r))
unfolding get
get-plus_variables a t Resource.steps = refl
get-plus_variables a t r = refl

-- The run after the second loop.
abbrev pub charged_run : Amounts → RunState → RunState
charged_run a run = marked run (record run.report {
  charged = plus_attempts a run.report.charged;
  reserved = plus_variables a run.report.reserved;
})

charge_each_open :
    (a : Amounts) (s : State) (run : RunState)
    → charge_each a all_resources (record s { run = some run }) ≡ (
      ok tt,
      record s {
        charged = plus_attempts a s.charged;
        reserved = plus_variables a s.reserved;
        run = some (charged_run a run);
      },
    )
unfolding charge_each get set
charge_each_open a s run = refl

-- The ledger after an admission.
abbrev pub admitted : Request → State → RunState → State
admitted request s run = record s {
  charged = plus_attempts request.amounts s.charged;
  reserved = plus_variables request.amounts s.reserved;
  run = some (charged_run request.amounts run);
  pending = insert_pending (new_pending (s.next_id + 1) request) s.pending;
  next_id = s.next_id + 1;
}

pub admit_lem :
    (request : Request) (s : State) (run : RunState)
    → s.run ≡ some run
    → admit request (s.next_id + 1) (record s { next_id = s.next_id + 1 })
      ≡ (ok tt, admitted request s run)
unfolding admit get set
admit_lem request s run e =
    λ i. admit request (s.next_id + 1) (record s { next_id = s.next_id + 1; run = e i })

-- Each resource moves in one of the two vectors, by the requested amount.
pub moves :
    (inner : Inner) (s : State) (run : RunState) (a : Amounts)
    → Inv inner s
    → s.run ≡ some run
    → (r : Resource) → Fits inner s run a r
    → ((is_attempt r ≡ true)
        × (get (plus_attempts a s.charged) r ≡ get s.charged r + get a r)
        × (get (plus_variables a s.reserved) r ≡ get s.reserved r)
        × (get (plus_attempts a run.report.charged) r ≡ get run.report.charged r + get a r)
        × (get (plus_variables a run.report.reserved) r ≡ get run.report.reserved r))
      ⊎ ((is_attempt r ≡ false)
          × (get (plus_attempts a s.charged) r ≡ get s.charged r)
          × (get (plus_variables a s.reserved) r ≡ get s.reserved r + get a r)
          × (get (plus_attempts a run.report.charged) r ≡ get run.report.charged r)
          × (get (plus_variables a run.report.reserved) r ≡ get run.report.reserved r + get a r))
moves inner s run a h e r f = ground (
  arith,
  get-plus_attempts a s.charged r,
  get-plus_variables a s.reserved r,
  get-plus_attempts a run.report.charged r,
  get-plus_variables a run.report.reserved r,
  wrapping_add_exact (get s.charged r) (get a r),
  wrapping_add_exact (get s.reserved r) (get a r),
  wrapping_add_exact (get run.report.charged r) (get a r),
  wrapping_add_exact (get run.report.reserved r) (get a r),
  h.limits_word r,
  f.fits_task,
  part.run_charged r,
  part.run_reserved r,
)
  where
    part :
        RunInv inner.limits s.charged s.reserved s.active_time s.cleanup_time s.stop s.pending
          s.next_id run
    part = rw e at h.run_part

-- An admission that has passed the checks keeps the invariant.
pub admitted-Inv :
    (inner : Inner) (s : State) (run : RunState) (request : Request)
    → Inv inner s
    → s.run ≡ some run
    → ((r : Resource) → Fits inner s run request.amounts r)
    → s.next_id + 1 < u64_mod
    → Inv inner (admitted request s run)
admitted-Inv inner s run request h e f word = record {
  limits_word = h.limits_word;
  task = record {
    charged_word = λ r. ground (arith, move r, (f r).fits_task, h.limits_word r);
    reserved_word = λ r. ground (arith, move r, (f r).fits_task, h.limits_word r);
    reserved_exact = λ r. ground (arith, move r, h.task.reserved_exact r, grown r);
    attempts_charged = λ r a. ground (arith, move r, h.task.attempts_charged r, grown r);
    within_limits = λ x r. ground (arith, move r, (f r).fits_task);
    within_time = h.task.within_time;
    ids_below =
        ids-insert (new_pending (s.next_id + 1) request) s.next_id (s.next_id + 1) s.pending
          h.task.ids_below (omega arith) (omega arith);
    next_word = word;
  };
  run_part = record {
    run_reserved = λ r. ground (arith, move r, part.run_reserved r);
    run_charged = λ r. ground (arith, move r, part.run_charged r);
    run_attempts = λ r a. ground (arith, move r, part.run_attempts r, grown r);
    run_limits = part.run_limits;
    run_within = λ x y r. ground (arith, move r, (f r).fits_run, part.run_reserved r);
    run_time = part.run_time;
    run_active = part.run_active;
    run_cleanup = part.run_cleanup;
    run_id_below = omega (arith, part.run_id_below);
  };
  evidence = record {
    input_covered = h.evidence.input_covered;
    output_covered = h.evidence.output_covered;
    bytes_covered = h.evidence.bytes_covered;
  };
}
  where
    part :
        RunInv inner.limits s.charged s.reserved s.active_time s.cleanup_time s.stop s.pending
          s.next_id run
    part = rw e at h.run_part

    move :
        (r : Resource)
        → ((is_attempt r ≡ true)
            × (get (plus_attempts request.amounts s.charged) r
                ≡ get s.charged r + get request.amounts r)
            × (get (plus_variables request.amounts s.reserved) r ≡ get s.reserved r)
            × (get (plus_attempts request.amounts run.report.charged) r
                ≡ get run.report.charged r + get request.amounts r)
            × (get (plus_variables request.amounts run.report.reserved) r
                ≡ get run.report.reserved r))
          ⊎ ((is_attempt r ≡ false)
              × (get (plus_attempts request.amounts s.charged) r ≡ get s.charged r)
              × (get (plus_variables request.amounts s.reserved) r
                  ≡ get s.reserved r + get request.amounts r)
              × (get (plus_attempts request.amounts run.report.charged) r
                  ≡ get run.report.charged r)
              × (get (plus_variables request.amounts run.report.reserved) r
                  ≡ get run.report.reserved r + get request.amounts r))
    move r = moves inner s run request.amounts h e r (f r)

    grown :
        (r : Resource)
        → pending_sum r (insert_pending (new_pending (s.next_id + 1) request) s.pending)
          ≡ get request.amounts r + pending_sum r s.pending
    grown r =
        pending_sum-insert r (new_pending (s.next_id + 1) request) s.next_id s.pending
          h.task.ids_below (omega arith)
