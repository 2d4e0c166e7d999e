-- ===== src/Budget/Guarantees/Tests.antt =====
-- A ledger of one task with small limits, a history of calls on it, and the guarantees there.
mod Stops
mod Deadline
use jingwei.Base.{ℕ, ◌≡◌, ◌≢◌, refl, ◌≤◌, ◌+◌, none, true, false, List, [], ◌∷◌, arith, ◌↔◌}
use jingwei.Budget.Amounts.{Resource, Amounts, no_amounts, get}
use jingwei.Budget.Vocabulary.{TokenMode, TokenEvidence, Request, Usage, actual, unknown}
use jingwei.Budget.Ledger.{Inner, State, new_state, Reservation}
use jingwei.Budget.Ledger.Action.{ok, panicked}
use jingwei.Budget.Ledger.Calls.{Call, perform, perform_all}
use jingwei.Budget.Invariant.{Inv, IsWordLimits, pending_sum}
use jingwei.Budget.Vocabulary.{UsageReport, no_usage}
use jingwei.Budget.Invariant.Settlement.{Rounds}
use jingwei.Budget.Invariant.Settlement.Loop.{settlement_iff}
use jingwei.Budget.Invariant.Calls.{history-Inv, perform-Inv}
use jingwei.Budget.Amounts.{set, tighten_each, tightened_by}
use jingwei.Budget.Ledger.Clock.{
  active_share, add_cleanup, allocate_id, check_run, check_stop, check_writable, effective_stop,
  expires, holds_run, is_timed, is_working, notifies, snapshot, task_first, tick, tick_elapsed,
  tick_run, timed_report, timed_state,
}
use jingwei.Budget.Ledger.Requests.{
  check_evidence, find_pending, fits, has_attempt, insert_pending, remove_pending, update_pending,
  validate_request,
}
use jingwei.Budget.Ledger.Reserve.{
  add_to, admit, admit_new, charge_each, charge_report, charge_task, check_each, check_share,
  check_task, reserve,
}
use jingwei.Budget.Ledger.Reservations.{
  book, keep_evidence, mark_started, or_drop, release, release_each, release_one, report_breach,
  settle, settle_locked, settle_or_keep, settlement_of,
}
use jingwei.Budget.Ledger.Runs.{begin_run, update_report}
use jingwei.Budget.Ledger.Settlement.{Draft, debit_of, settle_resource, settlement}
use jingwei.Budget.Amounts.{default_limits}
use jingwei.Budget.Amounts.Laws.{IsWithin, tightened_by-IsWithin}
use jingwei.Budget.Ledger.{RunState}
use jingwei.Budget.Invariant.Ensures.{Ensures}
use jingwei.Budget.Invariant.Reserve.{fits_iff}
use jingwei.Budget.Guarantees.Frame.{SameBooks}
use jingwei.Budget.Guarantees.Admission.{Admitted, reserve_atomic}
use jingwei.Budget.Guarantees.Waking.{MayGoOn, notifies-false_iff}
use jingwei.Budget.Guarantees.{history_within_limits, history_no_panic, history_reserved_exact}

abbrev pub ten : Amounts
ten = record {
  steps = 10;
  model_requests = 2;
  tool_calls = 10;
  corrections = 10;
  input_tokens = 100;
  output_tokens = 50;
  tool_output_bytes = 10;
}

abbrev pub sample : Inner
sample = record {
  identity = record { task_id = 116 ∷ []; session_id = 115 ∷ []; agent_key = 97 ∷ [] };
  limits = record { resources = ten; active_time = 1000 };
  token_mode = TokenMode.hard;
}

pub sample-IsWordLimits : IsWordLimits sample.limits
unfolding get
sample-IsWordLimits Resource.steps = omega arith
sample-IsWordLimits r = omega arith

-- One model request with a bound of 40 input and 20 output tokens.
abbrev pub ask : Request
ask = record {
  amounts = record no_amounts {
    steps = 1;
    model_requests = 1;
    input_tokens = 40;
    output_tokens = 20;
  };
  input_tokens = TokenEvidence.verified_upper_bound;
  output_tokens = TokenEvidence.verified_upper_bound;
}

abbrev pub lease : ℕ → Reservation
lease id = record { run_id = 1; id = id; resolved = false }

abbrev used : ℕ → Usage
used n = record { input_tokens = actual n; output_tokens = unknown; tool_output_bytes = actual 0 }

-- A run with two requests: one settled, one started and still pending.
abbrev working : List Call
working =
    Call.begins none sample.limits 5 6
    ∷ Call.reserves 1 ask 7
    ∷ Call.starts (lease 2) 8
    ∷ Call.reserves 1 ask 9
    ∷ Call.settles (lease 2) (used 30) 12 13
    ∷ Call.starts (lease 3) 20
    ∷ []

abbrev worked : State
worked = perform_all sample working (new_state 0)

-- The second request is pending with 40 and 20 tokens, and the first was settled at 30 and, as its
-- output is unknown, 20 tokens.
worked_books :
    (worked.active_time ≡ 15)
    × (get worked.charged Resource.input_tokens ≡ 30)
    × (get worked.charged Resource.output_tokens ≡ 20)
    × (get worked.charged Resource.model_requests ≡ 2)
    × (get worked.reserved Resource.input_tokens ≡ 40)
unfolding perform_all perform begin_run update_report reserve admit admit_new charge_each
    charge_report charge_task check_each check_share check_task add_to mark_started settle book
    keep_evidence or_drop release release_each release_one report_breach settle_locked
    settle_or_keep settlement_of debit_of settle_resource settlement active_share add_cleanup
    allocate_id check_run check_stop check_writable effective_stop expires holds_run is_timed
    is_working snapshot task_first tick tick_elapsed tick_run timed_report timed_state
    check_evidence find_pending fits has_attempt insert_pending remove_pending update_pending
    validate_request get set tighten_each tightened_by
worked_books = (refl, refl, refl, refl, refl)

worked-going : worked.stop ≡ none
unfolding perform_all perform begin_run update_report reserve admit admit_new charge_each
    charge_report charge_task check_each check_share check_task add_to mark_started settle book
    keep_evidence or_drop release release_each release_one report_breach settle_locked
    settle_or_keep settlement_of debit_of settle_resource settlement active_share add_cleanup
    allocate_id check_run check_stop check_writable effective_stop expires holds_run is_timed
    is_working snapshot task_first tick tick_elapsed tick_run timed_report timed_state
    check_evidence find_pending fits has_attempt insert_pending remove_pending update_pending
    validate_request get set tighten_each tightened_by
worked-going = refl

worked-Inv : Inv sample worked
worked-Inv = history-Inv sample 0 working sample-IsWordLimits

history_within_limits_example :
    (get worked.charged Resource.output_tokens + get worked.reserved Resource.output_tokens ≤ 50)
    × (worked.active_time ≤ 1000)
unfolding get
history_within_limits_example =
    history_within_limits sample 0 working Resource.output_tokens sample-IsWordLimits worked-going

history_no_panic_example : (perform sample (Call.reserves 1 ask 30) worked).0 ≢ panicked
history_no_panic_example =
    history_no_panic sample 0 working (Call.reserves 1 ask 30) sample-IsWordLimits

history_reserved_exact_example :
    (get worked.reserved Resource.input_tokens ≡ pending_sum Resource.input_tokens worked.pending)
    × (0 ≤ get worked.charged Resource.input_tokens)
history_reserved_exact_example =
    history_reserved_exact sample 0 working Resource.input_tokens sample-IsWordLimits

perform-Inv_example :
    Inv sample (perform sample (Call.settles (lease 3) (used 50) 40 41) worked).1
    × ((perform sample (Call.settles (lease 3) (used 50) 40 41) worked).0 ≢ panicked)
perform-Inv_example = perform-Inv sample (Call.settles (lease 3) (used 50) 40 41) worked worked-Inv

-- One more tool call is admitted.
abbrev tool : Request
tool = record ask {
  amounts = record no_amounts { steps = 1; tool_calls = 1; tool_output_bytes = 4 };
}

reserve_atomic_example :
    Ensures
      (SameBooks worked)
      (λ held v. Admitted sample worked v 1 tool held)
      (reserve sample 1 tool 30 worked)
reserve_atomic_example = reserve_atomic sample 1 tool 30 worked worked-Inv

notifies-false_iff_example : (notifies worked ≡ false) ↔ ((run : RunState) × MayGoOn worked run)
notifies-false_iff_example = notifies-false_iff worked

tightened_by-IsWithin_example :
    IsWithin sample.limits (tightened_by sample.limits default_limits)
    ↔ (IsWithin sample.limits sample.limits × IsWithin sample.limits default_limits)
tightened_by-IsWithin_example = tightened_by-IsWithin sample.limits sample.limits default_limits

fits_iff_example : (fits 30 40 30 100 ≡ true) ↔ (30 + 40 + 30 ≤ 100)
fits_iff_example = fits_iff 30 40 30 100 (omega arith)

-- 30 input tokens are known; the output is unknown, so its whole reserve of 20 is charged.
abbrev settled_usage : UsageReport
settled_usage = record no_usage {
  input_tokens = record { actual = 30; estimated = 0; unknown = 0 };
  output_tokens = record { actual = 0; estimated = 0; unknown = 1 };
}

abbrev settled_draft : Draft
settled_draft = record {
  charged = record no_amounts { input_tokens = 30; output_tokens = 20 };
  run_charged = record no_amounts { input_tokens = 30; output_tokens = 20 };
  breach = none;
}

settles_within_reserve :
    settlement no_amounts no_amounts no_usage ask (used 30) ≡ ok (settled_usage, settled_draft)
unfolding settlement settle_resource debit_of get set
settles_within_reserve = refl

settlement_iff_example :
    (settlement no_amounts no_amounts no_usage ask (used 30) ≡ ok (settled_usage, settled_draft))
    ↔ Rounds no_amounts no_amounts no_usage settled_usage ask.amounts (used 30) settled_draft
settlement_iff_example =
    settlement_iff no_amounts no_amounts no_usage settled_usage ask (used 30) settled_draft
