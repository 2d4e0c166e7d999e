-- ===== src/Budget/Invariant/Settlement/Complete.antt =====
-- `settlement` of crates/core/budget/src/lib.rs goes through wherever the rounds are right.
use jingwei.Base.{ℕ, ◌+◌, ◌≡◌, refl, Bool, some, none, arith, ltb, if◌then◌else◌, get_or_insert}
use jingwei.Budget.Amounts.{Resource, Amounts, get, set}
use jingwei.Budget.Vocabulary.{
  UsageValue, actual, estimated, unknown, Usage, UsageTotals, UsageReport, Request,
}
use jingwei.Budget.Ledger.Action.{ok}
use jingwei.Budget.Ledger.Settlement.{Draft, settle_resource, settlement}
use jingwei.Budget.Invariant.Settlement.{Round, Rounds}

settle_resource_complete :
    (r : Resource) (v : UsageValue) (applicable : Bool) (reserved : ℕ)
    (totals totals' : UsageTotals) (d d' : Draft) (debit : ℕ)
    → Round r v applicable reserved totals totals' d d' debit
    → settle_resource r v applicable reserved totals d ≡ ok (totals', d')
unfolding settle_resource
settle_resource_complete r (actual n) applicable reserved totals totals' d d' debit k = ground arith
settle_resource_complete r (estimated n) applicable reserved totals totals' d d' debit k =
    ground arith
settle_resource_complete r unknown applicable reserved totals totals' d d' debit k = ground arith

-- The locals after the first and the second round.
abbrev first_draft : Amounts → Amounts → Amounts → ℕ → Draft
first_draft charged run_charged a input = record {
  charged = record charged { input_tokens = charged.input_tokens + input };
  run_charged = record run_charged { input_tokens = run_charged.input_tokens + input };
  breach = if ltb a.input_tokens input then some Resource.input_tokens else none;
}

abbrev second_draft : Amounts → Draft → ℕ → Draft
second_draft a first output = record {
  charged = record first.charged { output_tokens = first.charged.output_tokens + output };
  run_charged = record first.run_charged {
    output_tokens = first.run_charged.output_tokens + output;
  };
  breach =
      if ltb a.output_tokens output
      then get_or_insert first.breach Resource.output_tokens
      else first.breach;
}

pub settlement_complete :
    (charged run_charged : Amounts) (before after : UsageReport) (request : Request) (usage : Usage)
    (draft : Draft)
    → Rounds charged run_charged before after request.amounts usage draft
    → settlement charged run_charged before request usage ≡ ok (after, draft)
unfolding settlement get set
settlement_complete charged run_charged before after request usage draft k =
    let a = request.amounts in
    let start : Draft = record { charged = charged; run_charged = run_charged; breach = none } in
    let b = first_draft charged run_charged a k.input in
    let c = second_draft a b k.output in
    let p : Round Resource.input_tokens usage.input_tokens (ltb 0 a.model_requests) a.input_tokens
        before.input_tokens after.input_tokens start b k.input =
      record {
        costs = k.input_costs;
        evidence = k.input_evidence;
        task_word = k.words.0;
        task_set = refl;
        run_word = k.run_words.0;
        run_set = refl;
        breach = refl;
      } in
    let q : Round Resource.output_tokens usage.output_tokens (ltb 0 a.model_requests)
        a.output_tokens before.output_tokens after.output_tokens b c k.output =
      record {
        costs = k.output_costs;
        evidence = k.output_evidence;
        task_word = k.words.1;
        task_set = refl;
        run_word = k.run_words.1;
        run_set = refl;
        breach = refl;
      } in
    let r : Round Resource.tool_output_bytes usage.tool_output_bytes (ltb 0 a.tool_calls)
        a.tool_output_bytes before.tool_output_bytes after.tool_output_bytes c draft k.bytes =
      record {
        costs = k.bytes_costs;
        evidence = k.bytes_evidence;
        task_word = k.words.2;
        task_set = k.charged_set;
        run_word = k.run_words.2;
        run_set = k.run_set;
        breach = let over = k.breach in ground arith;
      } in
    rw (
      settle_resource_complete _ _ _ _ _ _ _ _ _ p,
      settle_resource_complete _ _ _ _ _ _ _ _ _ q,
      settle_resource_complete _ _ _ _ _ _ _ _ _ r,
    )
