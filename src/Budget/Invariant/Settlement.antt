-- ===== src/Budget/Invariant/Settlement.antt =====
-- What a settlement charges: each variable resource grows by its debit, in the task and in the run.
pub mod Complete
pub mod Loop
pub mod Total
use jingwei.Base.{
  ℕ, ◌+◌, ◌≤◌, ◌<◌, max, ◌≡◌, ap, Bool, ◌||◌, Option, some, none, arith, ltb, if◌then◌else◌,
  get_or_insert,
}
use jingwei.Base.Word.{u64_mod}
use jingwei.Budget.Amounts.{Resource, Amounts, get, set}
use jingwei.Budget.Vocabulary.{
  UsageValue, actual, estimated, unknown, Usage, UsageTotals, UsageReport,
}
use jingwei.Budget.Ledger.Settlement.{Draft}

-- What a use of a resource costs: known usage its amount, an estimate at least the reservation, and
-- unknown usage the whole reservation.
abbrev pub IsDebit : UsageValue → ℕ → ℕ → Type 0
IsDebit (actual amount) reserved debit = debit ≡ amount
IsDebit (estimated amount) reserved debit = debit ≡ max amount reserved
IsDebit unknown reserved debit = debit ≡ reserved

-- The evidence is kept by its kind: known and estimated amounts are added up as they are, and unknown
-- usage is counted where the resource applies or was reserved.
abbrev pub IsEvidence : UsageValue → Bool → ℕ → UsageTotals → UsageTotals → Type 0
IsEvidence (actual amount) applicable reserved before after =
    (before.actual + amount < u64_mod) × (after ≡ record before { actual = before.actual + amount })
IsEvidence (estimated amount) applicable reserved before after =
    (before.estimated + amount < u64_mod)
    × (after ≡ record before { estimated = before.estimated + amount })
IsEvidence unknown applicable reserved before after =
    if applicable || ltb 0 reserved
    then (before.unknown + 1 < u64_mod) × (after ≡ record before { unknown = before.unknown + 1 })
    else after ≡ before

-- One round of the loop, with the debit that it makes.
pub record Round (r : Resource) (v : UsageValue) (applicable : Bool) (reserved : ℕ)
    (totals totals' : UsageTotals) (d d' : Draft) (debit : ℕ) : Type 0 where
  pub costs : IsDebit v reserved debit
  pub evidence : IsEvidence v applicable reserved totals totals'
  pub task_word : get d.charged r + debit < u64_mod
  pub task_set : d'.charged ≡ set d.charged r (get d.charged r + debit)
  pub run_word : get d.run_charged r + debit < u64_mod
  pub run_set : d'.run_charged ≡ set d.run_charged r (get d.run_charged r + debit)
  pub breach : d'.breach ≡ (if ltb reserved debit then get_or_insert d.breach r else d.breach)

-- What the books need of the loop: the debits are within the reservation unless there is a breach, and
-- cover the evidence.
pub record Covering (charged run_charged : Amounts) (before after : UsageReport) (a : Amounts)
    (draft : Draft) : Type 0 where
  pub input : ℕ
  pub output : ℕ
  pub bytes : ℕ
  pub charged_set : draft.charged ≡ record charged {
    input_tokens = charged.input_tokens + input;
    output_tokens = charged.output_tokens + output;
    tool_output_bytes = charged.tool_output_bytes + bytes;
  }
  pub run_set : draft.run_charged ≡ record run_charged {
    input_tokens = run_charged.input_tokens + input;
    output_tokens = run_charged.output_tokens + output;
    tool_output_bytes = run_charged.tool_output_bytes + bytes;
  }
  pub words :
      (charged.input_tokens + input < u64_mod)
      × (charged.output_tokens + output < u64_mod)
      × (charged.tool_output_bytes + bytes < u64_mod)
  pub in_reserve :
      draft.breach ≡ none
      → (input ≤ a.input_tokens) × (output ≤ a.output_tokens) × (bytes ≤ a.tool_output_bytes)
  pub input_covers :
      after.input_tokens.actual + after.input_tokens.estimated
      ≤ before.input_tokens.actual + before.input_tokens.estimated + input
  pub output_covers :
      after.output_tokens.actual + after.output_tokens.estimated
      ≤ before.output_tokens.actual + before.output_tokens.estimated + output
  pub bytes_covers :
      after.tool_output_bytes.actual + after.tool_output_bytes.estimated
      ≤ before.tool_output_bytes.actual + before.tool_output_bytes.estimated + bytes

-- The first resource whose debit is beyond its reservation.
abbrev pub first_over : ℕ → ℕ → ℕ → Amounts → Option Resource
first_over input output bytes a =
    if ltb a.input_tokens input
    then some Resource.input_tokens
    else if ltb a.output_tokens output
    then some Resource.output_tokens
    else if ltb a.tool_output_bytes bytes
    then some Resource.tool_output_bytes
    else none

-- The whole loop: three rounds, one after the other.
pub record Rounds (charged run_charged : Amounts) (before after : UsageReport) (a : Amounts)
    (usage : Usage) (draft : Draft) : Type 0 where
  pub input : ℕ
  pub output : ℕ
  pub bytes : ℕ
  pub input_costs : IsDebit usage.input_tokens a.input_tokens input
  pub output_costs : IsDebit usage.output_tokens a.output_tokens output
  pub bytes_costs : IsDebit usage.tool_output_bytes a.tool_output_bytes bytes
  pub charged_set : draft.charged ≡ record charged {
    input_tokens = charged.input_tokens + input;
    output_tokens = charged.output_tokens + output;
    tool_output_bytes = charged.tool_output_bytes + bytes;
  }
  pub run_set : draft.run_charged ≡ record run_charged {
    input_tokens = run_charged.input_tokens + input;
    output_tokens = run_charged.output_tokens + output;
    tool_output_bytes = run_charged.tool_output_bytes + bytes;
  }
  pub words :
      (charged.input_tokens + input < u64_mod)
      × (charged.output_tokens + output < u64_mod)
      × (charged.tool_output_bytes + bytes < u64_mod)
  pub run_words :
      (run_charged.input_tokens + input < u64_mod)
      × (run_charged.output_tokens + output < u64_mod)
      × (run_charged.tool_output_bytes + bytes < u64_mod)
  pub breach : draft.breach ≡ first_over input output bytes a
  pub input_evidence :
      IsEvidence usage.input_tokens
        (ltb 0 a.model_requests)
        a.input_tokens
        before.input_tokens
        after.input_tokens
  pub output_evidence :
      IsEvidence usage.output_tokens
        (ltb 0 a.model_requests)
        a.output_tokens
        before.output_tokens
        after.output_tokens
  pub bytes_evidence :
      IsEvidence usage.tool_output_bytes
        (ltb 0 a.tool_calls)
        a.tool_output_bytes
        before.tool_output_bytes
        after.tool_output_bytes

covers :
    (v : UsageValue) (applicable : Bool) (reserved debit : ℕ) (before after : UsageTotals)
    → IsDebit v reserved debit
    → IsEvidence v applicable reserved before after
    → after.actual + after.estimated ≤ before.actual + before.estimated + debit
covers (actual n) applicable reserved debit before after c e =
    ground
      (arith, ap (λ (t : UsageTotals). t.actual) e.1, ap (λ (t : UsageTotals). t.estimated) e.1)
covers (estimated n) applicable reserved debit before after c e =
    ground
      (arith, ap (λ (t : UsageTotals). t.actual) e.1, ap (λ (t : UsageTotals). t.estimated) e.1)
covers unknown applicable reserved debit before after c e = ground arith

pub Rounds-Covering :
    (charged run_charged : Amounts) (before after : UsageReport) (a : Amounts) (usage : Usage)
    (draft : Draft)
    → Rounds charged run_charged before after a usage draft
    → Covering charged run_charged before after a draft
Rounds-Covering charged run_charged before after a usage draft k = record {
  input = k.input;
  output = k.output;
  bytes = k.bytes;
  charged_set = k.charged_set;
  run_set = k.run_set;
  words = k.words;
  in_reserve = λ e. let over = k.breach in ground arith;
  input_covers = covers _ _ _ _ _ _ k.input_costs k.input_evidence;
  output_covers = covers _ _ _ _ _ _ k.output_costs k.output_evidence;
  bytes_covers = covers _ _ _ _ _ _ k.bytes_costs k.bytes_evidence;
}
