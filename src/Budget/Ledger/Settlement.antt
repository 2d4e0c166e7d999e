-- ===== src/Budget/Ledger/Settlement.antt =====
-- `settlement`: the charges and the usage evidence after a reservation has been used.
use jingwei.Base.{ℕ, max, Bool, ◌||◌, Option, none, some, ltb, if◌then◌else◌, get_or_insert}
use jingwei.Base.Word.{checked_add}
use jingwei.Budget.Amounts.{Resource, Amounts, get, set}
use jingwei.Budget.Vocabulary.{
  StopReason, UsageValue, actual, estimated, unknown, Usage, UsageTotals, UsageReport, Request,
}
use jingwei.Budget.Ledger.{BudgetError}
use jingwei.Budget.Ledger.Action.{Outcome, ok, err, panicked}

-- `outcome?` and what follows it, where no state is written.
infixl 5 ◌>>=◌
abbrev pub ◌>>=◌ {ℓ κ} : {T : Type ℓ} {U : Type κ} → Outcome T → (T → Outcome U) → Outcome U
panicked >>= next = panicked
err refusal >>= next = err refusal
ok value >>= next = next value

-- `a.checked_add(b).ok_or_else(overflow)`.
abbrev pub add_or_overflow : ℕ → ℕ → Outcome ℕ
add_or_overflow a b = elim (checked_add a b) [
  | some c ↦ ok c
  | none ↦ err (BudgetError.stopped StopReason.accounting_overflow)
]

-- What is charged for one resource, and the totals with the evidence.
unfoldable pub debit_of : UsageValue → Bool → ℕ → UsageTotals → Outcome (ℕ × UsageTotals)
debit_of (actual amount) applicable reserved totals = do
  total ← add_or_overflow totals.actual amount
  ok (amount, record totals { actual = total })
debit_of (estimated amount) applicable reserved totals = do
  total ← add_or_overflow totals.estimated amount
  ok (max amount reserved, record totals { estimated = total })
debit_of unknown applicable reserved totals =
    if applicable || ltb 0 reserved
    then (do
      total ← add_or_overflow totals.unknown 1
      ok (reserved, record totals { unknown = total }))
    else ok (reserved, totals)

-- The locals of the loop.
pub record Draft : Type 0 where
  pub charged : Amounts
  pub run_charged : Amounts
  pub breach : Option Resource

-- One round of the loop.
unfoldable pub settle_resource :
    Resource → UsageValue → Bool → ℕ → UsageTotals → Draft → Outcome (UsageTotals × Draft)
unfolding debit_of
settle_resource r value applicable reserved totals draft = do
  (debit, evidence) ← debit_of value applicable reserved totals
  charge ← add_or_overflow (get draft.charged r) debit
  run_charge ← add_or_overflow (get draft.run_charged r) debit
  ok (
    evidence,
    record {
      charged = set draft.charged r charge;
      run_charged = set draft.run_charged r run_charge;
      breach = if ltb reserved debit then get_or_insert draft.breach r else draft.breach;
    },
  )

-- `settlement`, given the charges of the task and of the run.
unfoldable pub settlement :
    Amounts → Amounts → UsageReport → Request → Usage → Outcome (UsageReport × Draft)
settlement charged run_charged evidence request usage = do
  let amounts = request.amounts
  let models = ltb 0 amounts.model_requests
  (input, a) ←
      settle_resource Resource.input_tokens usage.input_tokens models amounts.input_tokens
        evidence.input_tokens
        (record { charged = charged; run_charged = run_charged; breach = none })
  (output, b) ←
      settle_resource Resource.output_tokens usage.output_tokens models amounts.output_tokens
        evidence.output_tokens a
  (bytes, c) ←
      settle_resource Resource.tool_output_bytes usage.tool_output_bytes (ltb 0 amounts.tool_calls)
        amounts.tool_output_bytes evidence.tool_output_bytes b
  ok (record { input_tokens = input; output_tokens = output; tool_output_bytes = bytes }, c)
