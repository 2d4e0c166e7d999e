-- ===== src/Budget/Checkpoint/Freezing.antt =====
-- Which images are restored frozen (crates/core/budget/src/checkpoint.rs).
use jingwei.Base.{ℕ, ◌≡◌, true, not, some, arith, is_some, inl, inr, Option-cases, if◌then◌else◌}
use jingwei.Base.Text.{Text}
use jingwei.Budget.Amounts.{Limits}
use jingwei.Budget.Ledger.{BudgetError}
use jingwei.Budget.Ledger.Action.{Outcome}
use jingwei.Budget.Ledger.Clock.{check_writable}
use jingwei.Budget.Vocabulary.{StopReason}
use jingwei.Budget.Checkpoint.{Checkpoint, ok, is_quiescent}
use jingwei.Budget.Checkpoint.Checks.{>>-ok}
use jingwei.Budget.Checkpoint.Grants.{validate_grants}
use jingwei.Budget.Checkpoint.Validate.{check_claim, check_shape, check_accounts, validate_with}
use jingwei.Budget.Checkpoint.Transfer.{validate, validate_recoveries, restored, is_frozen_image}

valid_parts :
    (c : Checkpoint)
    → validate c ≡ ok tt
    → (check_claim c c.execution_id ≡ ok tt) × (check_shape c ≡ ok tt)
unfolding validate validate_with
valid_parts c e =
    let (claim, grants) = >>-ok (check_claim c c.execution_id) _ e in
    let (_, recoveries) = >>-ok (validate_grants c) _ grants in
    let (_, shape) = >>-ok (validate_recoveries c) _ recoveries in
    (claim, (>>-ok (check_shape c) (check_accounts c) shape).0)

-- A claimed image is frozen.
claimed-frozen :
    (c : Checkpoint) (id : Text)
    → c.execution_id ≡ some id
    → check_claim c c.execution_id ≡ ok tt
    → c.recovery_frozen ≡ true
unfolding check_claim
claimed-frozen c id held e = ground arith

-- The id of a run and its report stand together.
run_presence : (c : Checkpoint) → check_shape c ≡ ok tt → is_some c.run_id ≡ is_some c.report.run
unfolding check_shape
run_presence c e = ground arith

-- A valid image is restored as a frozen ledger, which refuses every write, exactly when it is not
-- quiescent: when it holds an execution claim, a freeze, a run or a pending request.
pub frozen-not-quiescent :
    (c : Checkpoint) (host : Limits) (now : ℕ)
    → validate c ≡ ok tt
    → ((restored c host now).1.recovery_frozen ≡ not (is_quiescent c))
      × (check_writable (restored c host now).1 ≡ (
          if is_quiescent c
          then Outcome.ok tt
          else Outcome.err (BudgetError.stopped StopReason.recovery_required)))
unfolding restored is_frozen_image is_quiescent check_writable
frozen-not-quiescent c host now e =
    let (claim, shape) = valid_parts c e in
    let presence = run_presence c shape in
    elim (Option-cases c.execution_id) [
      | inl free ↦ (ground arith, ground arith)
      | inr (id, held) ↦ let frozen = claimed-frozen c id held claim in (ground arith, ground arith)
    ]
