-- ===== src/Budget/Checkpoint/Host.antt =====
-- `grant_budget` of crates/core/budget/src/grant.rs. The store is a trait that hosts implement: its
-- two answers in one call are parameters, and so is the outcome of `verify_checkpoint_history` on
-- the history that the host supplies.
pub mod Laws
mod Tests
use Prim.Native.String.{String}
use jingwei.Base.{
  ℕ, Bool, true, false, ◌||◌, not, ◌⊎◌, inl, inr, Option, none, some, List, [], ◌∷◌, ltb, leb, ◌==◌,
  is_yes, any, length,
}
use jingwei.Base.Word.{checked_add}
use jingwei.Base.Text.{Text, text_eq}
use jingwei.Budget.Amounts.{all_resources, get, Limits, limits_eq, tightened_by}
use jingwei.Budget.Vocabulary.{Identity, Identity-discrete, Report}
use jingwei.Budget.Audit.{GrantRequest, GrantRecord}
use jingwei.Budget.Equality.{GrantRequest-discrete}
use jingwei.Budget.Checkpoint.{
  Checkpoint, RestoreContext, CheckpointError, Checked, invalid, revision_mismatch, is_quiescent,
}
use jingwei.Budget.Checkpoint.Grants.{
  validate_request_text, validate_increase, anchor_eq, max_grants,
}
use jingwei.Budget.Checkpoint.Transfer.{validate}
use jingwei.Budget.Checkpoint.Transition.{granted, validate_transition}

-- `BudgetGrantError`, over the errors of the history check and of the store.
pub data GrantError (B S : Type 0) : Type 0 where
  checkpoint : CheckpointError → GrantError B S
  boundary : B → GrantError B S
  store : S → GrantError B S
  missing recovery_required : GrantError B S
  bad_grant : String → GrantError B S
  operation_conflict audit_full : GrantError B S
  commit_failed : ℕ → Checkpoint → S → GrantError B S

pub data Granting (B S : Type 0) (A : Type 0) : Type 0 where
  done : A → Granting B S A
  failed : GrantError B S → Granting B S A

-- `BudgetGrantOutcome`, over the store's commit.
pub data GrantOutcome (C : Type 0) : Type 0 where
  applied : Checkpoint → C → GrantOutcome C
  already_applied : GrantRecord → GrantOutcome C

-- The answers of the store in one call.
pub record Store (S C : Type 0) : Type 0 where
  pub load : Identity → Option Checkpoint ⊎ S
  pub compare_exchange : ℕ → Checkpoint → C ⊎ S

module _ {B S : Type 0} where
  infixl 5 ◌>>=◌ ◌>>◌
  abbrev pub ◌>>=◌ : {T U : Type 0} → Granting B S T → (T → Granting B S U) → Granting B S U
  failed problem >>= next = failed problem
  done value >>= next = next value

  abbrev pub ◌>>◌ : {U : Type 0} → Granting B S (Unit {0}) → Granting B S U → Granting B S U
  check >> next = check >>= λ _. next

  -- `?` on a checkpoint's result.
  abbrev pub checked : {T : Type 0} → Checked T → Granting B S T
  checked (Checked.ok value) = done value
  checked (Checked.err problem) = failed (checkpoint problem)

  -- `.map_err(BudgetGrantError::Invalid)?`: these checks fail with a message alone.
  abbrev pub as_bad_grant : Checked (Unit {0}) → Granting B S (Unit {0})
  as_bad_grant (Checked.ok value) = done value
  as_bad_grant (Checked.err (invalid message)) = failed (bad_grant message)
  as_bad_grant (Checked.err problem) = failed (checkpoint problem)

  -- `if test { return Err(problem); }`.
  abbrev pub stop_if : Bool → GrantError B S → Granting B S (Unit {0})
  stop_if true problem = failed problem
  stop_if false problem = done tt

  -- `.map_err(wrap)?` on an answer from outside.
  abbrev pub or_failed : {T P : Type 0} → T ⊎ P → (P → GrantError B S) → Granting B S T
  or_failed (inl value) wrap = done value
  or_failed (inr problem) wrap = failed (wrap problem)

-- `grants.iter().find(|r| r.request.operation_id == id)`.
unfoldable pub find_grant : Text → List GrantRecord → Option GrantRecord
find_grant id [] = none
find_grant id (g ∷ gs) =
    let rest = find_grant id gs in
    elim (text_eq g.request.operation_id id) [ true ↦ some g | false ↦ rest ]

-- An operation that was applied before is reported again, if it is the same.
unfoldable pub replay :
    {B S C : Type 0} → RestoreContext → GrantRequest → GrantRecord → Granting B S (GrantOutcome C)
replay context request g = do
  stop_if
      (not (is_yes (GrantRequest-discrete g.request request))
        || not (g.source_revision == context.revision)
        || not (anchor_eq g.confirmed_anchor context.confirmed_anchor))
      operation_conflict
  done (already_applied g)

-- Consumption or time that the new limits do not cover.
unfoldable pub exceeds : Report → Limits → Bool
exceeds report limits =
    leb limits.active_time report.active_time
    || any (λ r. ltb (get limits.resources r) (get report.charged r)) all_resources

-- The checks of a new operation against the loaded image.
unfoldable pub check_new_operation :
    {B S : Type 0}
    → (Checkpoint → Unit {0} ⊎ B)
    → RestoreContext
    → GrantRequest
    → Checkpoint
    → Granting B S (Unit {0})
check_new_operation verify context request base = do
  stop_if (not (base.revision == context.revision))
      (checkpoint (revision_mismatch context.revision base.revision))
  stop_if (not (anchor_eq base.anchor context.confirmed_anchor))
      (checkpoint CheckpointError.anchor_mismatch)
  stop_if (not (is_quiescent base)) recovery_required
  or_failed (verify base) boundary
  stop_if (length base.grants == max_grants) audit_full
  as_bad_grant (validate_increase base.report.limits request.new_limits base.report.stop)
  stop_if (not (limits_eq (tightened_by request.new_limits context.host_limits) request.new_limits))
      (bad_grant "new limits exceed the host ceiling")
  stop_if (exceeds base.report request.new_limits)
      (bad_grant "new limits do not cover retained consumption/time")

unfoldable pub new_record : GrantRequest → Checkpoint → GrantRecord
new_record request base = record {
  request = request;
  source_revision = base.revision;
  confirmed_anchor = base.anchor;
  old_limits = base.report.limits;
  old_stop = base.report.stop;
}

-- The candidate image, and its admission after the loaded one.
unfoldable pub candidate : {B S : Type 0} → GrantRequest → Checkpoint → Granting B S Checkpoint
candidate request base = elim (checked_add base.revision 1) [
  | none ↦ failed (checkpoint CheckpointError.revision_exhausted)
  | some revision ↦ do
    let next : Checkpoint = granted base (new_record request base) revision
    checked (validate_transition next (some base))
    done next
]

-- A new operation: the checks, the candidate and its commit.
unfoldable pub grant_new :
    {B S C : Type 0}
    → Store S C
    → (Checkpoint → Unit {0} ⊎ B)
    → RestoreContext
    → GrantRequest
    → Checkpoint
    → Granting B S (GrantOutcome C)
grant_new answers verify context request base = do
  check_new_operation verify context request base
  next ← candidate request base
  commit ←
      or_failed (answers.compare_exchange base.revision next) (commit_failed base.revision next)
  done (applied next commit)

-- The steps after an image has been loaded.
unfoldable pub grant_loaded :
    {B S C : Type 0}
    → Store S C
    → (Checkpoint → Unit {0} ⊎ B)
    → RestoreContext
    → GrantRequest
    → Checkpoint
    → Granting B S (GrantOutcome C)
grant_loaded answers verify context request base = do
  checked (validate base)
  stop_if (not (is_yes (Identity-discrete base.report.identity context.identity)))
      (checkpoint CheckpointError.identity_mismatch)
  as_bad_grant (validate_request_text request)
  elim (find_grant request.operation_id base.grants) [
    | some g ↦ replay context request g
    | none ↦ grant_new answers verify context request base
  ]

-- The answer of `store.load`.
unfoldable pub grant_answered :
    {B S C : Type 0}
    → Store S C
    → (Checkpoint → Unit {0} ⊎ B)
    → RestoreContext
    → GrantRequest
    → Option Checkpoint ⊎ S
    → Granting B S (GrantOutcome C)
grant_answered answers verify context request (inr problem) = failed (store problem)
grant_answered answers verify context request (inl none) = failed missing
grant_answered answers verify context request (inl (some base)) =
    grant_loaded answers verify context request base

unfoldable pub grant_budget :
    {B S C : Type 0}
    → Store S C
    → (Checkpoint → Unit {0} ⊎ B)
    → RestoreContext
    → GrantRequest
    → Granting B S (GrantOutcome C)
unfolding grant_answered
grant_budget answers verify context request =
    grant_answered answers verify context request (answers.load context.identity)
