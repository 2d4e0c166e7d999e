-- ===== src/Budget/Checkpoint/Tests.antt =====
-- A stored image, the image that a grant makes of it, and the laws of stored images there.
use jingwei.Base.{not, if◌then◌else◌}
use jingwei.Budget.Vocabulary.{StopReason}
use jingwei.Budget.Checkpoint.Freezing.{frozen-not-quiescent}
use jingwei.Base.{◌↔◌, true}
use jingwei.Budget.Ledger.{BudgetError}
use jingwei.Budget.Ledger.Action.{Outcome}
use jingwei.Budget.Ledger.Clock.{tick, tick_elapsed, check_writable}
use jingwei.Budget.Checkpoint.{Version, version_of_number, number_of_version}
use jingwei.Budget.Checkpoint.Transfer.{
  restored, restore_checkpoint, seal_checkpoint, checked_image,
}
use jingwei.Budget.Checkpoint.Resume.{Resumes, context_of, seal_restore, version_of_number_iff}
use jingwei.Base.{ℕ, ◌+◌, ◌≡◌, refl, none, some, List, [], ◌∷◌, ◌++◌}
use jingwei.Budget.Amounts.{no_amounts, Limits}
use jingwei.Budget.Vocabulary.{TokenMode}
use jingwei.Budget.Audit.{GrantRecord, RecoveryRecord}
use jingwei.Budget.Ledger.{Inner, new_state}
use jingwei.Budget.Checkpoint.{Checkpoint, ok}
use jingwei.Budget.Checkpoint.Chain.{
  Step, here, extend, validate_transition-Step, Chain-keeps_audit,
}
use jingwei.Budget.Checkpoint.{is_quiescent, version_for}
use jingwei.Budget.Checkpoint.Grants.{
  is_bad_audit_text, validate_request_text, clears_stop, validate_increase, overtakes, falls_behind,
  check_anchor, check_records, check_chain, validate_grants, undo_grants, boundary_report,
}
use jingwei.Budget.Checkpoint.Validate.{
  check_claim, check_cursor, check_shape, check_run_id, add_checked, add_request, check_request,
  check_pending, check_charges, is_uncovered, check_usage, check_evidence_totals, check_run_charges,
  check_run_report, check_accounts, validate_with,
}
use jingwei.Budget.Checkpoint.Transfer.{
  validate_recovery_request, validate_recovery_evidence, check_recoveries, validate_recoveries,
  validate, validate_successor, execution_claim, image_of, checked_image, seal_checkpoint,
  restored_stop, limit_stops, restored_run, collect_pending, is_frozen_image, restored,
  restore_checkpoint,
}
use jingwei.Budget.Checkpoint.Transition.{
  suffix_after, refunds, erases, check_recovery, check_new_recoveries, validate_recovery_transition,
  granted, check_grant, check_new_grants, check_predecessor, validate_transition,
}
use jingwei.Budget.Amounts.{
  get, set, tighten_each, tightened_by, Resource-discrete, Amounts-discrete, Limits-discrete,
}
use jingwei.Budget.Ledger.Clock.{snapshot}
use jingwei.Budget.Ledger.Requests.{
  fits, has_attempt, validate_request, check_evidence, insert_pending,
}
use jingwei.Budget.Ledger.Runs.{has_blank_identity}
use jingwei.Budget.Vocabulary.{
  Identity-discrete, TokenMode-discrete, StopReason-discrete, TokenEvidence-discrete,
}
use jingwei.Budget.Audit.{EventCursor-discrete}
use jingwei.Budget.Checkpoint.{Version-discrete}
use jingwei.Budget.Checkpoint.Grants.{anchor-discrete}
use jingwei.Budget.Equality.{
  stop-discrete, Request-discrete, UsageValue-discrete, Usage-discrete, UsageTotals-discrete,
  UsageReport-discrete, EventCounts-discrete, Metrics-discrete, RunReport-discrete,
  Pending-discrete, Report-discrete, GrantRequest-discrete, GrantRecord-discrete,
  RecoveryRequest-discrete, RecoveryRecord-discrete, Checkpoint-discrete, grants-discrete,
}
unfoldable use jingwei.Base.{ℕ_discrete}
use jingwei.Base.Text.{is_blank, byte_len, Text-discrete}

abbrev pub stored_limits : ℕ → Limits
stored_limits steps = record { resources = record no_amounts { steps = steps }; active_time = 1000 }

abbrev pub stored : Inner
stored = record {
  identity = record { task_id = 116 ∷ []; session_id = 115 ∷ []; agent_key = 97 ∷ [] };
  limits = stored_limits 10;
  token_mode = TokenMode.hard;
}

-- The first image of a new ledger.
abbrev pub first_image : Checkpoint
first_image = image_of stored none 1 (new_state 0)

abbrev pub more_steps : GrantRecord
more_steps = record {
  request = record {
    operation_id = 111 ∷ [];
    actor = 97 ∷ [];
    source = 115 ∷ [];
    reason = 114 ∷ [];
    new_limits = stored_limits 20;
  };
  source_revision = 1;
  confirmed_anchor = none;
  old_limits = stored_limits 10;
  old_stop = none;
}

abbrev granted_image : Checkpoint
granted_image = granted first_image more_steps 2

grant_is_admitted : validate_transition granted_image (some first_image) ≡ ok tt
unfolding is_quiescent version_for is_bad_audit_text validate_request_text clears_stop
    validate_increase overtakes falls_behind check_anchor check_records check_chain validate_grants
    undo_grants boundary_report check_claim check_cursor check_shape check_run_id add_checked
    add_request check_request check_pending check_charges is_uncovered check_usage
    check_evidence_totals check_run_charges check_run_report check_accounts validate_with
    validate_recovery_request validate_recovery_evidence check_recoveries validate_recoveries
    validate validate_successor execution_claim image_of checked_image seal_checkpoint restored_stop
    limit_stops restored_run collect_pending is_frozen_image restored restore_checkpoint
    suffix_after refunds erases check_recovery check_new_recoveries validate_recovery_transition
    granted check_grant check_new_grants check_predecessor validate_transition get set tighten_each
    tightened_by Resource-discrete Amounts-discrete Limits-discrete snapshot fits has_attempt
    validate_request check_evidence insert_pending has_blank_identity Identity-discrete
    TokenMode-discrete StopReason-discrete TokenEvidence-discrete EventCursor-discrete
    Version-discrete anchor-discrete stop-discrete Request-discrete UsageValue-discrete
    Usage-discrete UsageTotals-discrete UsageReport-discrete EventCounts-discrete Metrics-discrete
    RunReport-discrete Pending-discrete Report-discrete GrantRequest-discrete GrantRecord-discrete
    RecoveryRequest-discrete RecoveryRecord-discrete Checkpoint-discrete grants-discrete ℕ_discrete
    is_blank byte_len Text-discrete
grant_is_admitted = refl

validate_transition-Step_example : Step first_image granted_image
validate_transition-Step_example =
    validate_transition-Step first_image granted_image grant_is_admitted

Chain-keeps_audit_example :
    (granted_image.revision ≡ first_image.revision + 1)
    × (granted_image.report.identity ≡ first_image.report.identity)
    × ((gs : List GrantRecord) × (granted_image.grants ≡ first_image.grants ++ gs))
    × ((rs : List RecoveryRecord) × (granted_image.recoveries ≡ first_image.recoveries ++ rs))
Chain-keeps_audit_example =
    Chain-keeps_audit first_image granted_image 1 (extend granted_image here grant_is_admitted)

-- The ledger is sealed at time 3.
abbrev sealed_image : Checkpoint
sealed_image = image_of stored none 1 (tick stored 3 (new_state 0))

seals :
    seal_checkpoint stored none 3 (new_state 0)
    ≡ (ok sealed_image, record (tick stored 3 (new_state 0)) { is_sealed = true })
unfolding is_quiescent version_for is_bad_audit_text validate_request_text clears_stop
    validate_increase overtakes falls_behind check_anchor check_records check_chain validate_grants
    undo_grants boundary_report check_claim check_cursor check_shape check_run_id add_checked
    add_request check_request check_pending check_charges is_uncovered check_usage
    check_evidence_totals check_run_charges check_run_report check_accounts validate_with
    validate_recovery_request validate_recovery_evidence check_recoveries validate_recoveries
    validate validate_successor execution_claim image_of checked_image seal_checkpoint restored_stop
    limit_stops restored_run collect_pending is_frozen_image restored restore_checkpoint
    suffix_after refunds erases check_recovery check_new_recoveries validate_recovery_transition
    granted check_grant check_new_grants check_predecessor validate_transition get set tighten_each
    tightened_by Resource-discrete Amounts-discrete Limits-discrete snapshot fits has_attempt
    validate_request check_evidence insert_pending has_blank_identity Identity-discrete
    TokenMode-discrete StopReason-discrete TokenEvidence-discrete EventCursor-discrete
    Version-discrete anchor-discrete stop-discrete Request-discrete UsageValue-discrete
    Usage-discrete UsageTotals-discrete UsageReport-discrete EventCounts-discrete Metrics-discrete
    RunReport-discrete Pending-discrete Report-discrete GrantRequest-discrete GrantRecord-discrete
    RecoveryRequest-discrete RecoveryRecord-discrete Checkpoint-discrete grants-discrete ℕ_discrete
    is_blank byte_len Text-discrete tick tick_elapsed
seals = refl

seal_restore_example :
    (restore_checkpoint sealed_image (context_of stored none sealed_image (stored_limits 5)) 9
      ≡ ok (restored sealed_image (stored_limits 5) 9))
    × Resumes (tick stored 3 (new_state 0)) (restored sealed_image (stored_limits 5) 9).1
    × ((restored sealed_image (stored_limits 5) 9).0.limits
        ≡ tightened_by stored.limits (stored_limits 5))
    × ((restored sealed_image (stored_limits 5) 9).1.checkpoint_revision
        ≡ (tick stored 3 (new_state 0)).checkpoint_revision + 1)
    × (check_writable (record (tick stored 3 (new_state 0)) { is_sealed = true })
        ≡ Outcome.err BudgetError.checkpoint_sealed)
seal_restore_example =
    seal_restore stored none 3 9 (new_state 0)
      (record (tick stored 3 (new_state 0)) { is_sealed = true }) sealed_image (stored_limits 5)
      seals

version_of_number_iff_example :
    (version_of_number 3 ≡ some Version.v3) ↔ (number_of_version Version.v3 ≡ 3)
version_of_number_iff_example = version_of_number_iff 3 Version.v3

sealed-valid : validate sealed_image ≡ ok tt
unfolding is_quiescent version_for is_bad_audit_text validate_request_text clears_stop
    validate_increase overtakes falls_behind check_anchor check_records check_chain validate_grants
    undo_grants boundary_report check_claim check_cursor check_shape check_run_id add_checked
    add_request check_request check_pending check_charges is_uncovered check_usage
    check_evidence_totals check_run_charges check_run_report check_accounts validate_with
    validate_recovery_request validate_recovery_evidence check_recoveries validate_recoveries
    validate validate_successor execution_claim image_of checked_image seal_checkpoint restored_stop
    limit_stops restored_run collect_pending is_frozen_image restored restore_checkpoint
    suffix_after refunds erases check_recovery check_new_recoveries validate_recovery_transition
    granted check_grant check_new_grants check_predecessor validate_transition get set tighten_each
    tightened_by Resource-discrete Amounts-discrete Limits-discrete snapshot fits has_attempt
    validate_request check_evidence insert_pending has_blank_identity Identity-discrete
    TokenMode-discrete StopReason-discrete TokenEvidence-discrete EventCursor-discrete
    Version-discrete anchor-discrete stop-discrete Request-discrete UsageValue-discrete
    Usage-discrete UsageTotals-discrete UsageReport-discrete EventCounts-discrete Metrics-discrete
    RunReport-discrete Pending-discrete Report-discrete GrantRequest-discrete GrantRecord-discrete
    RecoveryRequest-discrete RecoveryRecord-discrete Checkpoint-discrete grants-discrete ℕ_discrete
    is_blank byte_len Text-discrete tick tick_elapsed
sealed-valid = refl

frozen-not-quiescent_example :
    ((restored sealed_image (stored_limits 5) 9).1.recovery_frozen
      ≡ not (is_quiescent sealed_image))
    × (check_writable (restored sealed_image (stored_limits 5) 9).1 ≡ (
        if is_quiescent sealed_image
        then Outcome.ok tt
        else Outcome.err (BudgetError.stopped StopReason.recovery_required)))
frozen-not-quiescent_example = frozen-not-quiescent sealed_image (stored_limits 5) 9 sealed-valid
