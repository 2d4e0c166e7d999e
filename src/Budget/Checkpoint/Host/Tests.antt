-- ===== src/Budget/Checkpoint/Host/Tests.antt =====
-- A store that holds the first image of a ledger, and a grant of more steps to it.
use jingwei.Budget.Checkpoint.Transfer.{
  restored, restore_checkpoint, seal_checkpoint, checked_image,
}
use jingwei.Base.{ℕ, ◌≡◌, refl, none, some}
use jingwei.Budget.Checkpoint.{Checkpoint}
use jingwei.Budget.Checkpoint.{is_quiescent, version_for}
use jingwei.Budget.Checkpoint.Grants.{
  is_bad_audit_text, validate_request_text, clears_stop, validate_increase, overtakes, falls_behind,
  check_anchor, check_records, check_chain, validate_grants, undo_grants, boundary_report,
}
use jingwei.Budget.Checkpoint.Validate.{
  check_claim, check_cursor, check_shape, check_run_id, add_checked, add_request, check_request,
  check_pending, check_charges, is_uncovered, check_usage, check_evidence_totals, check_run_charges,
  check_run_report, check_accounts, validate_with,
}
use jingwei.Budget.Checkpoint.Transfer.{
  validate_recovery_request, validate_recovery_evidence, check_recoveries, validate_recoveries,
  validate, validate_successor, execution_claim, image_of, checked_image, seal_checkpoint,
  restored_stop, limit_stops, restored_run, collect_pending, is_frozen_image, restored,
  restore_checkpoint,
}
use jingwei.Budget.Checkpoint.Transition.{
  suffix_after, refunds, erases, check_recovery, check_new_recoveries, validate_recovery_transition,
  granted, check_grant, check_new_grants, check_predecessor, validate_transition,
}
use jingwei.Budget.Amounts.{
  get, set, tighten_each, tightened_by, Resource-discrete, Amounts-discrete, Limits-discrete,
}
use jingwei.Budget.Ledger.Clock.{snapshot}
use jingwei.Budget.Ledger.Requests.{
  fits, has_attempt, validate_request, check_evidence, insert_pending,
}
use jingwei.Budget.Ledger.Runs.{has_blank_identity}
use jingwei.Budget.Vocabulary.{
  Identity-discrete, TokenMode-discrete, StopReason-discrete, TokenEvidence-discrete,
}
use jingwei.Budget.Audit.{EventCursor-discrete}
use jingwei.Budget.Checkpoint.{Version-discrete}
use jingwei.Budget.Checkpoint.Grants.{anchor-discrete}
use jingwei.Budget.Equality.{
  stop-discrete, Request-discrete, UsageValue-discrete, Usage-discrete, UsageTotals-discrete,
  UsageReport-discrete, EventCounts-discrete, Metrics-discrete, RunReport-discrete,
  Pending-discrete, Report-discrete, GrantRequest-discrete, GrantRecord-discrete,
  RecoveryRequest-discrete, RecoveryRecord-discrete, Checkpoint-discrete, grants-discrete,
}
unfoldable use jingwei.Base.{ℕ_discrete}
use jingwei.Base.Text.{is_blank, byte_len, Text-discrete}
use jingwei.Base.{◌⊎◌, inl}
use jingwei.Budget.Checkpoint.{RestoreContext}
use jingwei.Budget.Checkpoint.Tests.{stored, stored_limits, first_image, more_steps}
use jingwei.Budget.Checkpoint.Host.{
  done, applied, Store, find_grant, exceeds, check_new_operation, new_record, candidate, grant_new,
  grant_loaded, grant_answered, grant_budget,
}
use jingwei.Budget.Checkpoint.Host.Laws.{Granted, grant_budget-Granted}

-- Its commits carry the revision that they replace.
abbrev holder : Store (Unit {0}) ℕ
holder = record {
  load = λ _. inl (some first_image);
  compare_exchange = λ expected _. inl expected;
}

-- The log agrees with the image.
abbrev agrees : Checkpoint → Unit {0} ⊎ Unit {0}
agrees _ = inl tt

abbrev host : RestoreContext
host = record {
  identity = stored.identity;
  revision = 1;
  confirmed_anchor = none;
  host_limits = stored_limits 30;
}

abbrev raised : Checkpoint
raised = granted first_image (new_record more_steps.request first_image) 2

grant_is_applied : grant_budget holder agrees host more_steps.request ≡ done (applied raised 1)
unfolding is_quiescent version_for is_bad_audit_text validate_request_text clears_stop
    validate_increase overtakes falls_behind check_anchor check_records check_chain validate_grants
    undo_grants boundary_report check_claim check_cursor check_shape check_run_id add_checked
    add_request check_request check_pending check_charges is_uncovered check_usage
    check_evidence_totals check_run_charges check_run_report check_accounts validate_with
    validate_recovery_request validate_recovery_evidence check_recoveries validate_recoveries
    validate validate_successor execution_claim image_of checked_image seal_checkpoint restored_stop
    limit_stops restored_run collect_pending is_frozen_image restored restore_checkpoint
    suffix_after refunds erases check_recovery check_new_recoveries validate_recovery_transition
    granted check_grant check_new_grants check_predecessor validate_transition get set tighten_each
    tightened_by Resource-discrete Amounts-discrete Limits-discrete snapshot fits has_attempt
    validate_request check_evidence insert_pending has_blank_identity Identity-discrete
    TokenMode-discrete StopReason-discrete TokenEvidence-discrete EventCursor-discrete
    Version-discrete anchor-discrete stop-discrete Request-discrete UsageValue-discrete
    Usage-discrete UsageTotals-discrete UsageReport-discrete EventCounts-discrete Metrics-discrete
    RunReport-discrete Pending-discrete Report-discrete GrantRequest-discrete GrantRecord-discrete
    RecoveryRequest-discrete RecoveryRecord-discrete Checkpoint-discrete grants-discrete ℕ_discrete
    is_blank byte_len Text-discrete find_grant exceeds check_new_operation new_record candidate
    grant_new grant_loaded grant_answered grant_budget
grant_is_applied = refl

grant_budget-Granted_example :
    (base : Checkpoint) × Granted holder host more_steps.request base raised 1
grant_budget-Granted_example =
    grant_budget-Granted holder agrees host more_steps.request raised 1 grant_is_applied
