-- ===== src/Budget/Checkpoint/Transfer.antt =====
-- `validate` as a whole, `seal_checkpoint`, `restore_checkpoint`, `execution_claim` and
-- `validate_successor` of crates/core/budget/src/checkpoint.rs, and the recovery audit of
-- recovery.rs that `validate` reads.
use jingwei.Base.{
  ℕ, Bool, true, false, ◌&&◌, ◌||◌, not, Option, none, some, List, [], ◌∷◌, ltb, leb, ◌==◌, is_yes,
  is_some, is_empty, length, any, if◌then◌else◌, get_or_insert,
}
use jingwei.Base.Text.{Text, text_eq}
use jingwei.Base.Word.{checked_add}
use jingwei.Budget.Amounts.{Resource, all_resources, get, Limits, tightened_by}
use jingwei.Budget.Vocabulary.{Identity-discrete, StopReason, RunReport, Pending, Report}
use jingwei.Budget.Audit.{EventCursor, RecoveryRequest, RecoveryRecord}
use jingwei.Budget.Ledger.{BudgetError, Inner, RunState, State}
use jingwei.Budget.Ledger.Clock.{tick, snapshot}
use jingwei.Budget.Ledger.Requests.{fits, insert_pending}
use jingwei.Budget.Checkpoint.{
  Version, Version-discrete, Checkpoint, RestoreContext, CheckpointError, Checked, ok, err, ◌>>=◌,
  ◌>>◌, refuse_if, require, or_refuse, budget, revision_mismatch, is_quiescent, version_for,
}
use jingwei.Budget.Checkpoint.Grants.{is_bad_audit_text, anchor_eq}
use jingwei.Budget.Checkpoint.Validate.{validate_with}
use mathlib.Core.List.{foldl}
use mathlib.Core.Option

abbrev pub max_recoveries : ℕ
max_recoveries = 16

-- `validate_request` of recovery.rs.
unfoldable pub validate_recovery_request : RecoveryRequest → Checked (Unit {0})
unfolding is_bad_audit_text
validate_recovery_request q = do
  refuse_if
      (any is_bad_audit_text (q.operation_id ∷ q.execution_id ∷ q.actor ∷ q.source ∷ q.reason ∷ []))
      "empty or oversized recovery audit"
  refuse_if (q.source_revision == 0) "zero recovery revision"

-- The standalone image of a recovery's candidate has no grants and no recoveries.
unfoldable pub validate_recovery_evidence : RecoveryRecord → Checked (Unit {0})
unfolding validate_with
validate_recovery_evidence r = do
  revision ← or_refuse (checked_add r.request.source_revision 1) CheckpointError.revision_exhausted
  validate_with (ok tt) (record {
    version = Version.v3;
    revision = revision;
    next_id = r.candidate_next_id;
    anchor = r.confirmed_anchor;
    report = r.candidate_report;
    run_id = none;
    recovery_frozen = false;
    execution_id = none;
    grants = [];
    recoveries = [];
  })

-- The loop of `validate_recoveries`, with the ids seen and the previous revision.
unfoldable pub check_recoveries :
    Checkpoint → List Text → ℕ → List RecoveryRecord → Checked (Unit {0})
unfolding validate_recovery_request validate_recovery_evidence is_bad_audit_text
check_recoveries c seen previous [] = ok tt
check_recoveries c seen previous (r ∷ rs) = do
  validate_recovery_request r.request
  refuse_if
      (any (text_eq r.request.operation_id) seen
        || leb r.request.source_revision previous
        || leb c.revision r.request.source_revision
        || is_bad_audit_text r.ownership_id
        || not (is_yes (Identity-discrete r.candidate_report.identity c.report.identity))
        || is_some r.candidate_report.run
        || not (is_empty r.candidate_report.pending)
        || ltb c.next_id r.candidate_next_id)
      "invalid recovery evidence"
  validate_recovery_evidence r
  check_recoveries c (r.request.operation_id ∷ seen) r.request.source_revision rs

unfoldable pub validate_recoveries : Checkpoint → Checked (Unit {0})
unfolding check_recoveries
validate_recoveries c = do
  refuse_if
      (ltb max_recoveries (length c.recoveries)
        || (not (is_empty c.recoveries) && not (is_yes (Version-discrete c.version Version.v4))))
      "invalid recovery version/count"
  check_recoveries c [] 0 c.recoveries

unfoldable pub validate : Checkpoint → Checked (Unit {0})
unfolding validate_with validate_recoveries
validate c = validate_with (validate_recoveries c) c

unfoldable pub validate_successor : Checkpoint → ℕ → Checked (Unit {0})
validate_successor c expected_revision = do
  validate c
  expected ← or_refuse (checked_add expected_revision 1) CheckpointError.revision_exhausted
  require (c.revision == expected) (revision_mismatch expected c.revision)

-- `execution_claim`; the id that it makes up is an argument.
unfoldable pub execution_claim : Text → Checkpoint → Checked Checkpoint
unfolding is_quiescent version_for validate
execution_claim id c = do
  refuse_if (not (is_quiescent c)) "checkpoint requires recovery"
  revision ← or_refuse (checked_add c.revision 1) CheckpointError.revision_exhausted
  let claim : Checkpoint = record c {
    version = version_for c.recoveries;
    revision = revision;
    recovery_frozen = true;
    execution_id = some id;
  }
  validate claim
  ok claim

-- The image of a state.
unfoldable pub image_of : Inner → Option EventCursor → ℕ → State → Checkpoint
unfolding version_for snapshot
image_of inner anchor revision s = record {
  version = version_for s.recoveries;
  revision = revision;
  next_id = s.next_id;
  anchor = anchor;
  report = snapshot inner s;
  run_id = Option.map (λ run. run.id) s.run;
  recovery_frozen = s.recovery_frozen;
  execution_id = none;
  grants = s.grants;
  recoveries = s.recoveries;
}

-- `seal_checkpoint` after the tick: the image and the validation that comes before the seal.
unfoldable pub checked_image : Inner → Option EventCursor → State → Checked Checkpoint
unfolding image_of validate
checked_image inner anchor s = do
  revision ← or_refuse (checked_add s.checkpoint_revision 1) CheckpointError.revision_exhausted
  validate (image_of inner anchor revision s)
  ok (image_of inner anchor revision s)

abbrev pub sealed_by : State → Checked Checkpoint → Checked Checkpoint × State
sealed_by s (ok c) = (ok c, record s { is_sealed = true })
sealed_by s (err e) = (err e, s)

-- `seal_checkpoint` at clock time `now`.
unfoldable pub seal_checkpoint : Inner → Option EventCursor → ℕ → State → Checked Checkpoint × State
unfolding checked_image
seal_checkpoint inner anchor now s =
    if s.is_sealed
    then (err (budget BudgetError.checkpoint_sealed), s)
    else sealed_by (tick inner now s) (checked_image inner anchor (tick inner now s))

-- The stop of a restored ledger before its resources are looked at.
unfoldable pub restored_stop : Bool → Limits → Report → Option StopReason
restored_stop frozen limits report =
    if frozen
    then get_or_insert report.stop StopReason.recovery_required
    else if leb limits.active_time report.active_time
    then get_or_insert report.stop StopReason.active_time
    else report.stop

-- The loop over the resources of a restored ledger.
unfoldable pub limit_stops : Report → Limits → List Resource → Option StopReason → Option StopReason
unfolding fits
limit_stops report limits [] stop = stop
limit_stops report limits (r ∷ rs) stop = limit_stops report limits rs (
    if fits (get report.charged r) (get report.reserved r) 0 (get limits.resources r)
    then stop
    else get_or_insert stop (StopReason.resource_limit r))

-- The run of a restored ledger is closed and cleaning up.
unfoldable pub restored_run : Limits → Option RunReport → Option ℕ → Option RunState
restored_run limits (some report) (some id) = some (record {
  id = id;
  report = record report { is_open = false; limits = tightened_by report.limits limits };
  cleaning = true;
})
restored_run limits _ _ = none

-- `pending.into_iter().map(|p| (p.id, p)).collect()`: a map by rising key.
unfoldable pub collect_pending : List Pending → List Pending
unfolding insert_pending
collect_pending = foldl (λ m p. insert_pending p m) []

unfoldable pub is_frozen_image : Checkpoint → Bool
is_frozen_image c = c.recovery_frozen || is_some c.report.run || not (is_empty c.report.pending)

-- The ledger that `restore_checkpoint` builds at clock time `now`.
unfoldable pub restored : Checkpoint → Limits → ℕ → Inner × State
unfolding restored_stop limit_stops restored_run collect_pending is_frozen_image
restored c host_limits now =
    let report = c.report in
    let limits : Limits = tightened_by report.limits host_limits in
    let frozen : Bool = is_frozen_image c in
    (
      record { identity = report.identity; limits = limits; token_mode = report.token_mode },
      record {
        is_sealed = false;
        recovery_frozen = frozen;
        checkpoint_revision = c.revision;
        grants = c.grants;
        recoveries = c.recoveries;
        charged = report.charged;
        reserved = report.reserved;
        usage = report.usage;
        active_time = report.active_time;
        cleanup_time = report.cleanup_time;
        stop = limit_stops report limits all_resources (restored_stop frozen limits report);
        run = restored_run limits report.run c.run_id;
        pending = collect_pending report.pending;
        next_id = c.next_id;
        last_clock = now;
      },
    )

unfoldable pub restore_checkpoint : Checkpoint → RestoreContext → ℕ → Checked (Inner × State)
unfolding restored validate
restore_checkpoint c context now = do
  validate c
  require (is_yes (Identity-discrete c.report.identity context.identity))
      CheckpointError.identity_mismatch
  require (c.revision == context.revision) (revision_mismatch context.revision c.revision)
  require (anchor_eq c.anchor context.confirmed_anchor) CheckpointError.anchor_mismatch
  ok (restored c context.host_limits now)
