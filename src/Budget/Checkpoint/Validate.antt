-- ===== src/Budget/Checkpoint/Validate.antt =====
-- `BudgetCheckpoint::validate` of crates/core/budget/src/checkpoint.rs, check by check, and the
-- audit of recoveries in recovery.rs.
use jingwei.Base.{
  ℕ, Bool, true, false, ◌&&◌, ◌||◌, not, Option, none, some, List, [], ◌∷◌, ltb, ◌==◌, is_some,
  is_none, is_empty, any, if◌then◌else◌, or_option,
}
use jingwei.Base.Text.{Text, is_blank, text_eq}
use jingwei.Base.Word.{checked_add}
use jingwei.Budget.Amounts.{
  Resource, all_resources, is_attempt, Amounts, no_amounts, get, set, amounts_eq,
}
use jingwei.Budget.Vocabulary.{Identity, TokenMode, RunReport, Pending, UsageTotals, Report}
use jingwei.Budget.Audit.{EventCursor}
use jingwei.Budget.Ledger.Action.{Outcome}
use jingwei.Budget.Ledger.Requests.{fits, validate_request}
use jingwei.Budget.Ledger.Runs.{has_blank_identity}
use jingwei.Budget.Checkpoint.{
  Version, Checkpoint, Checked, ok, err, ◌>>=◌, ◌>>◌, refuse_if, or_refuse, invalid,
}
use jingwei.Budget.Checkpoint.Grants.{validate_grants}

abbrev is_v1 : Version → Bool
is_v1 Version.v1 = true
is_v1 _ = false

-- The check of the execution claim.
unfoldable pub check_claim : Checkpoint → Option Text → Checked (Unit {0})
unfolding is_blank
check_claim c none = ok tt
check_claim c (some id) =
    refuse_if
      (is_v1 c.version
        || is_blank id
        || not c.recovery_frozen
        || is_some c.run_id
        || not (is_empty c.report.pending))
      "invalid durable execution claim"

-- The check of the anchor.
unfoldable pub check_cursor : Identity → Option EventCursor → Checked (Unit {0})
unfolding is_blank
check_cursor identity none = ok tt
check_cursor identity (some anchor) =
    refuse_if
      (not (text_eq anchor.session_id identity.session_id)
        || is_blank anchor.turn_id
        || is_blank anchor.event_id)
      "invalid event cursor identity"

abbrev same_presence : Bool → Bool → Bool
same_presence true b = b
same_presence false b = not b

-- The checks before the loop over the pending reservations.
unfoldable pub check_shape : Checkpoint → Checked (Unit {0})
unfolding check_cursor has_blank_identity
check_shape c = do
  refuse_if (c.revision == 0) "revision zero is reserved for absent storage"
  refuse_if (has_blank_identity c.report.identity) "empty identity"
  check_cursor c.report.identity c.anchor
  refuse_if (not (same_presence (is_some c.run_id) (is_some c.report.run)))
      "run identity and run evidence disagree"
  refuse_if (is_none c.report.run && not (is_empty c.report.pending))
      "pending reservations without a run"

-- The set of ids starts with the run's.
unfoldable pub check_run_id : ℕ → Option ℕ → Checked (List ℕ)
check_run_id next_id none = ok []
check_run_id next_id (some id) = do
  refuse_if (id == 0 || ltb next_id id) "invalid run ID watermark"
  ok (id ∷ [])

-- The locals of the loop over the pending reservations.
pub record Totals : Type 0 where
  pub ids : List ℕ
  pub reserved : Amounts
  pub attempts : Amounts

abbrev pub start_totals : List ℕ → Totals
start_totals ids = record { ids = ids; reserved = no_amounts; attempts = no_amounts }

-- `totals.set(resource, totals.get(resource).checked_add(…).ok_or(…)?)`.
unfoldable pub add_checked : Amounts → Amounts → Resource → Checked Amounts
add_checked amounts totals r = do
  sum ← or_refuse (checked_add (get totals r) (get amounts r)) (invalid "pending totals overflow")
  ok (set totals r sum)

-- The inner loop, over the resources.
unfoldable pub add_request : Amounts → List Resource → Totals → Checked Totals
unfolding add_checked
add_request amounts [] t = ok t
add_request amounts (r ∷ rs) t = do
  next ←
      if is_attempt r
      then (do attempts ← add_checked amounts t.attempts r; ok (record t { attempts = attempts }))
      else (do reserved ← add_checked amounts t.reserved r; ok (record t { reserved = reserved }))
  add_request amounts rs next

-- `validate_request(…).map_err(|_| Invalid(…))`.
unfoldable pub check_request : Pending → TokenMode → Checked (Unit {0})
unfolding validate_request
check_request p mode = elim (validate_request p.request mode) [
  | Outcome.ok _ ↦ ok tt
  | _ ↦ err (invalid "invalid pending resource request")
]

-- The loop over the pending reservations.
unfoldable pub check_pending : ℕ → TokenMode → List Pending → Totals → Checked Totals
unfolding check_request add_request
check_pending next_id mode [] t = ok t
check_pending next_id mode (p ∷ ps) t = do
  refuse_if (p.id == 0 || ltb next_id p.id || any (λ id. id == p.id) t.ids)
      "invalid or duplicate reservation ID"
  refuse_if (is_some p.failed_usage && not p.started) "usage evidence on an unstarted reservation"
  check_request p mode
  next ← add_request p.request.amounts all_resources (record t { ids = p.id ∷ t.ids })
  check_pending next_id mode ps next

-- The loop over the task's charges.
unfoldable pub check_charges : Report → Amounts → List Resource → Checked (Unit {0})
unfolding fits
check_charges report attempts [] = ok tt
check_charges report attempts (r ∷ rs) = do
  refuse_if (ltb (get report.charged r) (get attempts r)) "pending attempts exceed task charges"
  refuse_if
      (not (fits (get report.charged r) (get report.reserved r) 0 (get report.limits.resources r))
        && is_none report.stop)
      "over-limit task without stop evidence"
  check_charges report attempts rs

-- `usage.actual.checked_add(usage.estimated).is_none_or(|total| total > charged)`.
unfoldable pub is_uncovered : UsageTotals → ℕ → Bool
is_uncovered usage charged = elim (checked_add usage.actual usage.estimated) [
  | none ↦ true
  | some total ↦ ltb charged total
]

unfoldable pub check_usage : Report → UsageTotals → Resource → Checked (Unit {0})
unfolding is_uncovered
check_usage report usage r =
    refuse_if (is_uncovered usage (get report.charged r))
      "usage evidence exceeds conservative charges"

-- The loop over the usage evidence.
unfoldable pub check_evidence_totals : Report → Checked (Unit {0})
unfolding check_usage
check_evidence_totals report = do
  check_usage report report.usage.input_tokens Resource.input_tokens
  check_usage report report.usage.output_tokens Resource.output_tokens
  check_usage report report.usage.tool_output_bytes Resource.tool_output_bytes

-- The loop over the run's charges.
unfoldable pub check_run_charges : Report → RunReport → Amounts → List Resource → Checked (Unit {0})
unfolding fits
check_run_charges report run attempts [] = ok tt
check_run_charges report run attempts (r ∷ rs) = do
  refuse_if
      (ltb (get report.charged r) (get run.charged r)
        || ltb (get run.charged r) (get attempts r)
        || ltb (get report.limits.resources r) (get run.limits.resources r))
      "run resource totals or limits exceed task values"
  refuse_if
      (not (fits (get run.charged r) (get run.reserved r) 0 (get run.limits.resources r))
        && is_none (or_option run.stop report.stop))
      "over-limit run without stop evidence"
  check_run_charges report run attempts rs

abbrev has_blank_turn : Option Text → Bool
has_blank_turn none = false
has_blank_turn (some id) = is_blank id

-- The checks of the run's report.
unfoldable pub check_run_report : Report → Amounts → Option RunReport → Checked (Unit {0})
unfolding check_run_charges is_blank
check_run_report report attempts none = ok tt
check_run_report report attempts (some run) = do
  refuse_if (has_blank_turn run.turn_id) "empty run TurnId"
  refuse_if
      (not (amounts_eq run.reserved report.reserved)
        || ltb report.active_time run.active_time
        || ltb report.cleanup_time run.cleanup_time)
      "run totals disagree with task totals"
  check_run_charges report run attempts all_resources
  refuse_if
      (ltb report.limits.active_time run.limits.active_time
        || (ltb run.limits.active_time run.active_time && is_none (or_option run.stop report.stop)))
      "invalid run time limit"

-- The checks from the loop over the pending reservations to the end.
unfoldable pub check_accounts : Checkpoint → Checked (Unit {0})
unfolding check_run_id check_pending check_charges check_evidence_totals check_run_report
check_accounts c = do
  let report = c.report
  ids ← check_run_id c.next_id c.run_id
  totals ← check_pending c.next_id report.token_mode report.pending (start_totals ids)
  refuse_if (not (amounts_eq totals.reserved report.reserved))
      "reserved totals do not equal pending variable resources"
  refuse_if
      (c.next_id == 0
        && (not (amounts_eq report.charged no_amounts) || not (report.active_time == 0)))
      "consumption without an allocated run"
  check_charges report totals.attempts all_resources
  refuse_if (ltb report.limits.active_time report.active_time && is_none report.stop)
      "over-limit task time without stop evidence"
  check_evidence_totals report
  check_run_report report totals.attempts report.run

-- `validate` with the check of the recoveries as an argument.
unfoldable pub validate_with : Checked (Unit {0}) → Checkpoint → Checked (Unit {0})
unfolding check_claim validate_grants check_shape check_accounts
validate_with recoveries c = do
  check_claim c c.execution_id
  validate_grants c
  recoveries
  check_shape c
  check_accounts c
