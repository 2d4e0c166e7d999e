-- ===== src/Budget/Checkpoint/Transition.antt =====
-- `validate_transition` of crates/core/budget/src/grant.rs and `validate_recovery_transition` of
-- recovery.rs: what one stored image may become.
use jingwei.Base.{
  ℕ, Bool, false, ◌||◌, not, Option, none, some, List, [], ◌∷◌, ltb, ◌==◌, is_yes, is_empty, any,
  if◌then◌else◌, ◌++◌,
}
use jingwei.Base.Text.{Text, text_eq}
use jingwei.Budget.Amounts.{
  all_resources, Amounts, no_amounts, get, amounts_eq, limits_eq, tightened_by,
}
use jingwei.Budget.Vocabulary.{Identity-discrete, TokenMode-discrete, UsageTotals}
use jingwei.Budget.Audit.{GrantRecord, RecoveryRecord}
use jingwei.Budget.Equality.{
  Report-discrete, GrantRecord-discrete, RecoveryRecord-discrete, Checkpoint-discrete, stop_eq,
  grants-discrete,
}
use jingwei.Budget.Checkpoint.{
  Checkpoint, CheckpointError, Checked, ok, err, ◌>>◌, refuse_if, require, invalid, is_quiescent,
  version_for,
}
use jingwei.Budget.Checkpoint.Grants.{anchor_eq}
use jingwei.Budget.Checkpoint.Transfer.{validate, validate_successor}

-- `xs.starts_with(prefix)` and then `&xs[prefix.len()..]`.
unfoldable pub suffix_after {ℓ} : {A : Type ℓ} → Discrete A → List A → List A → Option (List A)
suffix_after d [] xs = some xs
suffix_after d (p ∷ ps) [] = none
suffix_after d (p ∷ ps) (x ∷ xs) =
    let rest = suffix_after d ps xs in if is_yes (d x p) then rest else none

-- `previous.execution_id() != Some(id)`, negated.
abbrev is_claimed_by : Text → Option Text → Bool
is_claimed_by id none = false
is_claimed_by id (some claim) = text_eq claim id

-- Some resource has been refunded.
unfoldable pub refunds : Amounts → Amounts → Bool
refunds next old = any (λ r. ltb (get next r) (get old r)) all_resources

unfoldable pub erases : UsageTotals → UsageTotals → Bool
erases next old =
    ltb next.actual old.actual || ltb next.estimated old.estimated || ltb next.unknown old.unknown

-- The new image closes the claim of the old one with the candidate of its last recovery.
unfoldable pub check_recovery : Checkpoint → Checkpoint → RecoveryRecord → Checked (Unit {0})
unfolding is_quiescent refunds erases
check_recovery c previous r = do
  refuse_if
      (not (is_claimed_by r.request.execution_id previous.execution_id)
        || not (previous.revision == r.request.source_revision)
        || not (is_quiescent c)
        || not (is_yes (grants-discrete c.grants previous.grants))
        || not (is_yes (Report-discrete c.report r.candidate_report))
        || not (c.next_id == r.candidate_next_id)
        || not (anchor_eq c.anchor r.confirmed_anchor)
        || ltb c.next_id previous.next_id
        || not (limits_eq c.report.limits previous.report.limits)
        || not (is_yes (TokenMode-discrete c.report.token_mode previous.report.token_mode))
        || ltb c.report.active_time previous.report.active_time
        || ltb c.report.cleanup_time previous.report.cleanup_time
        || not (amounts_eq c.report.reserved no_amounts))
      "recovery does not preserve original claim and candidate"
  refuse_if (refunds c.report.charged previous.report.charged) "recovery refunds consumed resources"
  refuse_if
      (erases c.report.usage.input_tokens previous.report.usage.input_tokens
        || erases c.report.usage.output_tokens previous.report.usage.output_tokens
        || erases c.report.usage.tool_output_bytes previous.report.usage.tool_output_bytes)
      "recovery erases usage evidence"

-- The match on the recoveries that the new image adds.
unfoldable pub check_new_recoveries :
    Checkpoint → Checkpoint → Option (List RecoveryRecord) → Checked (Unit {0})
check_new_recoveries c previous none = err (invalid "recovery audit rewritten")
check_new_recoveries c previous (some []) = ok tt
check_new_recoveries c previous (some (r ∷ [])) = check_recovery c previous r
check_new_recoveries c previous (some (r ∷ q ∷ rs)) =
    err (invalid "multiple recoveries in one transition")

unfoldable pub validate_recovery_transition : Checkpoint → Option Checkpoint → Checked (Unit {0})
validate_recovery_transition c none =
    refuse_if (not (is_empty c.recoveries)) "initial recovery audit"
validate_recovery_transition c (some previous) =
    check_new_recoveries c previous
      (suffix_after RecoveryRecord-discrete previous.recoveries c.recoveries)

-- The image that a grant makes of its predecessor, as `validate_transition` and `grant_budget`
-- build it.
unfoldable pub granted : Checkpoint → GrantRecord → ℕ → Checkpoint
unfolding version_for
granted previous g revision = record previous {
  version = version_for previous.recoveries;
  revision = revision;
  report = record previous.report { limits = g.request.new_limits; stop = none };
  grants = previous.grants ++ g ∷ [];
}

-- One new grant describes its predecessor and changes nothing but limits and stop.
unfoldable pub check_grant : Checkpoint → Checkpoint → GrantRecord → Checked (Unit {0})
check_grant c previous g = do
  refuse_if
      (not (is_quiescent previous)
        || not (g.source_revision == previous.revision)
        || not (anchor_eq g.confirmed_anchor previous.anchor)
        || not (limits_eq g.old_limits previous.report.limits)
        || not (stop_eq g.old_stop previous.report.stop))
      "grant does not describe the quiescent predecessor"
  refuse_if (not (is_yes (Checkpoint-discrete c (granted previous g c.revision))))
      "grant altered state other than limits and budget stop"

-- The match on the grants that the new image adds.
unfoldable pub check_new_grants :
    Checkpoint → Checkpoint → Option (List GrantRecord) → Checked (Unit {0})
check_new_grants c previous none = err (invalid "grant audit removed or rewritten")
check_new_grants c previous (some []) =
    refuse_if
      (not (limits_eq (tightened_by c.report.limits previous.report.limits) c.report.limits))
      "limits increased without an atomic grant record"
check_new_grants c previous (some (g ∷ [])) = check_grant c previous g
check_new_grants c previous (some (g ∷ h ∷ gs)) = err (invalid "multiple grants in one transition")

-- The part of `validate_transition` after the recoveries.
unfoldable pub check_predecessor : Checkpoint → Option Checkpoint → Checked (Unit {0})
check_predecessor c none = refuse_if (not (is_empty c.grants)) "initial image contains grants"
check_predecessor c (some previous) = do
  validate previous
  require (is_yes (Identity-discrete previous.report.identity c.report.identity))
      CheckpointError.identity_mismatch
  check_new_grants c previous (suffix_after GrantRecord-discrete previous.grants c.grants)

-- `previous.map_or(0, Self::revision)`.
abbrev pub revision_of : Option Checkpoint → ℕ
revision_of none = 0
revision_of (some c) = c.revision

unfoldable pub validate_transition : Checkpoint → Option Checkpoint → Checked (Unit {0})
validate_transition c previous = do
  validate_successor c (revision_of previous)
  validate_recovery_transition c previous
  check_predecessor c previous
