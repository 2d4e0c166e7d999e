-- ===== src/Task/Snapshot/Successor.antt =====
-- crates/task/state/src/lib.rs: `TaskSnapshot::validate_successor`.
use jingwei.Base.{
  ℕ, ltb, ◌==◌, Bool, true, false, ◌&&◌, ◌||◌, not, Option, none, some, List, [], ◌∷◌, is_yes,
}
use jingwei.Base.Result.{Result, ok, ◌>>=◌, ◌>>◌, refuse_if, ok_or}
use jingwei.Base.Text.{Text, text_eq}
use jingwei.Base.Word.{checked_add}
use jingwei.Budget.Amounts.{Resource, Amounts, Amounts-discrete, all_resources, get}
use jingwei.Budget.Audit.{EventCursor, EventCursor-discrete}
use jingwei.Budget.Vocabulary.{Identity-discrete}
use jingwei.Task.Vocabulary.{TaskStateError}
use jingwei.Task.Snapshot.{
  TaskSnapshot, TaskCompatibility-discrete, TaskPhase-discrete, Cursor-discrete, Steps-discrete,
  Encoding,
}
use jingwei.Task.Snapshot.Validate.{validate_snapshot}

-- `steps.starts_with(&prefix)`.
unfoldable pub has_prefix : List Text → List Text → Bool
has_prefix [] steps = true
has_prefix (p ∷ prefix) [] = false
has_prefix (p ∷ prefix) (step ∷ steps) = text_eq p step && has_prefix prefix steps

-- The match on the two cursors: the new one is behind, or differs at the same place, or is missing.
unfoldable pub goes_back : Option EventCursor → Option EventCursor → Bool
goes_back none new = false
goes_back (some old) none = true
goes_back (some old) (some new) =
    ltb new.seq old.seq || (new.seq == old.seq && not (is_yes (EventCursor-discrete new old)))

-- `BudgetResource::ALL.iter().any(|r| new.get(*r) < old.get(*r))`.
unfoldable pub falls_on : Amounts → Amounts → List Resource → Bool
falls_on old new [] = false
falls_on old new (r ∷ resources) = ltb (get new r) (get old r) || falls_on old new resources

unfoldable pub uncharges : Amounts → Amounts → Bool
uncharges old new = falls_on old new all_resources

unfoldable pub previous_revision : {Value : Type 0} → Option (TaskSnapshot Value) → ℕ
previous_revision none = 0
previous_revision (some old) = old.revision

module _ {ExecutionError Value : Type 0} (encoding : Encoding Value) where
  -- The checks against the snapshot before.
  unfoldable pub check_previous :
      TaskSnapshot Value → TaskSnapshot Value → Result (TaskStateError ExecutionError) (Unit {0})
  check_previous old new =
      validate_snapshot encoding old
      >> refuse_if (not (is_yes (Identity-discrete old.identity new.identity)))
          TaskStateError.identity_mismatch
      >> refuse_if (not (is_yes (TaskCompatibility-discrete old.compatibility new.compatibility)))
          TaskStateError.incompatible
      >> refuse_if
          (ltb new.budget.revision old.budget.revision
            || uncharges old.budget.charged new.budget.charged
            || not (has_prefix old.settled_steps new.settled_steps))
          TaskStateError.evidence_mismatch
      >> refuse_if (goes_back old.cursor new.cursor) TaskStateError.evidence_mismatch
      >> refuse_if
          (new.budget.revision == old.budget.revision
            && (not (is_yes (Cursor-discrete new.cursor old.cursor))
                || not (is_yes (Amounts-discrete new.budget.charged old.budget.charged))))
          TaskStateError.evidence_mismatch
      >> refuse_if
          (is_yes (Cursor-discrete old.cursor new.cursor)
            && (not (is_yes (TaskPhase-discrete old.phase new.phase))
                || not (is_yes (Steps-discrete old.settled_steps new.settled_steps))
                || not (is_yes (Amounts-discrete old.budget.charged new.budget.charged))))
          TaskStateError.evidence_mismatch

  unfoldable pub check_old :
      Option (TaskSnapshot Value)
      → TaskSnapshot Value
      → Result (TaskStateError ExecutionError) (Unit {0})
  check_old none new = ok tt
  check_old (some old) new = check_previous old new

  -- `TaskSnapshot::validate_successor`, of the new snapshot.
  unfoldable pub validate_snapshot_successor :
      TaskSnapshot Value
      → Option (TaskSnapshot Value)
      → Result (TaskStateError ExecutionError) (Unit {0})
  validate_snapshot_successor new previous =
      validate_snapshot encoding new
      >> (ok_or (checked_add (previous_revision previous) 1) TaskStateError.revision_exhausted
          >>= λ expected.
              refuse_if (not (new.revision == expected))
                (TaskStateError.revision_mismatch expected new.revision))
      >> check_old previous new
