-- ===== src/Task/Snapshot/Validate.antt =====
-- crates/task/state/src/lib.rs: `TaskSnapshot::validate`.
use jingwei.Base.{
  ℕ, zero, suc, ltb, ◌==◌, Bool, true, false, ◌&&◌, ◌||◌, not, Option, none, some, List, [], ◌∷◌,
  length, is_yes, is_none, is_some, if◌then◌else◌, is_empty,
}
use jingwei.Base.Result.{Result, ok, err, ◌>>=◌, ◌>>◌, refuse_if}
use jingwei.Base.Text.{Text, text_eq}
use jingwei.Budget.Amounts.{Amounts-discrete}
use jingwei.Budget.Audit.{EventCursor}
use jingwei.Core.Event.{TaskRunStop}
use jingwei.Task.Vocabulary.{TaskPhase, TaskStateError}
use jingwei.Task.Vocabulary.{valid_text, max_task_steps}
use jingwei.Base.Text.{is_blank, byte_len}
use jingwei.Base.Sets.{contains, with_member}
use jingwei.Budget.Amounts.{no_amounts}
use jingwei.Task.Snapshot.{TaskSnapshot, Steps-discrete, Encoding}

-- `MAX_TASK_SNAPSHOT_BYTES`.
abbrev max_task_snapshot_bytes : ℕ
max_task_snapshot_bytes = 524288

unfoldable pub is_created : TaskPhase → Bool
is_created TaskPhase.created = true
is_created TaskPhase.completed = false
is_created TaskPhase.checkpointed = false
is_created (TaskPhase.waiting_for_input question) = false
is_created (TaskPhase.stopped reason) = false

-- A stop that is not one of the ends of a turn.
unfoldable pub is_real_stop : TaskRunStop → Bool
is_real_stop TaskRunStop.completed = false
is_real_stop TaskRunStop.waiting_for_input = false
is_real_stop TaskRunStop.checkpointed = false
is_real_stop reason = true

unfoldable pub keys : {A : Type 0} → List (Text × A) → List Text
keys [] = []
keys ((key, value) ∷ entries) = key ∷ keys entries

abbrev pub Valid : Type 0 → Type 0
Valid ExecutionError = Result (TaskStateError ExecutionError) (Unit {0})

module _ {Value : Type 0} where
  -- `stack.extend`: the top of the stack is the head of the list.
  unfoldable pub extend_stack : List Value → ℕ → List (Value × ℕ) → List (Value × ℕ)
  extend_stack [] depth stack = stack
  extend_stack (value ∷ values) depth stack = extend_stack values depth ((value, depth) ∷ stack)

  unfoldable pub payload_values : List (Text × Value) → List Value
  payload_values [] = []
  payload_values ((name, value) ∷ payloads) = value ∷ payload_values payloads

module _ {ExecutionError : Type 0} where
  unfoldable pub check_texts : List Text → Valid ExecutionError
  check_texts [] = ok tt
  check_texts (text ∷ texts) = valid_text text >> check_texts texts

  unfoldable pub check_tools : List (Text × Text) → Valid ExecutionError
  check_tools [] = ok tt
  check_tools ((name, revision) ∷ tools) =
      valid_text name >> valid_text revision >> check_tools tools

  unfoldable pub check_schemas : List (Text × ℕ) → Valid ExecutionError
  check_schemas [] = ok tt
  check_schemas ((name, number) ∷ schemas) =
      valid_text name
      >> refuse_if (number == 0) (TaskStateError.invalid "zero schema version")
      >> check_schemas schemas

  unfoldable pub check_snapshot_cursor : Text → Option EventCursor → Valid ExecutionError
  check_snapshot_cursor session_id none = ok tt
  check_snapshot_cursor session_id (some cursor) =
      refuse_if (not (text_eq cursor.session_id session_id)) TaskStateError.identity_mismatch
      >> valid_text cursor.event_id
      >> valid_text cursor.turn_id

  unfoldable pub check_phase : TaskPhase → Valid ExecutionError
  check_phase TaskPhase.created = ok tt
  check_phase TaskPhase.completed = ok tt
  check_phase TaskPhase.checkpointed = ok tt
  check_phase (TaskPhase.waiting_for_input question) =
      refuse_if (is_blank question || ltb 65536 (byte_len question))
        (TaskStateError.invalid "question")
  check_phase (TaskPhase.stopped reason) =
      refuse_if (not (is_real_stop reason)) (TaskStateError.invalid "inconsistent stopped phase")

  unfoldable pub check_steps : List Text → List Text → Valid ExecutionError
  check_steps seen [] = ok tt
  check_steps seen (step ∷ steps) =
      valid_text step
      >> refuse_if (contains step seen) (TaskStateError.invalid "duplicate step")
      >> check_steps (with_member step seen) steps

  unfoldable pub check_created : {Value : Type 0} → TaskSnapshot Value → Valid ExecutionError
  check_created snapshot =
      refuse_if
        (if is_created snapshot.phase then is_some snapshot.cursor else is_none snapshot.cursor)
        (TaskStateError.invalid "phase boundary")
      >> refuse_if
          (is_created snapshot.phase
            && (not (is_yes (Amounts-discrete snapshot.budget.charged no_amounts))
                || not (is_empty snapshot.settled_steps)))
          (TaskStateError.invalid "nonempty created state")

  unfoldable pub push_children :
      {Value : Type 0}
      → Option (List Value)
      → ℕ
      → List (Value × ℕ)
      → Result (TaskStateError ExecutionError) (List (Value × ℕ))
  push_children none depth stack = ok stack
  push_children (some values) depth stack =
      refuse_if (ltb 65536 (length values)) TaskStateError.limit
      >> ok (extend_stack values (suc depth) stack)

  module _ {Value : Type 0} (encoding : Encoding Value) where
    -- The loop over the stack, with the nodes that are left before the limit.
    unfoldable pub walk_payloads : ℕ → List (Value × ℕ) → Valid ExecutionError
    walk_payloads left [] = ok tt
    walk_payloads zero (node ∷ stack) = err TaskStateError.limit
    walk_payloads (suc left) ((value, depth) ∷ stack) =
        refuse_if (ltb 64 depth) TaskStateError.limit
        >> (push_children (encoding.children value) depth stack >>= λ next.
            refuse_if (ltb 65536 (length next)) TaskStateError.limit >> walk_payloads left next)

    -- `TaskSnapshot::validate`.
    unfoldable pub validate_snapshot : TaskSnapshot Value → Valid ExecutionError
    validate_snapshot snapshot =
        refuse_if (snapshot.revision == 0 || snapshot.budget.revision == 0)
          (TaskStateError.invalid "zero revision")
        >> check_texts (
            snapshot.identity.task_id ∷ snapshot.identity.session_id ∷ snapshot.identity.agent_key
            ∷ snapshot.compatibility.agent_revision ∷ snapshot.compatibility.policy_revision ∷ [])
        >> refuse_if
            (ltb 1024 (length snapshot.compatibility.tool_revisions)
              || ltb 128 (length snapshot.payloads)
              || ltb max_task_steps (length snapshot.settled_steps))
            TaskStateError.limit
        >> check_tools snapshot.compatibility.tool_revisions
        >> refuse_if
            (not (
              is_yes (
                Steps-discrete (keys snapshot.payloads)
                  (keys snapshot.compatibility.payload_schemas))))
            TaskStateError.incompatible
        >> check_schemas snapshot.compatibility.payload_schemas
        >> check_snapshot_cursor snapshot.identity.session_id snapshot.cursor
        >> check_created snapshot
        >> check_phase snapshot.phase
        >> check_steps [] snapshot.settled_steps
        >> walk_payloads 65536 (extend_stack (payload_values snapshot.payloads) 0 [])
        >> refuse_if (not (encoding.fits_in max_task_snapshot_bytes snapshot)) TaskStateError.limit
