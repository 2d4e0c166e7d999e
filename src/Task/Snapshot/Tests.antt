-- ===== src/Task/Snapshot/Tests.antt =====
-- A task at its start, after one turn and, with no new event, once more; a witness.
use jingwei.Base.{ℕ, ◌≡◌, refl, true, Option, none, some, List, [], ◌∷◌, length}
use jingwei.Base.Result.{ok}
use jingwei.Base.Sets.{contains, with_member}
use jingwei.Base.Text.{Text, Text-discrete, is_blank, byte_len}
use jingwei.Budget.Amounts.{Amounts, no_amounts, Amounts-discrete, get}
use jingwei.Budget.Audit.{EventCursor, EventCursor-discrete}
use jingwei.Budget.Vocabulary.{Identity-discrete}
use jingwei.Task.Vocabulary.{TaskPhase, valid_text}
use jingwei.Task.Snapshot.{
  TaskSnapshotVersion, TaskSnapshot, Encoding, TaskCompatibility-discrete, TaskRunStop-discrete,
  TaskPhase-discrete, Cursor-discrete, Steps-discrete,
}
use jingwei.Task.Snapshot.Validate.{
  is_created, is_real_stop, keys, check_texts, check_tools, check_schemas, check_snapshot_cursor,
  check_phase, check_steps, check_created, extend_stack, push_children, walk_payloads,
  payload_values, validate_snapshot,
}
use jingwei.Task.Snapshot.Successor.{
  has_prefix, goes_back, falls_on, uncharges, check_previous, previous_revision, check_old,
  validate_snapshot_successor,
}
use jingwei.Task.Snapshot.Chain.{IsAfter, last_of, admit_all, admit_all-IsAfter}
unfoldable use jingwei.Base.{ℕ_discrete}

abbrev strings : Encoding Text
strings = record { children = λ value. none; fits_in = λ size snapshot. true }

abbrev snapshot_at :
    ℕ → Option EventCursor → ℕ → Amounts → TaskPhase → List Text → TaskSnapshot Text
snapshot_at revision cursor budget_revision charged phase steps = record {
  version = TaskSnapshotVersion.v1;
  revision = revision;
  identity = record { task_id = 107 ∷ []; session_id = 115 ∷ []; agent_key = 97 ∷ [] };
  compatibility = record {
    agent_revision = 49 ∷ [];
    policy_revision = 49 ∷ [];
    tool_revisions = (110 ∷ [], 49 ∷ []) ∷ [];
    payload_schemas = (112 ∷ [], 1) ∷ [];
  };
  cursor = cursor;
  budget = record { revision = budget_revision; charged = charged };
  phase = phase;
  settled_steps = steps;
  payloads = (112 ∷ [], 118 ∷ []) ∷ [];
}

abbrev end_of_turn : EventCursor
end_of_turn = record { session_id = 115 ∷ []; turn_id = 116 ∷ []; event_id = 101 ∷ []; seq = 4 }

abbrev used : Amounts
used = record no_amounts { model_requests = 1 }

abbrev start : TaskSnapshot Text
start = snapshot_at 1 none 1 no_amounts TaskPhase.created []

abbrev later : List (TaskSnapshot Text)
later =
    snapshot_at 2 (some end_of_turn) 2 used TaskPhase.completed ((120 ∷ []) ∷ [])
    ∷ snapshot_at 3 (some end_of_turn) 3 used TaskPhase.completed ((120 ∷ []) ∷ [])
    ∷ []

admitted : admit_all {ExecutionError = Text} strings start later ≡ ok tt
unfolding admit_all validate_snapshot_successor check_old check_previous previous_revision
    validate_snapshot check_texts check_tools check_schemas check_snapshot_cursor check_created
    check_phase check_steps walk_payloads push_children extend_stack payload_values keys is_created
    is_real_stop valid_text is_blank byte_len contains with_member has_prefix goes_back uncharges
    falls_on Text-discrete ℕ_discrete Identity-discrete EventCursor-discrete Amounts-discrete
    TaskCompatibility-discrete TaskRunStop-discrete TaskPhase-discrete Cursor-discrete
    Steps-discrete get
admitted = refl

admit_all-IsAfter_example : IsAfter (length later) start (last_of start later)
admit_all-IsAfter_example = admit_all-IsAfter strings start later admitted
