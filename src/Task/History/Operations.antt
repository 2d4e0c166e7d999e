-- ===== src/Task/History/Operations.antt =====
-- crates/task/state/src/history.rs: the operations that an assessment reports as unresolved.
use jingwei.Base.{
  ℕ, ◌+◌, ◌≡◌, refl, Bool, true, false, ◌&&◌, some, List, [], ◌∷◌, ◌++◌, All, if◌then◌else◌, arith,
}
use jingwei.Base.Text.{Text, text_eq, text_eq→≡}
use jingwei.Core.Event.{SessionEvent, SessionEventKind}
use jingwei.Task.Vocabulary.{TaskOperationKind, UnresolvedTaskOperation}
use jingwei.Task.History.{find_operation, without_operation, insert_operation, sort_operations}

unfoldable pub same_kind : TaskOperationKind → TaskOperationKind → Bool
same_kind TaskOperationKind.model TaskOperationKind.model = true
same_kind TaskOperationKind.model TaskOperationKind.tool = false
same_kind TaskOperationKind.tool TaskOperationKind.model = false
same_kind TaskOperationKind.tool TaskOperationKind.tool = true

abbrev pub one_if : Bool → ℕ
one_if b = if b then 1 else 0

-- Whether a call of a kind with an id is the one that is counted.
abbrev pub matches : TaskOperationKind → Text → TaskOperationKind → Text → ℕ
matches kind id k i = one_if (same_kind k kind && text_eq i id)

module _ (kind : TaskOperationKind) (id : Text) where
  -- How many of the operations are of the kind and have the id.
  unfoldable pub operations_with : List UnresolvedTaskOperation → ℕ
  operations_with [] = 0
  operations_with (operation ∷ operations) =
      matches kind id operation.kind operation.call_id + operations_with operations

  pub operations_with-append :
      (first second : List UnresolvedTaskOperation)
      → operations_with (first ++ second) ≡ operations_with first + operations_with second
  unfolding operations_with
  operations_with-append [] second = omega arith
  operations_with-append (operation ∷ first) second =
      omega (arith, operations_with-append first second)

  operations_with-insert :
      (operation : UnresolvedTaskOperation) (operations : List UnresolvedTaskOperation)
      → operations_with (insert_operation operation operations)
        ≡ operations_with (operation ∷ operations)
  unfolding operations_with insert_operation
  operations_with-insert operation [] = refl
  operations_with-insert operation (other ∷ others) =
      ground (arith, operations_with-insert operation others)

  pub operations_with-sort :
      (operations : List UnresolvedTaskOperation)
      → operations_with (sort_operations operations) ≡ operations_with operations
  unfolding operations_with sort_operations
  operations_with-sort [] = refl
  operations_with-sort (operation ∷ operations) = omega (
    arith,
    operations_with-insert operation (sort_operations operations),
    operations_with-sort operations,
  )

  module _ {Value : Type 0} where
    -- The requests and the results of the kind with the id.
    unfoldable pub asks : SessionEventKind Value → ℕ
    asks (SessionEventKind.model_request request) =
        matches kind id TaskOperationKind.model request.call_id
    asks (SessionEventKind.tool_call call) = matches kind id TaskOperationKind.tool call.id
    asks (SessionEventKind.user_message text) = 0
    asks (SessionEventKind.assistant_delta text) = 0
    asks (SessionEventKind.assistant_message version text) = 0
    asks (SessionEventKind.model_result answer) = 0
    asks (SessionEventKind.tool_result answer) = 0
    asks (SessionEventKind.task_run_report report) = 0
    asks (SessionEventKind.stage_progress stage status message) = 0
    asks (SessionEventKind.mode chosen decided_by reason) = 0
    asks (SessionEventKind.plan_ready plan) = 0
    asks (SessionEventKind.done status artifact) = 0
    asks (SessionEventKind.error code message retryable) = 0
    asks (SessionEventKind.custom plugin name payload) = 0

    unfoldable pub resolves : SessionEventKind Value → ℕ
    resolves (SessionEventKind.model_result answer) =
        matches kind id TaskOperationKind.model answer.call_id
    resolves (SessionEventKind.tool_result answer) =
        matches kind id TaskOperationKind.tool answer.call_id
    resolves (SessionEventKind.model_request request) = 0
    resolves (SessionEventKind.tool_call call) = 0
    resolves (SessionEventKind.user_message text) = 0
    resolves (SessionEventKind.assistant_delta text) = 0
    resolves (SessionEventKind.assistant_message version text) = 0
    resolves (SessionEventKind.task_run_report report) = 0
    resolves (SessionEventKind.stage_progress stage status message) = 0
    resolves (SessionEventKind.mode chosen decided_by reason) = 0
    resolves (SessionEventKind.plan_ready plan) = 0
    resolves (SessionEventKind.done status artifact) = 0
    resolves (SessionEventKind.error code message retryable) = 0
    resolves (SessionEventKind.custom plugin name payload) = 0

    unfoldable pub total : (SessionEventKind Value → ℕ) → List (SessionEvent Value) → ℕ
    total measure [] = 0
    total measure (event ∷ events) = measure event.kind + total measure events

-- A list of operations of one kind.
abbrev pub OfKind : TaskOperationKind → List UnresolvedTaskOperation → Type 0
OfKind kind = All (λ operation. operation.kind ≡ kind)

pub without-OfKind :
    (kind : TaskOperationKind) (id : Text) (operations : List UnresolvedTaskOperation)
    → OfKind kind operations
    → OfKind kind (without_operation id operations)
unfolding without_operation
without-OfKind kind id [] all = tt
without-OfKind kind id (operation ∷ operations) (same, all) =
    ground (arith, without-OfKind kind id operations all)

pub append-OfKind :
    (kind : TaskOperationKind) (operations : List UnresolvedTaskOperation)
    (operation : UnresolvedTaskOperation)
    → OfKind kind operations
    → operation.kind ≡ kind
    → OfKind kind (operations ++ operation ∷ [])
append-OfKind kind [] operation all same = (same, tt)
append-OfKind kind (first ∷ operations) operation (this, all) same =
    (this, append-OfKind kind operations operation all same)

-- Taking an operation out takes out exactly one with its id.
pub without-count :
    (kind k : TaskOperationKind) (id i : Text) (operations : List UnresolvedTaskOperation)
    (found : UnresolvedTaskOperation)
    → OfKind k operations
    → find_operation i operations ≡ some found
    → operations_with kind id (without_operation i operations) + matches kind id k i
      ≡ operations_with kind id operations
unfolding operations_with without_operation find_operation
without-count kind k id i [] found all e = cc
without-count kind k id i (operation ∷ operations) found (same, all) e =
    ground (arith, text_eq→≡ operation.call_id i, without-count kind k id i operations found all)
