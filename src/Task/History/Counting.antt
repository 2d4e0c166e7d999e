-- ===== src/Task/History/Counting.antt =====
-- crates/task/state/src/history.rs: what each step of the loop does to the operations that wait.
use jingwei.Base.{
  ℕ, ◌+◌, ◌≡◌, refl, sym, ap, ◌∙◌, subst, Option, none, some, List, [], ◌∷◌, ◌++◌, arith,
  Option-cases, inl, inr,
}
use jingwei.Base.Result.{ok, Result-cases}
use jingwei.Base.Sets.{with_member}
use jingwei.Base.Text.{Text}
use jingwei.Budget.Vocabulary.{Identity}
use jingwei.Core.Event.{SessionEvent, SessionEventKind}
use jingwei.Task.Vocabulary.{TaskOperationKind, UnresolvedTaskOperation}
use jingwei.Task.History.{Scan, Started, find_operation, without_operation}
use jingwei.Task.History.Scanning.{
  finish_operation, operation_of, record_step, check_address, enter_turn, follow, start_operation,
  start_pending,
}
use jingwei.Task.History.Operations.{
  matches, operations_with, operations_with-append, asks, resolves, OfKind, without-OfKind,
  append-OfKind, without-count,
}

-- The two lists hold operations of their kinds.
abbrev pub IsSorted : Scan → Type 0
IsSorted scan =
    OfKind TaskOperationKind.model scan.models × OfKind TaskOperationKind.tool scan.tools

-- The lists of operations are those of another scan.
abbrev pub SameLists : Scan → Scan → Type 0
SameLists scan next = (next.models ≡ scan.models) × (next.tools ≡ scan.tools)

pub SameLists-IsSorted : (scan next : Scan) → SameLists scan next → IsSorted scan → IsSorted next
SameLists-IsSorted scan next (models, tools) (m, t) = (
  subst (λ ops. OfKind TaskOperationKind.model ops) (sym models) m,
  subst (λ ops. OfKind TaskOperationKind.tool ops) (sym tools) t,
)

module _ (kind : TaskOperationKind) (id : Text) where
  -- The operations of the kind with the id that wait for a result.
  unfoldable pub pending : Scan → ℕ
  pending scan = operations_with kind id scan.models + operations_with kind id scan.tools

  unfoldable pub started_count : Option Started → ℕ
  started_count none = 0
  started_count (some started) = matches kind id started.kind started.call_id

  pub SameLists-pending : (scan next : Scan) → SameLists scan next → pending next ≡ pending scan
  unfolding pending
  SameLists-pending scan next (models, tools) =
      omega (arith, ap (operations_with kind id) models, ap (operations_with kind id) tools)

module _ (ExecutionError : Type 0) (kind : TaskOperationKind) (id : Text) where
  finish_operation-count :
      (operations left : List UnresolvedTaskOperation) (k : TaskOperationKind) (i turn : Text)
      → finish_operation {ExecutionError = ExecutionError} operations i turn ≡ ok left
      → OfKind k operations
      → (operations_with kind id left + matches kind id k i ≡ operations_with kind id operations)
        × OfKind k left
  unfolding finish_operation
  finish_operation-count operations left k i turn e all =
      elim (Option-cases (find_operation i operations)) [
        | inl missing ↦ absurd (ground arith)
        | inr (found, e') ↦
            let same : left ≡ without_operation i operations = ground arith in
            (
              ap (λ ops. operations_with kind id ops + matches kind id k i) same
                  ∙ without-count kind k id i operations found all e',
              subst (λ ops. OfKind k ops) (sym same) (without-OfKind k i operations all),
            )
      ]

module _ (ExecutionError : Type 0) where
  record_step-lists :
      (scan next : Scan) (step : Option Text)
      → record_step {ExecutionError = ExecutionError} scan step ≡ ok next
      → SameLists scan next
  unfolding record_step
  record_step-lists scan next none e = ground arith
  record_step-lists scan next (some step) e = ground arith

  module _ {Value : Type 0} where
    pub check_address-lists :
        (identity : Identity) (index : ℕ) (scan next : Scan) (event : SessionEvent Value)
        → check_address {ExecutionError = ExecutionError} identity index scan event ≡ ok next
        → SameLists scan next
    unfolding check_address
    check_address-lists identity index scan next event e = ground arith

    pub enter_turn-lists :
        (scan next : Scan) (event : SessionEvent Value)
        → enter_turn {ExecutionError = ExecutionError} scan event ≡ ok next
        → SameLists scan next
    unfolding enter_turn
    enter_turn-lists scan next event e = ground arith

    module _ (kind : TaskOperationKind) (id : Text) where
      pub follow-count :
          (identity : Identity) (scan next : Scan) (started : Option Started) (turn_id : Text)
          (k : SessionEventKind Value)
          → follow {ExecutionError = ExecutionError} identity scan turn_id k ≡ ok (next, started)
          → IsSorted scan
          → (pending kind id next + resolves kind id k ≡ pending kind id scan)
            × (started_count kind id started ≡ asks kind id k)
            × IsSorted next
      unfolding follow pending started_count asks resolves
      follow-count identity scan next started turn_id (SessionEventKind.model_result answer) e
            sorted =
          elim (Result-cases (
            finish_operation {ExecutionError = ExecutionError} scan.models answer.call_id
              turn_id)) [
                | inl (failure, refused) ↦ absurd (ground arith)
                | inr (left, finished) ↦ ground (
                  arith,
                  finish_operation-count ExecutionError kind id scan.models left
                      TaskOperationKind.model answer.call_id turn_id finished sorted.0,
                )
              ]
      follow-count identity scan next started turn_id (SessionEventKind.tool_result answer) e
            sorted =
          elim (Result-cases (
            finish_operation {ExecutionError = ExecutionError} scan.tools answer.call_id turn_id)) [
              | inl (failure, refused) ↦ absurd (ground arith)
              | inr (left, finished) ↦ ground (
                arith,
                finish_operation-count ExecutionError kind id scan.tools left TaskOperationKind.tool
                    answer.call_id turn_id finished sorted.1,
              )
            ]
      follow-count identity scan next started turn_id k e sorted =
          let same : SameLists scan next = ground arith in
          let counted : started_count kind id started ≡ asks kind id k = ground arith in
          (
            omega (arith, SameLists-pending kind id scan next same),
            counted,
            SameLists-IsSorted scan next same sorted,
          )

      start_operation-count :
          (scan next : Scan) (event : SessionEvent Value) (k : TaskOperationKind)
          (started : Started)
          → start_operation {ExecutionError = ExecutionError} scan event k started ≡ ok next
          → started.kind ≡ k
          → IsSorted scan
          → (pending kind id next
              ≡ pending kind id scan + matches kind id started.kind started.call_id)
            × IsSorted next
      unfolding start_operation pending operations_with operation_of
      start_operation-count scan next event TaskOperationKind.model started e of_kind sorted =
          let seen = record scan { models_seen = with_member started.call_id scan.models_seen } in
          let operation = operation_of started event in
          elim (Result-cases (record_step {ExecutionError = ExecutionError} seen started.step_id)) [
            | inl (failure, refused) ↦ absurd (ground arith)
            | inr (stepped, recorded) ↦
                let (models, tools) = record_step-lists seen stepped started.step_id recorded in
                let grown : next.models ≡ scan.models ++ operation ∷ [] = ground arith in
                let kept : next.tools ≡ scan.tools = ground arith in
                (
                  omega (
                    arith,
                    ap (operations_with kind id) grown,
                    ap (operations_with kind id) kept,
                    operations_with-append kind id scan.models (operation ∷ []),
                  ),
                  (
                    subst (λ ops. OfKind TaskOperationKind.model ops) (sym grown)
                        (append-OfKind TaskOperationKind.model scan.models operation sorted.0
                          of_kind),
                    subst (λ ops. OfKind TaskOperationKind.tool ops) (sym kept) sorted.1,
                  ),
                )
          ]
      start_operation-count scan next event TaskOperationKind.tool started e of_kind sorted =
          let seen = record scan { tools_seen = with_member started.call_id scan.tools_seen } in
          let operation = operation_of started event in
          elim (Result-cases (record_step {ExecutionError = ExecutionError} seen started.step_id)) [
            | inl (failure, refused) ↦ absurd (ground arith)
            | inr (stepped, recorded) ↦
                let (models, tools) = record_step-lists seen stepped started.step_id recorded in
                let grown : next.tools ≡ scan.tools ++ operation ∷ [] = ground arith in
                let kept : next.models ≡ scan.models = ground arith in
                (
                  omega (
                    arith,
                    ap (operations_with kind id) grown,
                    ap (operations_with kind id) kept,
                    operations_with-append kind id scan.tools (operation ∷ []),
                  ),
                  (
                    subst (λ ops. OfKind TaskOperationKind.model ops) (sym kept) sorted.0,
                    subst (λ ops. OfKind TaskOperationKind.tool ops) (sym grown)
                        (append-OfKind TaskOperationKind.tool scan.tools operation sorted.1
                          of_kind),
                  ),
                )
          ]

      pub start_pending-count :
          (scan next : Scan) (started : Option Started) (event : SessionEvent Value)
          → start_pending {ExecutionError = ExecutionError} event (scan, started) ≡ ok next
          → IsSorted scan
          → (pending kind id next ≡ pending kind id scan + started_count kind id started)
            × IsSorted next
      unfolding start_pending started_count
      start_pending-count scan next none event e sorted =
          let same : scan ≡ next = ground arith in
          (omega (arith, ap (pending kind id) same), subst (λ s. IsSorted s) same sorted)
      start_pending-count scan next (some started) event e sorted =
          start_operation-count scan next event started.kind started e refl sorted
