-- ===== src/Task/History/Unresolved.antt =====
-- crates/task/state/src/history.rs: requests, results and what is unresolved add up.
use jingwei.Base.{ℕ, suc, ◌+◌, ◌≡◌, ap, List, [], ◌∷◌, ◌++◌, arith, inl, inr}
use jingwei.Base.Result.{ok, Result-cases}
use jingwei.Base.Text.{Text}
use jingwei.Budget.Vocabulary.{Identity}
use jingwei.Core.Event.{SessionEvent}
use jingwei.Task.Vocabulary.{TaskOperationKind, TaskHistoryAssessment}
use jingwei.Task.History.{Scan, empty_scan, sort_operations, assessment_of}
use jingwei.Task.History.Scanning.{
  check_address, enter_turn, follow, scan_event, scan_events, assess_task_history,
}
use jingwei.Task.History.Operations.{
  operations_with, operations_with-append, operations_with-sort, asks, resolves, total,
}
use jingwei.Task.History.Counting.{
  IsSorted, SameLists-IsSorted, pending, SameLists-pending, check_address-lists, enter_turn-lists,
  follow-count, start_pending-count,
}

module _ (ExecutionError : Type 0) {Value : Type 0} (kind : TaskOperationKind) (id : Text) where
  scan_event-count :
      (identity : Identity) (index : ℕ) (scan next : Scan) (event : SessionEvent Value)
      → scan_event {ExecutionError = ExecutionError} identity index scan event ≡ ok next
      → IsSorted scan
      → (pending kind id next + resolves kind id event.kind
          ≡ pending kind id scan + asks kind id event.kind)
        × IsSorted next
  unfolding scan_event
  scan_event-count identity index scan next event e sorted =
      elim (Result-cases
        (check_address {ExecutionError = ExecutionError} identity index scan event)) [
          | inl (failure, refused) ↦ absurd (ground arith)
          | inr (placed, address) ↦
              elim (Result-cases (enter_turn {ExecutionError = ExecutionError} placed event)) [
                | inl (failure, refused) ↦ absurd (ground arith)
                | inr (entered, turn) ↦
                    elim (Result-cases (
                      follow {ExecutionError = ExecutionError} identity entered event.turn_id
                        event.kind)) [
                          | inl (failure, refused) ↦ absurd (ground arith)
                          | inr ((followed, started), kind_of) ↦
                              let first =
                                check_address-lists ExecutionError identity index scan placed event
                                  address in
                              let second =
                                enter_turn-lists ExecutionError placed entered event turn in
                              let in_order =
                                SameLists-IsSorted placed entered second
                                  (SameLists-IsSorted scan placed first sorted) in
                              let (counted, asked, follows) =
                                follow-count ExecutionError kind id identity entered followed
                                  started event.turn_id event.kind kind_of in_order in
                              let (grown, last) =
                                start_pending-count ExecutionError kind id followed next started
                                  event (ground arith) follows in
                              (
                                omega (
                                  arith,
                                  counted,
                                  asked,
                                  grown,
                                  SameLists-pending kind id scan placed first,
                                  SameLists-pending kind id placed entered second,
                                ),
                                last,
                              )
                        ]
              ]
        ]

  scan_events-count :
      (identity : Identity) (index : ℕ) (scan last : Scan) (events : List (SessionEvent Value))
      → scan_events {ExecutionError = ExecutionError} identity index scan events ≡ ok last
      → IsSorted scan
      → pending kind id last + total kind id (resolves kind id) events
        ≡ pending kind id scan + total kind id (asks kind id) events
  unfolding scan_events total
  scan_events-count identity index scan last [] e sorted =
      let same : scan ≡ last = ground arith in omega (arith, ap (pending kind id) same)
  scan_events-count identity index scan last (event ∷ events) e sorted =
      elim (Result-cases (scan_event {ExecutionError = ExecutionError} identity index scan event)) [
        | inl (failure, refused) ↦ absurd (ground arith)
        | inr (next, scanned) ↦
            let (once, in_order) = scan_event-count identity index scan next event scanned sorted in
            omega (
              arith,
              once,
              scan_events-count identity (suc index) next last events (ground arith) in_order,
            )
      ]

  -- In a history that is assessed, for each kind and id of calls, the requests are as many as the
  -- results and the unresolved operations together.
  pub assess_task_history-counts :
      (identity : Identity) (history : List (SessionEvent Value))
      (assessment : TaskHistoryAssessment)
      → assess_task_history {ExecutionError = ExecutionError} identity history ≡ ok assessment
      → total kind id (asks kind id) history
        ≡ total kind id (resolves kind id) history + operations_with kind id assessment.unresolved
  unfolding assess_task_history assessment_of pending empty_scan operations_with
  assess_task_history-counts identity history assessment e =
      elim (Result-cases
        (scan_events {ExecutionError = ExecutionError} identity 0 empty_scan history)) [
          | inl (failure, refused) ↦ absurd (ground arith)
          | inr (last, scanned) ↦
              let whole : assessment.unresolved ≡ sort_operations (last.models ++ last.tools) =
                ground arith in
              omega (
                arith,
                scan_events-count identity 0 empty_scan last history scanned (tt, tt),
                ap (operations_with kind id) whole,
                operations_with-sort kind id (last.models ++ last.tools),
                operations_with-append kind id last.models last.tools,
              )
        ]
