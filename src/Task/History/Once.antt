-- ===== src/Task/History/Once.antt =====
-- crates/task/state/src/history.rs: no call of an assessed history is requested twice.
use jingwei.Base.{ℕ, suc, ◌+◌, ◌≤◌, ◌≡◌, refl, ap, List, [], ◌∷◌, arith, inl, inr}
use jingwei.Base.Result.{ok, Result-cases}
use jingwei.Base.Sets.{contains}
use jingwei.Base.Text.{Text}
use jingwei.Budget.Vocabulary.{Identity}
use jingwei.Core.Event.{SessionEvent}
use jingwei.Task.Vocabulary.{TaskOperationKind, TaskHistoryAssessment}
use jingwei.Task.History.{Scan, empty_scan}
use jingwei.Task.History.Scanning.{
  check_address, enter_turn, follow, scan_event, scan_events, assess_task_history,
}
use jingwei.Task.History.Operations.{asks, total}
use jingwei.Task.History.Seen.{
  seen_calls, seen, SameSeen-seen, check_address-seen, enter_turn-seen, follow-seen,
  start_pending-seen,
}

none_seen : (k : TaskOperationKind) (id : Text) → seen k id empty_scan ≡ 0
unfolding seen_calls empty_scan contains
none_seen TaskOperationKind.model id = refl
none_seen TaskOperationKind.tool id = refl

module _ (ExecutionError : Type 0) {Value : Type 0} (kind : TaskOperationKind) (id : Text) where
  scan_event-seen :
      (identity : Identity) (index : ℕ) (scan next : Scan) (event : SessionEvent Value)
      → scan_event {ExecutionError = ExecutionError} identity index scan event ≡ ok next
      → seen kind id next ≡ seen kind id scan + asks kind id event.kind
  unfolding scan_event
  scan_event-seen identity index scan next event e =
      elim (Result-cases
        (check_address {ExecutionError = ExecutionError} identity index scan event)) [
          | inl (failure, refused) ↦ absurd (ground arith)
          | inr (placed, address) ↦
              elim (Result-cases (enter_turn {ExecutionError = ExecutionError} placed event)) [
                | inl (failure, refused) ↦ absurd (ground arith)
                | inr (entered, turn) ↦
                    elim (Result-cases (
                      follow {ExecutionError = ExecutionError} identity entered event.turn_id
                        event.kind)) [
                          | inl (failure, refused) ↦ absurd (ground arith)
                          | inr ((followed, started), kind_of) ↦
                              let (same, asked) =
                                follow-seen ExecutionError kind id identity entered followed started
                                  event.turn_id event.kind kind_of in
                              omega (
                                arith,
                                asked,
                                SameSeen-seen kind id scan placed (
                                    check_address-seen ExecutionError identity index scan placed
                                      event address),
                                SameSeen-seen kind id placed entered
                                    (enter_turn-seen ExecutionError placed entered event turn),
                                SameSeen-seen kind id entered followed same,
                                start_pending-seen ExecutionError kind id followed next started
                                    event (ground arith),
                              )
                        ]
              ]
        ]

  scan_events-seen :
      (identity : Identity) (index : ℕ) (scan last : Scan) (events : List (SessionEvent Value))
      → scan_events {ExecutionError = ExecutionError} identity index scan events ≡ ok last
      → seen kind id last ≡ seen kind id scan + total kind id (asks kind id) events
  unfolding scan_events total
  scan_events-seen identity index scan last [] e =
      let same : scan ≡ last = ground arith in omega (arith, ap (seen kind id) same)
  scan_events-seen identity index scan last (event ∷ events) e =
      elim (Result-cases (scan_event {ExecutionError = ExecutionError} identity index scan event)) [
        | inl (failure, refused) ↦ absurd (ground arith)
        | inr (next, scanned) ↦ omega (
          arith,
          scan_event-seen identity index scan next event scanned,
          scan_events-seen identity (suc index) next last events (ground arith),
        )
      ]

  -- In a history that is assessed there is at most one request for each kind and id of calls.
  pub assess_task_history-asks_once :
      (identity : Identity) (history : List (SessionEvent Value))
      (assessment : TaskHistoryAssessment)
      → assess_task_history {ExecutionError = ExecutionError} identity history ≡ ok assessment
      → total kind id (asks kind id) history ≤ 1
  unfolding assess_task_history
  assess_task_history-asks_once identity history assessment e =
      elim (Result-cases
        (scan_events {ExecutionError = ExecutionError} identity 0 empty_scan history)) [
          | inl (failure, refused) ↦ absurd (ground arith)
          | inr (last, scanned) ↦ ground (
            arith,
            none_seen kind id,
            scan_events-seen identity 0 empty_scan last history scanned,
          )
        ]
