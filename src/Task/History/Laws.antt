-- ===== src/Task/History/Laws.antt =====
-- crates/task/state/src/history.rs: the histories that an assessment accepts.
use jingwei.Base.{
  ℕ, suc, ◌+◌, ◌<◌, ◌≡◌, ◌∙◌, false, Option, none, some, List, [], ◌∷◌, length, arith, inl, inr,
}
use jingwei.Base.Result.{ok, Result-cases}
use jingwei.Base.Sets.{contains, with_member, Distinct, Fresh, Fresh-with_member}
use jingwei.Base.Text.{Text, text_eq→≡}
use jingwei.Base.Word.{u64_mod}
use jingwei.Budget.Vocabulary.{Identity}
use jingwei.Core.Event.{SessionEvent, SessionEventKind}
use jingwei.Session.Log.{
  expected_seq, event_ids, IsPlaced, IsLog, validate_physical_log, validate_physical_log_iff,
}
use jingwei.Task.Vocabulary.{TaskOperationKind, TaskHistoryAssessment}
use jingwei.Task.History.{Scan, empty_scan, Started}
use jingwei.Task.History.Scanning.{
  record_step, check_address, enter_turn, follow, start_operation, start_pending, scan_event,
  scan_events, assess_task_history,
}

record_step-ids :
    (ExecutionError : Type 0) (scan next : Scan) (step : Option Text)
    → record_step {ExecutionError = ExecutionError} scan step ≡ ok next
    → next.event_ids ≡ scan.event_ids
unfolding record_step
record_step-ids ExecutionError scan next none e = ground arith
record_step-ids ExecutionError scan next (some step) e = ground arith

module _ {ExecutionError Value : Type 0} where
  -- What the check of an address has made sure of.
  check_address-ok :
      (identity : Identity) (index : ℕ) (scan next : Scan) (event : SessionEvent Value)
      → check_address {ExecutionError = ExecutionError} identity index scan event ≡ ok next
      → (event.session_id ≡ identity.session_id)
        × (event.seq ≡ index)
        × (contains event.event_id scan.event_ids ≡ false)
        × (next.event_ids ≡ with_member event.event_id scan.event_ids)
  unfolding check_address
  check_address-ok identity index scan next event e =
      ground (arith, text_eq→≡ event.session_id identity.session_id)

  enter_turn-ids :
      (scan next : Scan) (event : SessionEvent Value)
      → enter_turn {ExecutionError = ExecutionError} scan event ≡ ok next
      → next.event_ids ≡ scan.event_ids
  unfolding enter_turn
  enter_turn-ids scan next event e = ground arith

  follow-ids :
      (identity : Identity) (scan next : Scan) (started : Option Started) (turn_id : Text)
      (kind : SessionEventKind Value)
      → follow {ExecutionError = ExecutionError} identity scan turn_id kind ≡ ok (next, started)
      → next.event_ids ≡ scan.event_ids
  unfolding follow
  follow-ids identity scan next started turn_id kind e = ground arith

  start_operation-ids :
      (scan next : Scan) (event : SessionEvent Value) (kind : TaskOperationKind) (started : Started)
      → start_operation {ExecutionError = ExecutionError} scan event kind started ≡ ok next
      → next.event_ids ≡ scan.event_ids
  unfolding start_operation
  start_operation-ids scan next event TaskOperationKind.model started e =
      let seen = record scan { models_seen = with_member started.call_id scan.models_seen } in
      elim (Result-cases (record_step {ExecutionError = ExecutionError} seen started.step_id)) [
        | inl (failure, refused) ↦ ground arith
        | inr (stepped, recorded) ↦
            ground (arith, record_step-ids ExecutionError seen stepped started.step_id recorded)
      ]
  start_operation-ids scan next event TaskOperationKind.tool started e =
      let seen = record scan { tools_seen = with_member started.call_id scan.tools_seen } in
      elim (Result-cases (record_step {ExecutionError = ExecutionError} seen started.step_id)) [
        | inl (failure, refused) ↦ ground arith
        | inr (stepped, recorded) ↦
            ground (arith, record_step-ids ExecutionError seen stepped started.step_id recorded)
      ]

  start_pending-ids :
      (scan next : Scan) (started : Option Started) (event : SessionEvent Value)
      → start_pending {ExecutionError = ExecutionError} event (scan, started) ≡ ok next
      → next.event_ids ≡ scan.event_ids
  unfolding start_pending
  start_pending-ids scan next none event e = ground arith
  start_pending-ids scan next (some started) event e =
      start_operation-ids scan next event started.kind started e

  scan_event-ok :
      (identity : Identity) (index : ℕ) (scan next : Scan) (event : SessionEvent Value)
      → scan_event {ExecutionError = ExecutionError} identity index scan event ≡ ok next
      → (event.session_id ≡ identity.session_id)
        × (event.seq ≡ index)
        × (contains event.event_id scan.event_ids ≡ false)
        × (next.event_ids ≡ with_member event.event_id scan.event_ids)
  unfolding scan_event
  scan_event-ok identity index scan next event e =
      elim (Result-cases
        (check_address {ExecutionError = ExecutionError} identity index scan event)) [
          | inl (failure, refused) ↦ absurd (ground arith)
          | inr (placed, address) ↦
              elim (Result-cases (enter_turn {ExecutionError = ExecutionError} placed event)) [
                | inl (failure, refused) ↦ absurd (ground arith)
                | inr (entered, turn) ↦
                    elim (Result-cases (
                      follow {ExecutionError = ExecutionError} identity entered event.turn_id
                        event.kind)) [
                          | inl (failure, refused) ↦ absurd (ground arith)
                          | inr ((followed, started), kind) ↦
                              let (own, seq, fresh, ids) =
                                check_address-ok identity index scan placed event address in
                              let started_ids =
                                start_pending-ids followed next started event (ground arith) in
                              (
                                own,
                                seq,
                                fresh,
                                started_ids
                                    ∙ follow-ids identity entered followed started event.turn_id
                                        event.kind kind
                                    ∙ enter_turn-ids placed entered event turn
                                    ∙ ids,
                              )
                        ]
              ]
        ]

  scan_events-IsPlaced :
      (identity : Identity) (index : ℕ) (scan last : Scan) (events : List (SessionEvent Value))
      → scan_events {ExecutionError = ExecutionError} identity index scan events ≡ ok last
      → index + length events < u64_mod
      → IsPlaced identity.session_id index events
        × Distinct (event_ids events)
        × Fresh scan.event_ids (event_ids events)
  unfolding scan_events IsPlaced Distinct Fresh expected_seq
  scan_events-IsPlaced identity index scan last [] e small = (tt, tt, tt)
  scan_events-IsPlaced identity index scan last (event ∷ events) e small =
      elim (Result-cases (scan_event {ExecutionError = ExecutionError} identity index scan event)) [
        | inl (failure, refused) ↦ absurd (ground arith)
        | inr (next, scanned) ↦ ground (
          arith,
          scan_event-ok identity index scan next event scanned,
          scan_events-IsPlaced identity (suc index) next last events,
          Fresh-with_member event.event_id scan.event_ids (event_ids events),
        )
      ]

  -- A history that is assessed is a log that the check of physical logs accepts for the task's session.
  pub assess_task_history-IsLog :
      (identity : Identity) (history : List (SessionEvent Value))
      (assessment : TaskHistoryAssessment)
      → assess_task_history {ExecutionError = ExecutionError} identity history ≡ ok assessment
      → validate_physical_log identity.session_id history ≡ ok tt
  unfolding assess_task_history IsLog
  assess_task_history-IsLog identity history assessment e =
      elim (Result-cases
        (scan_events {ExecutionError = ExecutionError} identity 0 empty_scan history)) [
          | inl (failure, refused) ↦ absurd (ground arith)
          | inr (last, scanned) ↦
              let (placed, distinct, fresh) =
                scan_events-IsPlaced identity 0 empty_scan last history scanned (ground arith) in
              (validate_physical_log_iff identity.session_id history).1 (placed, distinct)
        ]
