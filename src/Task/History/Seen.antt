-- ===== src/Task/History/Seen.antt =====
-- crates/task/state/src/history.rs: no call is requested twice.
use jingwei.Base.{ℕ, ◌+◌, ◌≡◌, ap, false, Option, none, some, List, arith, inl, inr}
use jingwei.Base.Result.{ok, Result-cases}
use jingwei.Base.Sets.{contains, with_member, contains-with_member}
use jingwei.Base.Text.{Text, text_eq, text_eq→≡, text_eq_refl}
use jingwei.Budget.Vocabulary.{Identity}
use jingwei.Core.Event.{SessionEvent, SessionEventKind}
use jingwei.Task.Vocabulary.{TaskOperationKind}
use jingwei.Task.History.{Scan, Started}
use jingwei.Task.History.Scanning.{
  record_step, check_address, enter_turn, follow, start_operation, start_pending,
}
use jingwei.Task.History.Operations.{one_if, same_kind, matches, asks}
use jingwei.Task.History.Counting.{started_count}

-- The calls that another scan has seen.
abbrev pub SameSeen : Scan → Scan → Type 0
SameSeen scan next = (next.models_seen ≡ scan.models_seen) × (next.tools_seen ≡ scan.tools_seen)

unfoldable pub seen_calls : TaskOperationKind → Scan → List Text
seen_calls TaskOperationKind.model scan = scan.models_seen
seen_calls TaskOperationKind.tool scan = scan.tools_seen

-- Whether a call of the kind with the id has been seen.
abbrev pub seen : TaskOperationKind → Text → Scan → ℕ
seen kind id scan = one_if (contains id (seen_calls kind scan))

pub SameSeen-seen :
    (kind : TaskOperationKind) (id : Text) (scan next : Scan)
    → SameSeen scan next
    → seen kind id next ≡ seen kind id scan
unfolding seen_calls
SameSeen-seen TaskOperationKind.model id scan next (models, tools) =
    ap (λ s. one_if (contains id s)) models
SameSeen-seen TaskOperationKind.tool id scan next (models, tools) =
    ap (λ s. one_if (contains id s)) tools

-- A new member is counted once more.
one_if-with_member :
    (new id : Text) (members : List Text)
    → contains new members ≡ false
    → one_if (contains id (with_member new members))
      ≡ one_if (contains id members) + one_if (text_eq new id)
one_if-with_member new id members fresh = ground (
  arith,
  contains-with_member new id members,
  text_eq→≡ new id,
  text_eq→≡ id new,
  text_eq_refl new,
)

module _ (ExecutionError : Type 0) where
  record_step-seen :
      (scan next : Scan) (step : Option Text)
      → record_step {ExecutionError = ExecutionError} scan step ≡ ok next
      → SameSeen scan next
  unfolding record_step
  record_step-seen scan next none e = ground arith
  record_step-seen scan next (some step) e = ground arith

  module _ {Value : Type 0} where
    pub check_address-seen :
        (identity : Identity) (index : ℕ) (scan next : Scan) (event : SessionEvent Value)
        → check_address {ExecutionError = ExecutionError} identity index scan event ≡ ok next
        → SameSeen scan next
    unfolding check_address
    check_address-seen identity index scan next event e = ground arith

    pub enter_turn-seen :
        (scan next : Scan) (event : SessionEvent Value)
        → enter_turn {ExecutionError = ExecutionError} scan event ≡ ok next
        → SameSeen scan next
    unfolding enter_turn
    enter_turn-seen scan next event e = ground arith

    module _ (kind : TaskOperationKind) (id : Text) where
      pub follow-seen :
          (identity : Identity) (scan next : Scan) (started : Option Started) (turn_id : Text)
          (k : SessionEventKind Value)
          → follow {ExecutionError = ExecutionError} identity scan turn_id k ≡ ok (next, started)
          → SameSeen scan next × (started_count kind id started ≡ asks kind id k)
      unfolding follow started_count asks
      follow-seen identity scan next started turn_id k e = ground arith

      start_operation-seen :
          (scan next : Scan) (event : SessionEvent Value) (k : TaskOperationKind)
          (started : Started)
          → start_operation {ExecutionError = ExecutionError} scan event k started ≡ ok next
          → seen kind id next ≡ seen kind id scan + matches kind id k started.call_id
      unfolding start_operation seen_calls same_kind
      start_operation-seen scan next event TaskOperationKind.model started e =
          let with_it = record scan {
            models_seen = with_member started.call_id scan.models_seen;
          } in
          elim (Result-cases
            (record_step {ExecutionError = ExecutionError} with_it started.step_id)) [
              | inl (failure, refused) ↦ absurd (ground arith)
              | inr (stepped, recorded) ↦
                  let same =
                    SameSeen-seen kind id with_it stepped
                      (record_step-seen with_it stepped started.step_id recorded) in
                  let kept : SameSeen stepped next = ground arith in
                  let fresh : contains started.call_id scan.models_seen ≡ false = ground arith in
                  ground (
                    arith,
                    same,
                    SameSeen-seen kind id stepped next kept,
                    one_if-with_member started.call_id id scan.models_seen fresh,
                  )
            ]
      start_operation-seen scan next event TaskOperationKind.tool started e =
          let with_it = record scan { tools_seen = with_member started.call_id scan.tools_seen } in
          elim (Result-cases
            (record_step {ExecutionError = ExecutionError} with_it started.step_id)) [
              | inl (failure, refused) ↦ absurd (ground arith)
              | inr (stepped, recorded) ↦
                  let same =
                    SameSeen-seen kind id with_it stepped
                      (record_step-seen with_it stepped started.step_id recorded) in
                  let kept : SameSeen stepped next = ground arith in
                  let fresh : contains started.call_id scan.tools_seen ≡ false = ground arith in
                  ground (
                    arith,
                    same,
                    SameSeen-seen kind id stepped next kept,
                    one_if-with_member started.call_id id scan.tools_seen fresh,
                  )
            ]

      pub start_pending-seen :
          (scan next : Scan) (started : Option Started) (event : SessionEvent Value)
          → start_pending {ExecutionError = ExecutionError} event (scan, started) ≡ ok next
          → seen kind id next ≡ seen kind id scan + started_count kind id started
      unfolding start_pending started_count
      start_pending-seen scan next none event e =
          let same : scan ≡ next = ground arith in omega (arith, ap (seen kind id) same)
      start_pending-seen scan next (some started) event e =
          start_operation-seen scan next event started.kind started e
