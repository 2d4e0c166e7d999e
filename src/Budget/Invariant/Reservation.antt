-- ===== src/Budget/Invariant/Reservation.antt =====
-- `reserve` as a whole keeps the invariant.
use jingwei.Base.{ℕ, ◌≡◌, ◌≢◌, none, some, arith, inl, inr, All, Option-cases}
use jingwei.Budget.Amounts.{Resource, all_resources}
use jingwei.Budget.Vocabulary.{StopReason, Request, TokenMode}
use jingwei.Budget.Ledger.{Inner, RunState, State}
use jingwei.Budget.Ledger.Action.{ok, panicked}
use jingwei.Budget.Ledger.Clock.{tick, check_run}
use jingwei.Budget.Ledger.Requests.{validate_request}
use jingwei.Budget.Ledger.Reserve.{check_each, admit_new, reserve}
use jingwei.Budget.Invariant.{Inv}
use jingwei.Budget.Invariant.Ensures.{Ensures, then-Ensures}
use jingwei.Budget.Invariant.Clock.{tick-Inv, Inv-insert}
use jingwei.Budget.Invariant.Reports.{check_run-total, check_stop-total, allocate_id_cases}
use jingwei.Budget.Invariant.Reserve.{Fits, check_each-Fits}
use jingwei.Budget.Invariant.Admit.{admit_lem, admitted-Inv}

pub All-resources : (P : Resource → Type 0) → All P all_resources → (r : Resource) → P r
All-resources P a Resource.steps = a.0
All-resources P a Resource.model_requests = a.1.0
All-resources P a Resource.tool_calls = a.1.1.0
All-resources P a Resource.corrections = a.1.1.1.0
All-resources P a Resource.input_tokens = a.1.1.1.1.0
All-resources P a Resource.output_tokens = a.1.1.1.1.1.0
All-resources P a Resource.tool_output_bytes = a.1.1.1.1.1.1.0

pub validate_request-total :
    (request : Request) (mode : TokenMode) → validate_request request mode ≢ panicked
unfolding validate_request
validate_request-total request mode = ground arith

admit_new-Inv :
    (inner : Inner) (s : State) (run : RunState) (run_id : ℕ) (request : Request)
    → Inv inner s
    → s.run ≡ some run
    → All (Fits inner s run request.amounts) all_resources
    → Ensures (Inv inner) (λ _. Inv inner) (admit_new run_id request s)
unfolding admit_new
admit_new-Inv inner s run run_id request h e fits = elim (allocate_id_cases s) [
  | inl (word, a) ↦
      rw (a, admit_lem request s run e)
        (admitted-Inv inner s run request h e (All-resources _ fits) word)
  | inr a ↦ rw a (Inv-insert inner s StopReason.accounting_overflow h)
]

pub check_run-ne-ok : (id : ℕ) (s : State) → s.run ≡ none → check_run id s ≢ ok tt
unfolding check_run
check_run-ne-ok id s e c = ground arith

-- A reservation, granted or refused, keeps the invariant.
pub reserve-Inv :
    (inner : Inner) (run_id : ℕ) (request : Request) (now : ℕ) (s : State)
    → Inv inner s
    → Ensures (Inv inner) (λ _. Inv inner) (reserve inner run_id request now s)
unfolding reserve
reserve-Inv inner run_id request now s h =
    let t = tick inner now s in
    let ht = tick-Inv inner now s h in
    elim (Option-cases t.run) [
      | inl e ↦ ground (arith, check_run-total run_id t, check_run-ne-ok run_id t e)
      | inr (run, e) ↦
          let tail =
            then-Ensures (Inv inner) _ (λ _. Inv inner)
              (check_each inner request.amounts all_resources t) (λ _. admit_new run_id request)
              (check_each-Fits inner t run request.amounts all_resources ht e)
              (λ _ u done. rw done.0 (admit_new-Inv inner t run run_id request ht e done.1)) in
          ground (
            arith,
            check_run-total run_id t,
            check_stop-total t,
            validate_request-total request inner.token_mode,
            tail,
          )
    ]
