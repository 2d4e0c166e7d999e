-- ===== src/Budget/Guarantees/Admission.antt =====
-- `reserve` is all or nothing: every resource moves by the requested amount, or no account does.
use jingwei.Base.{
  ℕ, ◌+◌, ◌≤◌, ◌≡◌, refl, false, some, List, [], ◌∷◌, arith, inl, inr, All, Option-cases,
  if◌then◌else◌,
}
use jingwei.Budget.Amounts.{Resource, all_resources, is_attempt, Amounts, get}
use jingwei.Budget.Vocabulary.{Request}
use jingwei.Budget.Ledger.{Inner, State, RunState, Reservation}
use jingwei.Budget.Ledger.Action.{Outcome, ok, err, panicked, then_outcome}
use jingwei.Budget.Ledger.Clock.{tick}
use jingwei.Budget.Ledger.Requests.{insert_pending}
use jingwei.Budget.Ledger.Reserve.{
  check_task, check_share, check_each, new_pending, admit_new, reserve,
}
use jingwei.Budget.Invariant.{Inv}
use jingwei.Budget.Invariant.Ensures.{Ensures, then-Ensures, weaken-Ensures}
use jingwei.Budget.Invariant.Clock.{tick-Inv}
use jingwei.Budget.Invariant.Reports.{check_run-total, check_stop-total, allocate_id_cases}
use jingwei.Budget.Invariant.Reserve.{Fits, check_each-Fits}
use jingwei.Budget.Invariant.Admit.{admit_lem, moves}
use jingwei.Budget.Invariant.Reservation.{All-resources, validate_request-total, check_run-ne-ok}
use jingwei.Budget.Guarantees.Frame.{SameBooks, tick-SameBooks}

-- One resource after an admission: moved in one account by the requested amount, within its limit.
pub record Moved (inner : Inner) (s v : State) (request : Request) (r : Resource) : Type 0 where
  pub charged_by :
      get v.charged r ≡ get s.charged r + (if is_attempt r then get request.amounts r else 0)
  pub reserved_by :
      get v.reserved r ≡ get s.reserved r + (if is_attempt r then 0 else get request.amounts r)
  pub in_limit : get v.charged r + get v.reserved r ≤ get inner.limits.resources r

-- What an admission leaves.
pub record Admitted (inner : Inner) (s v : State) (run_id : ℕ) (request : Request)
    (held : Reservation) : Type 0 where
  pub fresh : held ≡ record { run_id = run_id; id = s.next_id + 1; resolved = false }
  pub entered : v.pending ≡ insert_pending (new_pending (s.next_id + 1) request) s.pending
  pub moved : (r : Resource) → Moved inner s v request r

check_task-SameBooks :
    (inner : Inner) (r : Resource) (amount : ℕ) (s : State)
    → Ensures (SameBooks s) (λ _ t. t ≡ s) (check_task inner r amount s)
unfolding check_task
check_task-SameBooks inner r amount s = ground arith

check_share-SameBooks :
    (r : Resource) (amount : ℕ) (s : State)
    → Ensures (SameBooks s) (λ _ t. t ≡ s) (check_share r amount s)
unfolding check_share
check_share-SameBooks r amount s = ground arith

check_each-SameBooks :
    (inner : Inner) (amounts : Amounts) (rs : List Resource) (s : State)
    → Ensures (SameBooks s) (λ _ t. t ≡ s) (check_each inner amounts rs s)
unfolding check_each
check_each-SameBooks inner amounts [] s = refl
check_each-SameBooks inner amounts (r ∷ rs) s =
    let rest = check_each-SameBooks inner amounts rs s in
    then-Ensures (SameBooks s) _ _ (check_task inner r (get amounts r) s) _
      (check_task-SameBooks inner r (get amounts r) s)
      λ _ t same. rw same (
        then-Ensures (SameBooks s) _ _ (check_share r (get amounts r) s) _
          (check_share-SameBooks r (get amounts r) s) (λ _ u again. rw again rest))

-- The admission after the checks, from the state that they leave.
admit_new-Admitted :
    (inner : Inner) (s : State) (run : RunState) (run_id : ℕ) (request : Request)
    → Inv inner s
    → s.run ≡ some run
    → All (Fits inner s run request.amounts) all_resources
    → Ensures
        (SameBooks s)
        (λ held v. Admitted inner s v run_id request held)
        (admit_new run_id request s)
unfolding admit_new
admit_new-Admitted inner s run run_id request h e fits = elim (allocate_id_cases s) [
  | inr a ↦ rw a (ground arith)
  | inl (word, a) ↦
      rw (a, admit_lem request s run e)
        (record {
          fresh = refl;
          entered = refl;
          moved = λ r.
              let f = All-resources (Fits inner s run request.amounts) fits r in
              let m = moves inner s run request.amounts h e r f in
              record {
                charged_by = ground (arith, m);
                reserved_by = ground (arith, m);
                in_limit = ground (arith, m, f.fits_task);
              };
        })
]

SameBooks-refl : (s : State) → SameBooks s s
SameBooks-refl s = ground arith

SameBooks-trans : (s t u : State) → SameBooks s t → SameBooks t u → SameBooks s u
SameBooks-trans s t u a b = ground arith

Admitted-back :
    (inner : Inner) (s t v : State) (run_id : ℕ) (request : Request) (held : Reservation)
    → SameBooks s t
    → Admitted inner t v run_id request held
    → Admitted inner s v run_id request held
Admitted-back inner s t v run_id request held same a = record {
  fresh = rw (← same.same_next_id) a.fresh;
  entered = rw (← same.same_next_id, ← same.same_pending) a.entered;
  moved = λ r. record {
    charged_by = rw (← same.same_charged) (a.moved r).charged_by;
    reserved_by = rw (← same.same_reserved) (a.moved r).reserved_by;
    in_limit = (a.moved r).in_limit;
  };
}

reserve-tail :
    (inner : Inner) (run_id : ℕ) (request : Request) (t : State) (run : RunState)
    → Inv inner t
    → t.run ≡ some run
    → Ensures
        (SameBooks t)
        (λ held v. Admitted inner t v run_id request held)
        (then_outcome
          (check_each inner request.amounts all_resources t)
          (λ _. admit_new run_id request))
reserve-tail inner run_id request t run h e =
    then-both (check_each inner request.amounts all_resources t)
      (check_each-SameBooks inner request.amounts all_resources t)
      (check_each-Fits inner t run request.amounts all_resources h e)
  where
    then-both :
        (r : Outcome (Unit {0}) × State)
        → Ensures (SameBooks t) (λ _ u. u ≡ t) r
        → Ensures
            (Inv inner)
            (λ _ u. (u ≡ t) × All (Fits inner t run request.amounts) all_resources)
            r
        → Ensures
            (SameBooks t)
            (λ held v. Admitted inner t v run_id request held)
            (then_outcome r (λ _. admit_new run_id request))
    then-both (ok _, u) p q = rw p (admit_new-Admitted inner t run run_id request h e q.1)
    then-both (err x, u) p q = p
    then-both (panicked, u) p q = p

-- On a ledger in order `reserve` does not panic. A reservation that is granted moves every resource
-- by the requested amount, in the account that it belongs to and within the limit, and enters the
-- request under a fresh id; a refused one leaves charges, reservations, entries, ids and usage alone.
pub reserve_atomic :
    (inner : Inner) (run_id : ℕ) (request : Request) (now : ℕ) (s : State)
    → Inv inner s
    → Ensures
        (SameBooks s)
        (λ held v. Admitted inner s v run_id request held)
        (reserve inner run_id request now s)
unfolding reserve
reserve_atomic inner run_id request now s h =
    let t = tick inner now s in
    let same = tick-SameBooks inner now s in
    weaken-Ensures (SameBooks t) (SameBooks s) _ _ (reserve inner run_id request now s)
      (elim (Option-cases t.run) [
        | inl e ↦
            ground (arith, SameBooks-refl t, check_run-total run_id t, check_run-ne-ok run_id t e)
        | inr (run, e) ↦ ground (
          arith,
          SameBooks-refl t,
          check_run-total run_id t,
          check_stop-total t,
          validate_request-total request inner.token_mode,
          reserve-tail inner run_id request t run (tick-Inv inner now s h) e,
        )
      ])
      (λ u k. SameBooks-trans s t u same k)
      (λ held v k. Admitted-back inner s t v run_id request held same k)
