-- ===== src/Budget/Invariant/Reserve.antt =====
-- `reserve`: the checks of the first loop are what the additions of the second one need.
use jingwei.Base.{ℕ, ◌+◌, ◌≤◌, ◌<◌, ◌≡◌, refl, true, some, List, [], ◌∷◌, arith, All, ◌↔◌}
use jingwei.Base.Word.{u64_mod}
use jingwei.Budget.Amounts.{Resource, Amounts, get}
use jingwei.Budget.Vocabulary.{StopReason}
use jingwei.Budget.Ledger.{Inner, RunState, State}
use jingwei.Budget.Ledger.Requests.{fits}
use jingwei.Budget.Ledger.Reserve.{check_task, check_share, check_each}
use jingwei.Budget.Invariant.{Inv}
use jingwei.Budget.Invariant.Ensures.{Ensures, then-Ensures, weaken-Ensures}
use jingwei.Budget.Invariant.Stops.{Inv-stop}
use jingwei.Budget.Invariant.Scope.{Inv-run_stop}

-- `fits` is the inequality over the naturals, for a limit that is a word.
pub fits_iff :
    (charged reserved requested limit : ℕ)
    → limit < u64_mod
    → (fits charged reserved requested limit ≡ true) ↔ (charged + reserved + requested ≤ limit)
unfolding fits
fits_iff charged reserved requested limit w = (λ h. ground arith, λ h. ground arith)

-- The amounts fit for the resource `r`, in the task and in the run.
pub record Fits (inner : Inner) (s : State) (run : RunState) (amounts : Amounts) (r : Resource)
    : Type 0 where
  pub fits_task : get s.charged r + get s.reserved r + get amounts r ≤ get inner.limits.resources r
  pub fits_run :
      get run.report.charged r + get run.report.reserved r + get amounts r
      ≤ get run.report.limits.resources r

check_task-Ensures :
    (inner : Inner) (s : State) (r : Resource) (amount : ℕ)
    → Inv inner s
    → Ensures
        (Inv inner)
        (λ _ t.
          (t ≡ s) × (get s.charged r + get s.reserved r + amount ≤ get inner.limits.resources r))
        (check_task inner r amount s)
unfolding check_task
check_task-Ensures inner s r amount h =
    let limit = get inner.limits.resources r in
    ground
      (arith, h.limits_word r, Inv-stop inner s (some (StopReason.resource_limit r)) (λ x. cc) h)

check_share-Ensures :
    (inner : Inner) (s : State) (run : RunState) (r : Resource) (amount : ℕ)
    → Inv inner s
    → s.run ≡ some run
    → Ensures
        (Inv inner)
        (λ _ t.
          (t ≡ s)
          × (get run.report.charged r + get run.report.reserved r + amount
              ≤ get run.report.limits.resources r))
        (check_share r amount s)
unfolding check_share
check_share-Ensures inner s run r amount h e =
    ground (arith, Inv-run_stop inner s run (StopReason.resource_limit r) h e)

-- The first loop ends with every resource checked and nothing written, or with a stop.
pub check_each-Fits :
    (inner : Inner) (s : State) (run : RunState) (amounts : Amounts) (rs : List Resource)
    → Inv inner s
    → s.run ≡ some run
    → Ensures
        (Inv inner)
        (λ _ t. (t ≡ s) × All (Fits inner s run amounts) rs)
        (check_each inner amounts rs s)
unfolding check_each
check_each-Fits inner s run amounts [] h e = (refl, tt)
check_each-Fits inner s run amounts (r ∷ rs) h e =
    let rest = check_each-Fits inner s run amounts rs h e in
    then-Ensures (Inv inner) _ _ (check_task inner r (get amounts r) s) _
      (check_task-Ensures inner s r (get amounts r) h)
      λ _ t task. rw task.0 (
        then-Ensures (Inv inner) _ _ (check_share r (get amounts r) s) _
          (check_share-Ensures inner s run r (get amounts r) h e)
          λ _ u share. rw share.0 (
            weaken-Ensures (Inv inner) (Inv inner) _ _ (check_each inner amounts rs s) rest
              (λ _ k. k)
              (λ _ v done. (done.0, (record { fits_task = task.1; fits_run = share.1 }, done.1)))))
