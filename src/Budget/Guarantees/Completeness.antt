-- ===== src/Budget/Guarantees/Completeness.antt =====
-- `reserve` refuses only what does not fit: the converse of its checks.
use jingwei.Base.{ℕ, ◌+◌, ◌<◌, ◌≡◌, refl, false, some, List, [], ◌∷◌, arith}
use jingwei.Base.Word.{u64_mod}
use jingwei.Budget.Amounts.{Resource, all_resources, Amounts, get}
use jingwei.Budget.Vocabulary.{Request}
use jingwei.Budget.Ledger.{Inner, State, RunState}
use jingwei.Budget.Ledger.Action.{ok}
use jingwei.Budget.Ledger.Clock.{tick, check_run, check_stop, allocate_id}
use jingwei.Budget.Ledger.Requests.{validate_request}
use jingwei.Budget.Ledger.Reserve.{check_task, check_share, check_each, admit_new, reserve}
use jingwei.Budget.Invariant.{Inv, RunInv}
use jingwei.Budget.Invariant.Clock.{tick-Inv}
use jingwei.Budget.Invariant.Reserve.{Fits, fits_iff}
use jingwei.Budget.Invariant.Admit.{admit_lem}

-- The run's limits are words too.
run_word :
    (inner : Inner) (s : State) (run : RunState) (r : Resource)
    → Inv inner s
    → s.run ≡ some run
    → get run.report.limits.resources r < u64_mod
run_word inner s run r h e = omega (arith, h.limits_word r, part.run_limits.within_resource r)
  where
    part :
        RunInv inner.limits s.charged s.reserved s.active_time s.cleanup_time s.stop s.pending
          s.next_id run
    part = rw e at h.run_part

check_task-passes :
    (inner : Inner) (s : State) (run : RunState) (amounts : Amounts) (r : Resource)
    → Inv inner s
    → Fits inner s run amounts r
    → check_task inner r (get amounts r) s ≡ (ok tt, s)
unfolding check_task
check_task-passes inner s run amounts r h f =
    rw
      ((fits_iff (get s.charged r) (get s.reserved r) (get amounts r) (get inner.limits.resources r)
          (h.limits_word r)).1
        f.fits_task)
      refl

check_share-passes :
    (inner : Inner) (s : State) (run : RunState) (amounts : Amounts) (r : Resource)
    → Inv inner s
    → s.run ≡ some run
    → Fits inner s run amounts r
    → check_share r (get amounts r) s ≡ (ok tt, s)
unfolding check_share
check_share-passes inner s run amounts r h e f =
    rw
      (
        e,
        (fits_iff (get run.report.charged r) (get run.report.reserved r) (get amounts r)
              (get run.report.limits.resources r) (run_word inner s run r h e)).1
            f.fits_run,
      )
      refl

check_each-passes :
    (inner : Inner) (s : State) (run : RunState) (amounts : Amounts) (rs : List Resource)
    → Inv inner s
    → s.run ≡ some run
    → ((r : Resource) → Fits inner s run amounts r)
    → check_each inner amounts rs s ≡ (ok tt, s)
unfolding check_each
check_each-passes inner s run amounts [] h e f = refl
check_each-passes inner s run amounts (r ∷ rs) h e f =
    rw
      (
        check_task-passes inner s run amounts r h (f r),
        check_share-passes inner s run amounts r h e (f r),
      )
      (check_each-passes inner s run amounts rs h e f)

-- A reservation on a ledger in order is granted, under the next id, whenever after the tick the run
-- is open, nothing has stopped, the request is valid, each resource fits in the task and in the run,
-- and the ids are not used up.
pub reserve_complete :
    (inner : Inner) (run_id : ℕ) (request : Request) (now : ℕ) (s : State) (run : RunState)
    → Inv inner s
    → (tick inner now s).run ≡ some run
    → check_run run_id (tick inner now s) ≡ ok tt
    → check_stop (tick inner now s) ≡ ok tt
    → validate_request request inner.token_mode ≡ ok tt
    → ((r : Resource) → Fits inner (tick inner now s) run request.amounts r)
    → (tick inner now s).next_id + 1 < u64_mod
    → (reserve inner run_id request now s).0
      ≡ ok (record { run_id = run_id; id = (tick inner now s).next_id + 1; resolved = false })
unfolding reserve admit_new allocate_id
reserve_complete inner run_id request now s run h e active running valid fit word =
    let t = tick inner now s in
    rw
      (
        active,
        running,
        valid,
        check_each-passes inner t run request.amounts all_resources (tick-Inv inner now s h) e fit,
      )
      (ground (arith, admit_lem request t run e))
