-- ===== src/Budget/Invariant/Runs.antt =====
-- The methods of `BudgetRun` keep the invariant and do not panic.
use jingwei.Base.{
  ℕ, ◌+◌, ◌<◌, ◌≡◌, refl, Option, none, some, List, [], ◌∷◌, true, false, is_empty, arith, inl, inr,
  Option-cases,
}
use jingwei.Base.Text.{Text}
use jingwei.Base.Word.{u64_mod}
use jingwei.Budget.Amounts.{Resource, Limits, get, no_amounts, tightened_by}
use jingwei.Budget.Amounts.Laws.{IsWithin, tightened_by-IsWithin}
use jingwei.Budget.Vocabulary.{StopReason, Pending}
use jingwei.Budget.Ledger.{Inner, RunState, State, RunHandle}
use jingwei.Budget.Ledger.Clock.{tick}
use jingwei.Budget.Ledger.Runs.{
  new_run_report, begin_run, bind_turn, prepare_report, finish, abandon_run, drop_run,
}
use jingwei.Budget.Invariant.{held, pending_sum, Inv}
use jingwei.Budget.Invariant.Ensures.{Ensures}
use jingwei.Budget.Invariant.Clock.{tick-Inv, Inv-insert}
use jingwei.Budget.Invariant.Reports.{
  Inv-report, marked, check_run-total, check_writable-total, check_stop-total, allocate_id_cases,
  TaskInv-next,
}

pub IsWithin-refl : (l : Limits) → IsWithin l l
IsWithin-refl l = record { within_resource = λ r. omega arith; within_time = omega arith }

abbrev new_run : ℕ → Option Text → Limits → RunState
new_run id turn_id limits = record {
  id = id;
  report = new_run_report turn_id limits;
  cleaning = false;
}

pub get-no_amounts : (r : Resource) → get no_amounts r ≡ 0
unfolding get
get-no_amounts Resource.steps = refl
get-no_amounts r = refl

held_idle : (r : Resource) (ps : List Pending) → ps ≡ [] → (held r ps ≡ 0) × (pending_sum r ps ≡ 0)
held_idle r ps e = rw e (ground arith, refl)

-- A run that begins where nothing is pending has clean accounts.
Inv-new_run :
    (inner : Inner) (s : State) (turn_id : Option Text) (limits : Limits)
    → Inv inner s
    → s.run ≡ none
    → s.next_id + 1 < u64_mod
    → Inv inner (record s {
      next_id = s.next_id + 1;
      run = some (new_run (s.next_id + 1) turn_id (tightened_by inner.limits limits));
    })
Inv-new_run inner s turn_id limits h e word = record {
  limits_word = h.limits_word;
  task =
      TaskInv-next inner.limits s.charged s.reserved s.active_time s.stop s.pending s.next_id
        (s.next_id + 1) (omega arith) word h.task;
  run_part = record {
    run_reserved = λ r.
        omega (arith, h.task.reserved_exact r, (held_idle r s.pending idle).0, get-no_amounts r);
    run_charged = λ r. omega (arith, get-no_amounts r);
    run_attempts = λ r a. omega (arith, (held_idle r s.pending idle).1);
    run_limits =
        ((tightened_by-IsWithin (tightened_by inner.limits limits) inner.limits limits).0
          (IsWithin-refl (tightened_by inner.limits limits))).0;
    run_within = λ x y r.
        omega (arith, h.task.reserved_exact r, (held_idle r s.pending idle).0, get-no_amounts r);
    run_time = λ x y. omega arith;
    run_active = omega arith;
    run_cleanup = omega arith;
    run_id_below = omega arith;
  };
  evidence = h.evidence;
}
  where
    idle : s.pending ≡ []
    idle = rw e at h.run_part

pub begin_run-Inv :
    (inner : Inner) (turn_id : Option Text) (limits : Limits) (now later : ℕ) (s : State)
    → Inv inner s
    → Ensures (Inv inner) (λ _. Inv inner) (begin_run inner turn_id limits now later s)
unfolding begin_run
begin_run-Inv inner turn_id limits now later s h =
    let t = tick inner now s in
    let ht = tick-Inv inner now s h in
    elim (Option-cases t.run) [
      | inr (run, e) ↦ ground (arith, check_writable-total s)
      | inl e ↦ elim (allocate_id_cases t) [
        | inl (word, a) ↦ ground (
          arith,
          check_writable-total s,
          check_stop-total t,
          tick-Inv inner later
              (record t {
                next_id = t.next_id + 1;
                run = some (new_run (t.next_id + 1) turn_id (tightened_by inner.limits limits));
              })
              (Inv-new_run inner t turn_id limits ht e word),
        )
        | inr a ↦ ground (
          arith,
          check_writable-total s,
          check_stop-total t,
          Inv-insert inner t StopReason.accounting_overflow ht,
        )
      ]
    ]

pub bind_turn-Inv :
    (inner : Inner) (handle : RunHandle) (turn : Text) (now : ℕ) (s : State)
    → Inv inner s
    → Ensures (Inv inner) (λ _. Inv inner) (bind_turn inner handle turn now s)
unfolding bind_turn
bind_turn-Inv inner handle turn now s h =
    let t = tick inner now s in
    let ht = tick-Inv inner now s h in
    elim (Option-cases t.run) [
      | inl e ↦ ground (arith, check_run-total handle.id t)
      | inr (run, e) ↦ ground (
        arith,
        check_run-total handle.id t,
        Inv-report inner t run (marked run (record run.report { turn_id = some turn })) ht e,
      )
    ]

-- Closing the run's report.
Inv-close :
    (inner : Inner) (s : State) (run : RunState)
    → Inv inner s
    → s.run ≡ some run
    → Inv inner (record s { run = some (marked run (record run.report { is_open = false })) })
Inv-close inner s run h e =
    Inv-report inner s run (marked run (record run.report { is_open = false })) h e (ground arith)
      refl

pub prepare_report-Inv :
    (inner : Inner) (handle : RunHandle) (now : ℕ) (s : State)
    → Inv inner s
    → Ensures (Inv inner) (λ _. Inv inner) (prepare_report inner handle now s)
unfolding prepare_report
prepare_report-Inv inner handle now s h =
    let t = tick inner now s in
    let ht = tick-Inv inner now s h in
    elim (Option-cases t.run) [
      | inl e ↦ ground (arith, check_run-total handle.id t)
      | inr (run, e) ↦ ground (arith, check_run-total handle.id t, Inv-close inner t run ht e)
    ]

-- A ledger with nothing pending needs no run.
Inv-no_run :
    (inner : Inner) (s : State) → Inv inner s → s.pending ≡ [] → Inv inner (record s { run = none })
Inv-no_run inner s h idle = record {
  limits_word = h.limits_word;
  task = h.task;
  run_part = idle;
  evidence = h.evidence;
}

is_empty-eq : (ps : List Pending) → is_empty ps ≡ true → ps ≡ []
is_empty-eq [] e = refl
is_empty-eq (p ∷ ps) e = cc

pub finish-Inv :
    (inner : Inner) (handle : RunHandle) (now : ℕ) (s : State)
    → Inv inner s
    → Ensures (Inv inner) (λ _. Inv inner) (finish inner handle now s)
unfolding finish
finish-Inv inner handle now s h =
    let t = tick inner now s in
    let ht = tick-Inv inner now s h in
    elim (Option-cases t.run) [
      | inl e ↦ ground (arith, check_writable-total s)
      | inr (run, e) ↦
          ground (arith, check_writable-total s, Inv-no_run inner t ht, is_empty-eq t.pending)
    ]

abandon_run-Inv : (inner : Inner) (id : ℕ) (s : State) → Inv inner s → Inv inner (abandon_run id s)
unfolding abandon_run
abandon_run-Inv inner id s h = elim (Option-cases s.run) [
  | inl e ↦ rw (e, abandon_run) h
  | inr (run, e) ↦
      let s' : State = record s {
        run = some (marked run (record run.report { is_open = false }));
      } in
      ground (arith, Inv-insert inner s' StopReason.run_abandoned (Inv-close inner s run h e))
]

pub drop_run-Inv :
    (inner : Inner) (handle : RunHandle) (now : ℕ) (s : State)
    → Inv inner s
    → Inv inner (drop_run inner handle now s)
unfolding drop_run
drop_run-Inv inner handle now s h =
    let ht = abandon_run-Inv inner handle.id (tick inner now s) (tick-Inv inner now s h) in
    ground arith
