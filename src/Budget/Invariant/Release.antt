-- ===== src/Budget/Invariant/Release.antt =====
-- Taking an entry out: the reserved amounts that it holds are given back, and none goes below zero.
use jingwei.Base.{ℕ, ◌+◌, ◌≡◌, refl, ◌⊎◌, true, false, some, arith, if◌then◌else◌}
use jingwei.Base.Word.{wrapping_sub, wrapping_sub_exact}
use jingwei.Budget.Amounts.{Resource, is_attempt, Amounts, get, set}
use jingwei.Budget.Vocabulary.{Pending, UsageReport}
use jingwei.Budget.Ledger.{Inner, RunState, State}
use jingwei.Budget.Ledger.Action.{ok}
use jingwei.Budget.Ledger.Requests.{find_pending, remove_pending}
use jingwei.Budget.Ledger.Reservations.{release}
use jingwei.Budget.Invariant.{pending_sum, RunInv, Inv}
use jingwei.Budget.Invariant.Entries.{pending_sum-remove}
use jingwei.Budget.Invariant.Reports.{marked}

abbrev pub minus_variables : Amounts → Amounts → Amounts
minus_variables a t = record t {
  input_tokens = wrapping_sub t.input_tokens a.input_tokens;
  output_tokens = wrapping_sub t.output_tokens a.output_tokens;
  tool_output_bytes = wrapping_sub t.tool_output_bytes a.tool_output_bytes;
}

get-minus_variables :
    (a t : Amounts) (r : Resource)
    → get (minus_variables a t) r
      ≡ (if is_attempt r then get t r else wrapping_sub (get t r) (get a r))
unfolding get
get-minus_variables a t Resource.steps = refl
get-minus_variables a t r = refl

-- The ledger after `release`.
abbrev pub released : Amounts → State → RunState → State
released a s run = record s {
  reserved = minus_variables a s.reserved;
  run = some (marked run (record run.report { reserved = minus_variables a run.report.reserved }));
}

pub release_lem :
    (a : Amounts) (s : State) (run : RunState)
    → s.run ≡ some run
    → release a s ≡ (ok tt, released a s run)
unfolding release get set
release_lem a s run e = λ i. release a (record s { run = e i })

-- The ledger with the entry settled at charges `charged` and `run_charged`.
abbrev pub settled : ℕ → Amounts → Amounts → Amounts → UsageReport → State → RunState → State
settled id a charged run_charged usage s run = record s {
  charged = charged;
  reserved = minus_variables a s.reserved;
  usage = usage;
  run = some (
      marked run (record run.report {
        charged = run_charged;
        reserved = minus_variables a run.report.reserved;
      }));
  pending = remove_pending id s.pending;
}

-- Each variable resource gives back what the entry holds; the rest of the sum stays.
pub gives_back :
    (inner : Inner) (s : State) (run : RunState) (p : Pending) (id : ℕ)
    → Inv inner s
    → s.run ≡ some run
    → find_pending id s.pending ≡ some p
    → (r : Resource)
    → ((is_attempt r ≡ true)
        × (get (minus_variables p.request.amounts s.reserved) r ≡ get s.reserved r)
        × (get (minus_variables p.request.amounts run.report.reserved) r ≡ get s.reserved r)
        × (get s.reserved r ≡ 0))
      ⊎ ((is_attempt r ≡ false)
          × (get (minus_variables p.request.amounts s.reserved) r + get p.request.amounts r
              ≡ get s.reserved r)
          × (get (minus_variables p.request.amounts run.report.reserved) r + get p.request.amounts r
              ≡ get s.reserved r)
          × (get s.reserved r
              ≡ get p.request.amounts r + pending_sum r (remove_pending id s.pending)))
gives_back inner s run p id h e found r = ground (
  arith,
  get-minus_variables p.request.amounts s.reserved r,
  get-minus_variables p.request.amounts run.report.reserved r,
  h.task.reserved_exact r,
  h.task.reserved_word r,
  part.run_reserved r,
  pending_sum-remove r id p s.pending found,
  wrapping_sub_exact (get s.reserved r) (get p.request.amounts r),
  wrapping_sub_exact (get run.report.reserved r) (get p.request.amounts r),
)
  where
    part :
        RunInv inner.limits s.charged s.reserved s.active_time s.cleanup_time s.stop s.pending
          s.next_id run
    part = rw e at h.run_part
