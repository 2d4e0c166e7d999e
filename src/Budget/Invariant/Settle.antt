-- ===== src/Budget/Invariant/Settle.antt =====
-- `settle` keeps the invariant, also when the usage breaks the reservation or cannot be booked.
use jingwei.Base.{
  ℕ, ◌≡◌, refl, ap, ◌≢◌, Option, none, some, arith, inl, inr, Option-cases, get_or_insert,
}
use jingwei.Budget.Amounts.{Resource, Amounts}
use jingwei.Budget.Vocabulary.{Request, Pending, Usage, UsageReport, StopReason}
use jingwei.Budget.Ledger.{Inner, RunState, State, Reservation}
use jingwei.Budget.Ledger.Action.{Outcome, ok, err, panicked}
use jingwei.Budget.Ledger.Clock.{tick}
use jingwei.Budget.Ledger.Requests.{find_pending}
use jingwei.Budget.Ledger.Settlement.{Draft, settlement}
use jingwei.Budget.Ledger.Reservations.{
  or_drop, settlement_of, book, settle_or_keep, settle_locked, report_breach, settle,
}
use jingwei.Budget.Invariant.{EvidenceInv, Inv}
use jingwei.Budget.Invariant.Ensures.{Ensures, then-Ensures}
use jingwei.Budget.Invariant.Clock.{tick-Inv, Inv-insert}
use jingwei.Budget.Invariant.Entries.{Inv-update}
use jingwei.Budget.Invariant.Reports.{check_writable-total}
use jingwei.Budget.Invariant.Release.{release_lem, settled}
use jingwei.Budget.Invariant.Settlement.{Covering, Rounds-Covering}
use jingwei.Budget.Invariant.Settlement.Loop.{settlement-Rounds}
use jingwei.Budget.Invariant.Settlement.Total.{settlement-total}
use jingwei.Budget.Invariant.Settled.{settled-Inv, Covering-Charging}
use jingwei.Budget.Invariant.Cancel.{run_of_pending, or_drop-Inv}

book_lem :
    (held : Reservation) (request : Request) (evidence : UsageReport) (draft : Draft) (s : State)
    (run : RunState)
    → s.run ≡ some run
    → book held request evidence draft s ≡ (
      ok draft.breach,
      settled held.id request.amounts draft.charged draft.run_charged evidence s run,
    )
unfolding book
book_lem held request evidence draft s run e = rw (release_lem request.amounts s run e)

-- The evidence after a settlement is covered by the new charges.
evidence_covered :
    (inner : Inner) (s : State) (run : RunState) (a : Amounts) (after : UsageReport) (draft : Draft)
    → Inv inner s
    → Covering s.charged run.report.charged s.usage after a draft
    → EvidenceInv after draft.charged
evidence_covered inner s run a after draft h k = record {
  input_covered = omega (
    arith,
    k.input_covers,
    h.evidence.input_covered,
    ap (λ (v : Amounts). v.input_tokens) k.charged_set,
  );
  output_covered = omega (
    arith,
    k.output_covers,
    h.evidence.output_covered,
    ap (λ (v : Amounts). v.output_tokens) k.charged_set,
  );
  bytes_covered = omega (
    arith,
    k.bytes_covers,
    h.evidence.bytes_covered,
    ap (λ (v : Amounts). v.tool_output_bytes) k.charged_set,
  );
}

-- What is left once the breach, if any, has been reported.
abbrev Reported : Inner → Option Resource → State → Type 0
Reported inner breach s = Ensures (Inv inner) (λ _. Inv inner) (report_breach breach s)

settled-Reported :
    (inner : Inner) (s : State) (run : RunState) (p : Pending) (id : ℕ) (after : UsageReport)
    (draft : Draft) (breach : Option Resource)
    → Inv inner s
    → s.run ≡ some run
    → find_pending id s.pending ≡ some p
    → draft.breach ≡ breach
    → Covering s.charged run.report.charged s.usage after p.request.amounts draft
    → Reported inner breach
        (settled id p.request.amounts draft.charged draft.run_charged after s run)
unfolding report_breach
settled-Reported inner s run p id after draft none h e found b k =
    settled-Inv inner s run p id draft.charged draft.run_charged after s.stop h e found
      (Covering-Charging inner s run p.request.amounts after draft s.stop h k (λ x. (x, b)))
      (evidence_covered inner s run p.request.amounts after draft h k)
settled-Reported inner s run p id after draft (some r) h e found b k =
    let stop = get_or_insert s.stop (StopReason.usage_exceeded_reservation r) in
    settled-Inv inner s run p id draft.charged draft.run_charged after stop h e found
      (Covering-Charging inner s run p.request.amounts after draft stop h k
        (λ x. absurd (inserted s.stop (StopReason.usage_exceeded_reservation r) x)))
      (evidence_covered inner s run p.request.amounts after draft h k)
  where
    inserted : (o : Option StopReason) (x : StopReason) → get_or_insert o x ≢ none
    inserted none x q = cc
    inserted (some y) x q = cc

settle_or_keep-Reported :
    (inner : Inner) (held : Reservation) (s : State) (run : RunState) (p : Pending) (usage : Usage)
    (r : Outcome (UsageReport × Draft))
    → Inv inner s
    → s.run ≡ some run
    → find_pending held.id s.pending ≡ some p
    → settlement s.charged run.report.charged s.usage p.request usage ≡ r
    → Ensures (Inv inner) (Reported inner) (settle_or_keep held p.request usage r s)
unfolding settle_or_keep
settle_or_keep-Reported inner held s run p usage (ok (after, draft)) h e found x =
    rw (book_lem held p.request after draft s run e) (
      settled-Reported inner s run p held.id after draft draft.breach h e found refl (
        Rounds-Covering s.charged run.report.charged s.usage after p.request.amounts usage draft
          (settlement-Rounds s.charged run.report.charged s.usage after p.request usage draft x)))
settle_or_keep-Reported inner held s run p usage (err y) h e found x =
    Inv-insert inner _ StopReason.accounting_overflow (
      Inv-update inner s held.id (λ q. record q { failed_usage = some usage }) (λ q. (refl, refl))
        h)
settle_or_keep-Reported inner held s run p usage panicked h e found x =
    absurd (settlement-total s.charged run.report.charged s.usage p.request usage x)

settle_locked-Reported :
    (inner : Inner) (held : Reservation) (usage : Usage) (now : ℕ) (s : State)
    → Inv inner s
    → Ensures (Inv inner) (Reported inner) (settle_locked inner held usage now s)
unfolding settle_locked
settle_locked-Reported inner held usage now s h =
    let t = tick inner now s in
    let ht = tick-Inv inner now s h in
    elim (Option-cases (find_pending held.id t.pending)) [
      | inl e ↦ ground (arith, check_writable-total s)
      | inr (p, e) ↦
          let (run, er) = run_of_pending inner t held.id p ht e in
          let x = settlement t.charged run.report.charged t.usage p.request usage in
          let found : settlement_of t p.request usage ≡ x =
            unfold settlement_of in rw (er, settlement_of) in
          let done = settle_or_keep-Reported inner held t run p usage x ht er e refl in
          ground (arith, check_writable-total s, found, done)
    ]

-- A settlement keeps the invariant: charged, in breach, refused or kept as raw evidence.
pub settle-Inv :
    (inner : Inner) (held : Reservation) (usage : Usage) (now later : ℕ) (s : State)
    → Inv inner s
    → Ensures (Inv inner) (λ _. Inv inner) (settle inner held usage now later s)
unfolding settle
settle-Inv inner held usage now later s h =
    then-Ensures (Inv inner) (Reported inner) (λ _. Inv inner)
      (or_drop inner held later (settle_locked inner held usage now s)) report_breach
      (or_drop-Inv inner held later (Reported inner) (settle_locked inner held usage now s)
        (settle_locked-Reported inner held usage now s h))
      (λ breach t k. k)
