-- ===== src/Budget/Guarantees/Stops/Reservations.antt =====
-- The calls of `BudgetReservation` keep the stop of the task.
use jingwei.Base.{ℕ, Option, none, some, List, [], ◌∷◌, arith, inl, inr, Option-cases}
use jingwei.Budget.Amounts.{Resource, all_resources, Amounts}
use jingwei.Budget.Ledger.Requests.{find_pending, remove_pending}
use jingwei.Budget.Vocabulary.{StopReason, Request, Usage, UsageReport}
use jingwei.Budget.Ledger.{Inner, State, Reservation}
use jingwei.Budget.Ledger.Action.{Outcome, ok, err, panicked, then_outcome}
use jingwei.Budget.Ledger.Clock.{tick}
use jingwei.Budget.Ledger.Runs.{update_report}
use jingwei.Budget.Ledger.Settlement.{Draft}
use jingwei.Budget.Ledger.Reservations.{
  mark_started, release, release_each, drop_reservation, abandon_reservation, or_drop,
  cancel_locked, settlement_of, book, keep_evidence, settle_or_keep, settle_locked, report_breach,
}
use jingwei.Budget.Guarantees.Stops.Clock.{HasStop, check_stop-fails, tick-stop}

module _ (reason : StopReason) where
  pub mark_started-stop :
      (inner : Inner) (held : Reservation) (now : ℕ) (s : State)
      → HasStop reason s
      → HasStop reason (mark_started inner held now s).1
  unfolding mark_started
  mark_started-stop inner held now s h =
      let t = tick inner now s in
      let ht = tick-stop reason inner now s h in ground (arith, check_stop-fails reason t ht)

  pub drop_reservation-stop :
      (inner : Inner) (held : Reservation) (now : ℕ) (s : State)
      → HasStop reason s
      → HasStop reason (drop_reservation inner held now s)
  unfolding drop_reservation abandon_reservation
  drop_reservation-stop inner held now s h = let ht = tick-stop reason inner now s h in ground arith

  release_each-stop :
      (amounts : Amounts) (rs : List Resource) (s : State)
      → HasStop reason s
      → HasStop reason (release_each amounts rs s).1
  unfolding release_each update_report
  release_each-stop amounts [] s h = h
  release_each-stop amounts (r ∷ rs) s h = elim (Option-cases s.run) [
    | inl e ↦ ground arith
    | inr (run, e) ↦ rw e (release_each-stop amounts rs _ h)
  ]

  release-stop :
      (amounts : Amounts) (s : State) → HasStop reason s → HasStop reason (release amounts s).1
  unfolding release
  release-stop amounts s h = ground (arith, release_each-stop amounts all_resources s h)

  pub or_drop-stop {ℓ} :
      {A : Type ℓ} (inner : Inner) (held : Reservation) (later : ℕ) (r : Outcome A × State)
      → HasStop reason r.1
      → HasStop reason (or_drop inner held later r).1
  unfolding or_drop
  or_drop-stop inner held later (ok a, s) h = h
  or_drop-stop inner held later (err e, s) h = drop_reservation-stop inner held later s h
  or_drop-stop inner held later (panicked, s) h = drop_reservation-stop inner held later s h

  removed-stop :
      (id : ℕ) (r : Outcome (Unit {0}) × State)
      → HasStop reason r.1
      → HasStop reason
          (then_outcome {0, 0} {B = Unit {0}} r
            λ _ u. (ok tt, record u { pending = remove_pending id u.pending })).1
  removed-stop id (ok a, s) h = h
  removed-stop id (err e, s) h = h
  removed-stop id (panicked, s) h = h

  pub cancel_locked-stop :
      (inner : Inner) (held : Reservation) (now : ℕ) (s : State)
      → HasStop reason s
      → HasStop reason (cancel_locked inner held now s).1
  unfolding cancel_locked
  cancel_locked-stop inner held now s h =
      let t = tick inner now s in
      let ht = tick-stop reason inner now s h in
      elim (Option-cases (find_pending held.id t.pending)) [
        | inl e ↦ ground arith
        | inr (p, e) ↦ ground (
          arith,
          removed-stop held.id (release p.request.amounts t) (release-stop p.request.amounts t ht),
        )
      ]

  book-stop :
      (held : Reservation) (request : Request) (evidence : UsageReport) (draft : Draft) (s : State)
      → HasStop reason s
      → HasStop reason (book held request evidence draft s).1
  unfolding book update_report
  book-stop held request evidence draft s h = ground (arith, release-stop request.amounts s h)

  settle_or_keep-stop :
      (held : Reservation) (request : Request) (usage : Usage) (o : Outcome (UsageReport × Draft))
      (s : State)
      → HasStop reason s
      → HasStop reason (settle_or_keep held request usage o s).1
  unfolding settle_or_keep keep_evidence
  settle_or_keep-stop held request usage (ok (evidence, draft)) s h =
      book-stop held request evidence draft s h
  settle_or_keep-stop held request usage (err e) s h = ground arith
  settle_or_keep-stop held request usage panicked s h = h

  pub settle_locked-stop :
      (inner : Inner) (held : Reservation) (usage : Usage) (now : ℕ) (s : State)
      → HasStop reason s
      → HasStop reason (settle_locked inner held usage now s).1
  unfolding settle_locked
  settle_locked-stop inner held usage now s h =
      let t = tick inner now s in
      let ht = tick-stop reason inner now s h in
      elim (Option-cases (find_pending held.id t.pending)) [
        | inl e ↦ ground arith
        | inr (p, e) ↦
            ground (
              arith,
              settle_or_keep-stop held p.request usage (settlement_of t p.request usage) t ht,
            )
      ]

  pub breach-stop :
      (r : Outcome (Option Resource) × State)
      → HasStop reason r.1
      → HasStop reason (then_outcome r report_breach).1
  unfolding report_breach
  breach-stop (ok none, s) h = h
  breach-stop (ok (some r), s) h = ground arith
  breach-stop (err e, s) h = h
  breach-stop (panicked, s) h = h
