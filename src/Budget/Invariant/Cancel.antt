-- ===== src/Budget/Invariant/Cancel.antt =====
-- Starting, dropping and cancelling a reservation keep the invariant.
use jingwei.Base.{ℕ, ◌≡◌, refl, true, Option, none, some, [], arith, inl, inr, Option-cases}
use jingwei.Budget.Vocabulary.{Pending, StopReason}
use jingwei.Budget.Ledger.{Inner, RunState, State, Reservation}
use jingwei.Budget.Ledger.Action.{Outcome, ok, err, panicked}
use jingwei.Budget.Ledger.Clock.{tick}
use jingwei.Budget.Ledger.Requests.{find_pending}
use jingwei.Budget.Ledger.Reservations.{
  mark_started, abandon_reservation, drop_reservation, or_drop, cancel_locked, cancel_before_start,
}
use jingwei.Budget.Invariant.{Inv}
use jingwei.Budget.Invariant.Ensures.{Ensures}
use jingwei.Budget.Invariant.Clock.{tick-Inv, Inv-insert}
use jingwei.Budget.Invariant.Entries.{Inv-update}
use jingwei.Budget.Invariant.Reports.{check_run-total, check_stop-total, check_writable-total}
use jingwei.Budget.Invariant.Release.{release_lem}
use jingwei.Budget.Invariant.Settled.{settled-Inv, no_charge}

pub mark_started-Inv :
    (inner : Inner) (held : Reservation) (now : ℕ) (s : State)
    → Inv inner s
    → Ensures (Inv inner) (λ _. Inv inner) (mark_started inner held now s)
unfolding mark_started
mark_started-Inv inner held now s h =
    let t = tick inner now s in
    let ht = tick-Inv inner now s h in
    ground (
      arith,
      check_run-total held.run_id t,
      check_stop-total t,
      Inv-update inner t held.id (λ p. record p { started = true }) (λ p. (refl, refl)) ht,
    )

abandon_reservation-Inv :
    (inner : Inner) (id : ℕ) (s : State) → Inv inner s → Inv inner (abandon_reservation id s)
unfolding abandon_reservation
abandon_reservation-Inv inner id s h =
    let marked = Inv-update inner s id (λ p. record p { abandoned = true }) (λ p. (refl, refl)) h in
    let stopped = Inv-insert inner _ StopReason.abandoned_reservation marked in
    ground (arith, h, stopped)

pub drop_reservation-Inv :
    (inner : Inner) (held : Reservation) (now : ℕ) (s : State)
    → Inv inner s
    → Inv inner (drop_reservation inner held now s)
unfolding drop_reservation
drop_reservation-Inv inner held now s h =
    let dropped =
      abandon_reservation-Inv inner held.id (tick inner now s) (tick-Inv inner now s h) in
    ground (arith, h, dropped)

pub or_drop-Inv {ℓ} :
    {A : Type ℓ} (inner : Inner) (held : Reservation) (later : ℕ) (Q : A → State → Type 0)
    (r : Outcome A × State)
    → Ensures (Inv inner) Q r
    → Ensures (Inv inner) Q (or_drop inner held later r)
unfolding or_drop
or_drop-Inv inner held later Q (ok a, s) h = h
or_drop-Inv inner held later Q (err e, s) h = drop_reservation-Inv inner held later s h
or_drop-Inv inner held later Q (panicked, s) h = absurd h

-- A ledger with a pending entry has a run.
pub run_of_pending :
    (inner : Inner) (s : State) (id : ℕ) (p : Pending)
    → Inv inner s
    → find_pending id s.pending ≡ some p
    → (run : RunState) × (s.run ≡ some run)
unfolding find_pending
run_of_pending inner s id p h found = elim (Option-cases s.run) [
  | inl e ↦
      let idle : s.pending ≡ [] = rw e at h.run_part in
      let gone : ◌≡◌ {A = Option Pending} none (some p) = rw idle at found in cc
  | inr some_run ↦ some_run
]

pub cancel_locked-Inv :
    (inner : Inner) (held : Reservation) (now : ℕ) (s : State)
    → Inv inner s
    → Ensures (Inv inner) (λ _. Inv inner) (cancel_locked inner held now s)
unfolding cancel_locked
cancel_locked-Inv inner held now s h =
    let t = tick inner now s in
    let ht = tick-Inv inner now s h in
    elim (Option-cases (find_pending held.id t.pending)) [
      | inl e ↦ ground (arith, check_writable-total s)
      | inr (p, e) ↦
          let (run, er) = run_of_pending inner t held.id p ht e in
          let done =
            settled-Inv inner t run p held.id t.charged run.report.charged t.usage t.stop ht er e
              (no_charge inner t run p.request.amounts ht) ht.evidence in
          ground (arith, check_writable-total s, release_lem p.request.amounts t run er, done)
    ]

pub cancel_before_start-Inv :
    (inner : Inner) (held : Reservation) (now later : ℕ) (s : State)
    → Inv inner s
    → Ensures (Inv inner) (λ _. Inv inner) (cancel_before_start inner held now later s)
unfolding cancel_before_start
cancel_before_start-Inv inner held now later s h =
    or_drop-Inv inner held later _ (cancel_locked inner held now s)
      (cancel_locked-Inv inner held now s h)
