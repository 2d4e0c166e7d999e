-- ===== src/Budget/Checkpoint/Resume.antt =====
-- A sealed ledger and the one that is restored from its image
-- (crates/core/budget/src/checkpoint.rs).
use jingwei.Base.{
  Bool, if◌then◌else◌, false, ℕ, ◌+◌, ◌≡◌, ◌↔◌, refl, true, Option, some, arith, is_yes_iff, ltb,
  inl, inr, Bool-cases,
}
use jingwei.Base.Word.{u64_mod}
use jingwei.Budget.Amounts.{Limits, tightened_by}
use jingwei.Budget.Vocabulary.{Identity-discrete}
use jingwei.Budget.Audit.{EventCursor}
use jingwei.Budget.Ledger.{BudgetError, Inner, State}
use jingwei.Budget.Ledger.Action.{Outcome}
use jingwei.Budget.Ledger.Clock.{tick, snapshot, check_writable}
use jingwei.Budget.Checkpoint.{
  Version, Checkpoint, CheckpointError, ◌>>◌, RestoreContext, Checked, ok, err, version_of_number,
  number_of_version,
}
use jingwei.Budget.Checkpoint.Grants.{anchor-discrete}
use jingwei.Budget.Checkpoint.Checks.{>>-ok}
use jingwei.Budget.Checkpoint.Transfer.{
  validate, sealed_by, image_of, checked_image, seal_checkpoint, restored, restore_checkpoint,
}

-- The stored number of a version is read back as that version, and no other number is read.
pub version_of_number_iff :
    (n : ℕ) (v : Version) → (version_of_number n ≡ some v) ↔ (number_of_version v ≡ n)
unfolding version_of_number number_of_version
version_of_number_iff n Version.v1 = (λ h. ground arith, λ h. ground arith)
version_of_number_iff n Version.v2 = (λ h. ground arith, λ h. ground arith)
version_of_number_iff n Version.v3 = (λ h. ground arith, λ h. ground arith)
version_of_number_iff n Version.v4 = (λ h. ground arith, λ h. ground arith)

-- What a seal gives.
pub record Sealed (inner : Inner) (anchor : Option EventCursor) (now : ℕ) (s : State)
    (c : Checkpoint) (t : State) : Type 0 where
  pub image :
      c ≡ image_of inner anchor ((tick inner now s).checkpoint_revision + 1) (tick inner now s)
  pub valid : validate c ≡ ok tt
  pub sealed_state : t ≡ record (tick inner now s) { is_sealed = true }

-- The ledger `u` has the accounts, the audits and the ids of `s`.
pub record Resumes (s u : State) : Type 0 where
  pub same_charged : u.charged ≡ s.charged
  pub same_reserved : u.reserved ≡ s.reserved
  pub same_usage : u.usage ≡ s.usage
  pub same_active : u.active_time ≡ s.active_time
  pub same_cleanup : u.cleanup_time ≡ s.cleanup_time
  pub same_grants : u.grants ≡ s.grants
  pub same_recoveries : u.recoveries ≡ s.recoveries
  pub same_next_id : u.next_id ≡ s.next_id

sealed_by-ok :
    (s t : State) (m : Checked Checkpoint) (c : Checkpoint)
    → sealed_by s m ≡ (ok c, t)
    → (m ≡ ok c) × (t ≡ record s { is_sealed = true })
sealed_by-ok s t (ok d) c e = (cc, cc)
sealed_by-ok s t (err x) c e = cc

image-ok : (d c : Checkpoint) → (validate d >> ok d) ≡ ok c → (c ≡ d) × (validate c ≡ ok tt)
image-ok d c e =
    let (valid, same) = >>-ok (validate d) (ok d) e in
    let back : c ≡ d = cc in (back, rw back valid)

checked_image-ok :
    (inner : Inner) (anchor : Option EventCursor) (s : State) (c : Checkpoint)
    → checked_image inner anchor s ≡ ok c
    → (c ≡ image_of inner anchor (s.checkpoint_revision + 1) s) × (validate c ≡ ok tt)
unfolding checked_image
checked_image-ok inner anchor s c e = elim (Bool-cases (ltb (s.checkpoint_revision + 1) u64_mod)) [
  | inl fits ↦ image-ok (image_of inner anchor (s.checkpoint_revision + 1) s) c (rw fits at e)
  | inr full ↦ absurd (ok-ne-err (rw full at e))
]
  where
    ok-ne-err : {x : CheckpointError} {d : Checkpoint} → err x ≡ ok d → ⊥
    ok-ne-err h = cc

-- A seal that succeeds has found the ledger open.
open_branch :
    (closed : Bool) (x : CheckpointError) (s t : State) (c : Checkpoint)
    (rest : Checked Checkpoint × State)
    → (if closed then (err x, s) else rest) ≡ (ok c, t)
    → rest ≡ (ok c, t)
open_branch true x s t c rest e = cc
open_branch false x s t c rest e = e

seal_checkpoint-Sealed :
    (inner : Inner) (anchor : Option EventCursor) (now : ℕ) (s t : State) (c : Checkpoint)
    → seal_checkpoint inner anchor now s ≡ (ok c, t)
    → Sealed inner anchor now s c t
unfolding seal_checkpoint
seal_checkpoint-Sealed inner anchor now s t c e =
    let image = checked_image inner anchor (tick inner now s) in
    let branch = open_branch s.is_sealed _ s t c (sealed_by (tick inner now s) image) e in
    let (checked, state) = sealed_by-ok (tick inner now s) t image c branch in
    let (same, valid) = checked_image-ok inner anchor (tick inner now s) c checked in
    record { image = same; valid = valid; sealed_state = state }

-- The context in which a host that knows the ledger restores the image.
abbrev pub context_of : Inner → Option EventCursor → Checkpoint → Limits → RestoreContext
context_of inner anchor c host = record {
  identity = inner.identity;
  revision = c.revision;
  confirmed_anchor = anchor;
  host_limits = host;
}

restored-Resumes :
    (inner : Inner) (anchor : Option EventCursor) (revision : ℕ) (s : State) (host : Limits)
    (later : ℕ)
    → Resumes s (restored (image_of inner anchor revision s) host later).1
unfolding restored image_of snapshot
restored-Resumes inner anchor revision s host later = record {
  same_charged = refl;
  same_reserved = refl;
  same_usage = refl;
  same_active = refl;
  same_cleanup = refl;
  same_grants = refl;
  same_recoveries = refl;
  same_next_id = refl;
}

restored-limits :
    (inner : Inner) (anchor : Option EventCursor) (revision : ℕ) (s : State) (host : Limits)
    (later : ℕ)
    → (restored (image_of inner anchor revision s) host later).0.limits
      ≡ tightened_by inner.limits host
unfolding restored image_of snapshot
restored-limits inner anchor revision s host later = refl

restored-revision :
    (inner : Inner) (anchor : Option EventCursor) (revision : ℕ) (s : State) (host : Limits)
    (later : ℕ)
    → (restored (image_of inner anchor revision s) host later).1.checkpoint_revision ≡ revision
unfolding restored image_of snapshot
restored-revision inner anchor revision s host later = refl

restore-ok :
    (inner : Inner) (anchor : Option EventCursor) (revision : ℕ) (s : State) (host : Limits)
    (later : ℕ)
    → validate (image_of inner anchor revision s) ≡ ok tt
    → restore_checkpoint
        (image_of inner anchor revision s)
        (context_of inner anchor (image_of inner anchor revision s) host)
        later
      ≡ ok (restored (image_of inner anchor revision s) host later)
unfolding restore_checkpoint image_of snapshot
restore-ok inner anchor revision s host later valid =
    let c = image_of inner anchor revision s in
    rw
      (
        valid,
        (is_yes_iff (Identity-discrete inner.identity inner.identity)).1 refl,
        (is_yes_iff (anchor-discrete anchor anchor)).1 refl,
      )
      (ground arith)

-- A host that seals a ledger and restores the image under the same identity, revision and anchor
-- gets a ledger again, whatever limits it now sets: the accounts, audits and ids are those after the
-- seal's tick, the limits are the old ones tightened by the host's, and the revision has gone up by
-- one. The old ledger accepts no write any more.
pub seal_restore :
    (inner : Inner) (anchor : Option EventCursor) (now later : ℕ) (s t : State) (c : Checkpoint)
    (host : Limits)
    → seal_checkpoint inner anchor now s ≡ (ok c, t)
    → (restore_checkpoint c (context_of inner anchor c host) later ≡ ok (restored c host later))
      × Resumes (tick inner now s) (restored c host later).1
      × ((restored c host later).0.limits ≡ tightened_by inner.limits host)
      × ((restored c host later).1.checkpoint_revision ≡ (tick inner now s).checkpoint_revision + 1)
      × (check_writable t ≡ Outcome.err BudgetError.checkpoint_sealed)
unfolding check_writable
seal_restore inner anchor now later s t c host e =
    let sealed = seal_checkpoint-Sealed inner anchor now s t c e in
    rw (sealed.image, sealed.sealed_state)
      (
        restore-ok inner anchor _ (tick inner now s) host later (rw sealed.image at sealed.valid),
        restored-Resumes inner anchor _ (tick inner now s) host later,
        restored-limits inner anchor _ (tick inner now s) host later,
        restored-revision inner anchor _ (tick inner now s) host later,
        refl,
      )
