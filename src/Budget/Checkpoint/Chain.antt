-- ===== src/Budget/Checkpoint/Chain.antt =====
-- What a chain of stored images keeps, when a store admits each by `validate_transition`
-- (crates/core/budget/src/grant.rs).
use mathlib.Core.List.{append_assoc, append-nil}
use jingwei.Base.{
  ℕ, ◌+◌, ◌≡◌, refl, sym, ap, ◌∙◌, true, Option, none, some, List, [], ◌∷◌, ◌++◌, arith, zero, suc,
  is_yes, is_yes_iff,
}
use jingwei.Budget.Amounts.{Limits-discrete, tightened_by}
use jingwei.Budget.Amounts.Laws.{IsWithin, tightened_by-fixed}
use jingwei.Budget.Vocabulary.{Identity-discrete}
use jingwei.Budget.Audit.{GrantRecord, RecoveryRecord}
use jingwei.Budget.Equality.{
  GrantRecord-discrete, RecoveryRecord-discrete, Checkpoint-discrete, stop-discrete,
}
use jingwei.Budget.Checkpoint.{Checkpoint, CheckpointError, ok, ◌>>◌, require, is_quiescent}
use jingwei.Budget.Checkpoint.Transfer.{validate, validate_successor}
use jingwei.Budget.Checkpoint.Transition.{
  suffix_after, check_new_recoveries, validate_recovery_transition, granted, check_grant,
  check_new_grants, check_predecessor, validate_transition,
}
use jingwei.Budget.Checkpoint.Checks.{>>-ok, require-ok, suffix_after-append}

-- How limits may change from one image to the next: down, or by one audited grant that changes
-- nothing else.
pub data LimitStep (previous c : Checkpoint) : Type 0 where
  no_grant :
      c.grants ≡ previous.grants
      → IsWithin c.report.limits previous.report.limits
      → LimitStep previous c
  one_grant :
      (g : GrantRecord)
      → is_quiescent previous ≡ true
      → g.source_revision ≡ previous.revision
      → g.old_limits ≡ previous.report.limits
      → g.old_stop ≡ previous.report.stop
      → c ≡ granted previous g c.revision
      → LimitStep previous c

check_grant-LimitStep :
    (c previous : Checkpoint) (g : GrantRecord)
    → check_grant c previous g ≡ ok tt
    → LimitStep previous c
unfolding check_grant
check_grant-LimitStep c previous g e =
    let limits = is_yes_iff (Limits-discrete g.old_limits previous.report.limits) in
    let stop = is_yes_iff (stop-discrete g.old_stop previous.report.stop) in
    let image = is_yes_iff (Checkpoint-discrete c (granted previous g c.revision)) in
    one_grant g (ground arith) (ground arith) (ground (arith, limits)) (ground (arith, stop))
      (ground (arith, image))

check_new_grants-LimitStep :
    (c previous : Checkpoint) (new : List GrantRecord)
    → c.grants ≡ previous.grants ++ new
    → check_new_grants c previous (some new) ≡ ok tt
    → LimitStep previous c
unfolding check_new_grants
check_new_grants-LimitStep c previous [] added e =
    let limits =
      is_yes_iff
        (Limits-discrete (tightened_by c.report.limits previous.report.limits) c.report.limits) in
    no_grant (added ∙ append-nil previous.grants)
      ((tightened_by-fixed c.report.limits previous.report.limits).0 (ground (arith, limits)))
check_new_grants-LimitStep c previous (g ∷ []) added e = check_grant-LimitStep c previous g e
check_new_grants-LimitStep c previous (g ∷ h ∷ gs) added e = cc

-- The grants or recoveries of a transition that was admitted.
new_grants :
    (c previous : Checkpoint) (o : Option (List GrantRecord))
    → check_new_grants c previous o ≡ ok tt
    → (gs : List GrantRecord) × (o ≡ some gs)
unfolding check_new_grants
new_grants c previous none e = cc
new_grants c previous (some gs) e = (gs, refl)

new_recoveries :
    (c previous : Checkpoint) (o : Option (List RecoveryRecord))
    → check_new_recoveries c previous o ≡ ok tt
    → (rs : List RecoveryRecord) × (o ≡ some rs)
unfolding check_new_recoveries
new_recoveries c previous none e = cc
new_recoveries c previous (some rs) e = (rs, refl)

-- What an admitted transition is.
pub record Step (previous c : Checkpoint) : Type 0 where
  pub next_revision : c.revision ≡ previous.revision + 1
  pub same_identity : previous.report.identity ≡ c.report.identity
  pub new_grants : List GrantRecord
  pub grants_kept : c.grants ≡ previous.grants ++ new_grants
  pub new_recoveries : List RecoveryRecord
  pub recoveries_kept : c.recoveries ≡ previous.recoveries ++ new_recoveries
  pub limit_step : LimitStep previous c
  pub both_valid : (validate previous ≡ ok tt) × (validate c ≡ ok tt)

successor_revision :
    (c : Checkpoint) (n : ℕ)
    → validate_successor c n ≡ ok tt
    → (c.revision ≡ n + 1) × (validate c ≡ ok tt)
unfolding validate_successor
successor_revision c n e = ground arith

recoveries_step :
    (c previous : Checkpoint)
    → validate_recovery_transition c (some previous) ≡ ok tt
    → (rs : List RecoveryRecord) × (c.recoveries ≡ previous.recoveries ++ rs)
unfolding validate_recovery_transition
recoveries_step c previous e =
    let (rs, found) = new_recoveries c previous _ e in
    (rs, suffix_after-append RecoveryRecord-discrete previous.recoveries c.recoveries rs found)

-- The checks against the predecessor, taken apart.
predecessor_step :
    (c previous : Checkpoint)
    → check_predecessor c (some previous) ≡ ok tt
    → (validate previous ≡ ok tt)
      × (previous.report.identity ≡ c.report.identity)
      × ((gs : List GrantRecord) × (c.grants ≡ previous.grants ++ gs))
      × LimitStep previous c
unfolding check_predecessor
predecessor_step c previous e =
    let found = suffix_after GrantRecord-discrete previous.grants c.grants in
    let same = is_yes (Identity-discrete previous.report.identity c.report.identity) in
    let (valid, rest) =
      >>-ok (validate previous)
        (require same CheckpointError.identity_mismatch >> check_new_grants c previous found) e in
    let (identity, grants) =
      >>-ok (require same CheckpointError.identity_mismatch) (check_new_grants c previous found)
        rest in
    let (gs, shown) = new_grants c previous found grants in
    let kept = suffix_after-append GrantRecord-discrete previous.grants c.grants gs shown in
    (
      valid,
      (is_yes_iff (Identity-discrete previous.report.identity c.report.identity)).0
          (require-ok same CheckpointError.identity_mismatch identity),
      (gs, kept),
      check_new_grants-LimitStep c previous gs kept (rw shown at grants),
    )

-- A transition that is admitted keeps the identity and both audits, counts up the revision, and
-- raises limits by an audited grant alone.
pub validate_transition-Step :
    (previous c : Checkpoint) → validate_transition c (some previous) ≡ ok tt → Step previous c
unfolding validate_transition
validate_transition-Step previous c e =
    let (successor, rest) =
      >>-ok (validate_successor c previous.revision)
        (validate_recovery_transition c (some previous) >> check_predecessor c (some previous)) e in
    let (recovery, predecessor) =
      >>-ok (validate_recovery_transition c (some previous)) (check_predecessor c (some previous))
        rest in
    let (next, valid) = successor_revision c previous.revision successor in
    let (rs, recoveries) = recoveries_step c previous recovery in
    let (before, identity, grants, limits) = predecessor_step c previous predecessor in
    record {
      next_revision = next;
      same_identity = identity;
      new_grants = grants.0;
      grants_kept = grants.1;
      new_recoveries = rs;
      recoveries_kept = recoveries;
      limit_step = limits;
      both_valid = (before, valid);
    }

-- A log in which every image was admitted after the one before it: its first and last image.
pub data Chain (first : Checkpoint) : ℕ → Checkpoint → Type 0 where
  here : Chain first zero first
  extend :
      {n : ℕ} {p : Checkpoint} (c : Checkpoint)
      → Chain first n p
      → validate_transition c (some p) ≡ ok tt
      → Chain first (suc n) c

-- Along a log of any length the revision counts the images, the identity stays, and both audits
-- only grow at their ends.
pub Chain-keeps_audit :
    (first c : Checkpoint) (n : ℕ)
    → Chain first n c
    → (c.revision ≡ first.revision + n)
      × (c.report.identity ≡ first.report.identity)
      × ((gs : List GrantRecord) × (c.grants ≡ first.grants ++ gs))
      × ((rs : List RecoveryRecord) × (c.recoveries ≡ first.recoveries ++ rs))
Chain-keeps_audit first c n here = (
  omega arith,
  refl,
  ([], sym (append-nil first.grants)),
  ([], sym (append-nil first.recoveries)),
)
Chain-keeps_audit first c n (extend {n = m} {p = p} last chain e) =
    let step = validate_transition-Step p last e in
    let (revision, identity, (gs, grants), (rs, recoveries)) = Chain-keeps_audit first p m chain in
    (
      omega (arith, step.next_revision),
      sym step.same_identity ∙ identity,
      (
        gs ++ step.new_grants,
        step.grants_kept
            ∙ ap (λ xs. xs ++ step.new_grants) grants
            ∙ append_assoc first.grants gs step.new_grants,
      ),
      (
        rs ++ step.new_recoveries,
        step.recoveries_kept
            ∙ ap (λ xs. xs ++ step.new_recoveries) recoveries
            ∙ append_assoc first.recoveries rs step.new_recoveries,
      ),
    )
