-- ===== src/Task/Snapshot/Chain.antt =====
-- crates/task/state/src/lib.rs: the snapshots that a store admits one after another.
use mathlib.Core.List.{append_assoc, append-nil}
use jingwei.Base.{
  ℕ, suc, ◌+◌, ◌≤◌, ◌≡◌, refl, sym, ap, ◌∙◌, true, false, Option, some, List, [], ◌∷◌, ◌++◌, arith,
  subst, length,
}
use jingwei.Base.Result.{Result, ok, ◌>>◌}
use jingwei.Base.Text.{Text, text_eq→≡}
use jingwei.Budget.Amounts.{Amounts, Resource, get}
use jingwei.Budget.Audit.{EventCursor}
use jingwei.Task.Vocabulary.{TaskStateError}
use jingwei.Task.Snapshot.{TaskSnapshot, Encoding}
use jingwei.Task.Snapshot.Successor.{
  has_prefix, goes_back, falls_on, uncharges, check_previous, previous_revision, check_old,
  validate_snapshot_successor,
}

has_prefix-append :
    (prefix steps : List Text)
    → has_prefix prefix steps ≡ true
    → (rest : List Text) × (steps ≡ prefix ++ rest)
unfolding has_prefix
has_prefix-append [] steps e = (steps, refl)
has_prefix-append (p ∷ prefix) [] e = absurd (ground arith)
has_prefix-append (p ∷ prefix) (step ∷ steps) e =
    let (rest, found) = has_prefix-append prefix steps (ground arith) in
    (rest, ground (arith, found, text_eq→≡ p step))

uncharges-false :
    (old new : Amounts) → uncharges old new ≡ false → (r : Resource) → get old r ≤ get new r
unfolding uncharges falls_on
uncharges-false old new e r = ground arith

-- Of two cursors the second is not behind.
goes_back_trans :
    (a b c : Option EventCursor)
    → goes_back a b ≡ false
    → goes_back b c ≡ false
    → goes_back a c ≡ false
unfolding goes_back
goes_back_trans a b c first second = ground arith

goes_back_antisym :
    (a b : Option EventCursor) → goes_back a b ≡ false → goes_back b a ≡ false → a ≡ b
unfolding goes_back
goes_back_antisym a b first second = ground arith

goes_back_refl : (a : Option EventCursor) → goes_back a a ≡ false
unfolding goes_back
goes_back_refl a = ground arith

-- What is at a later snapshot of a task, so many snapshots on.
pub record IsAfter {Value : Type 0} (n : ℕ) (old new : TaskSnapshot Value) : Type 0 where
  pub revision : new.revision ≡ old.revision + n
  pub identity : new.identity ≡ old.identity
  pub compatibility : new.compatibility ≡ old.compatibility
  pub steps : (rest : List Text) × (new.settled_steps ≡ old.settled_steps ++ rest)
  pub budget_revision : old.budget.revision ≤ new.budget.revision
  pub charged : (r : Resource) → get old.budget.charged r ≤ get new.budget.charged r
  pub cursor : goes_back old.cursor new.cursor ≡ false
  pub fixed :
      old.cursor ≡ new.cursor
      → (new.phase ≡ old.phase)
        × (new.settled_steps ≡ old.settled_steps)
        × (new.budget.charged ≡ old.budget.charged)

module _ {ExecutionError Value : Type 0} (encoding : Encoding Value) where
  validate_snapshot_successor-IsAfter :
      (old new : TaskSnapshot Value)
      → validate_snapshot_successor {ExecutionError = ExecutionError} encoding new (some old)
        ≡ ok tt
      → IsAfter 1 old new
  unfolding validate_snapshot_successor check_old check_previous previous_revision
  validate_snapshot_successor-IsAfter old new e = record {
    revision = ground arith;
    identity = ground arith;
    compatibility = ground arith;
    steps = has_prefix-append old.settled_steps new.settled_steps (ground arith);
    budget_revision = ground arith;
    charged = uncharges-false old.budget.charged new.budget.charged (ground arith);
    cursor = ground arith;
    fixed = λ same. ground arith;
  }

IsAfter-refl : {Value : Type 0} → (snapshot : TaskSnapshot Value) → IsAfter 0 snapshot snapshot
IsAfter-refl snapshot = record {
  revision = omega arith;
  identity = refl;
  compatibility = refl;
  steps = ([], sym (append-nil snapshot.settled_steps));
  budget_revision = omega arith;
  charged = λ r. omega arith;
  cursor = goes_back_refl snapshot.cursor;
  fixed = λ same. (refl, refl, refl);
}

module _ {Value : Type 0} (n : ℕ) (a b c : TaskSnapshot Value) where
  IsAfter-trans : IsAfter 1 a b → IsAfter n b c → IsAfter (suc n) a c
  IsAfter-trans once later = record {
    revision = omega (arith, once.revision, later.revision);
    identity = later.identity ∙ once.identity;
    compatibility = later.compatibility ∙ once.compatibility;
    steps =
        let (first, grown) = once.steps in
        let (second, grown_again) = later.steps in
        (
          first ++ second,
          grown_again ∙ ap (λ s. s ++ second) grown ∙ append_assoc a.settled_steps first second,
        );
    budget_revision = omega (arith, once.budget_revision, later.budget_revision);
    charged = λ r. omega (arith, once.charged r, later.charged r);
    cursor = goes_back_trans a.cursor b.cursor c.cursor once.cursor later.cursor;
    fixed = λ same.
        let stays : a.cursor ≡ b.cursor =
          goes_back_antisym a.cursor b.cursor once.cursor
            (subst (λ x. goes_back b.cursor x ≡ false) (sym same) later.cursor) in
        let (phase, settled, charges) = once.fixed stays in
        let (phase_later, settled_later, charges_later) = later.fixed (sym stays ∙ same) in
        (phase_later ∙ phase, settled_later ∙ settled, charges_later ∙ charges);
  }

unfoldable pub last_of : {A : Type 0} → A → List A → A
last_of first [] = first
last_of first (x ∷ xs) = last_of x xs

module _ {ExecutionError Value : Type 0} (encoding : Encoding Value) where
  -- A store that replaces its snapshot by each of the list in turn.
  unfoldable pub admit_all :
      TaskSnapshot Value
      → List (TaskSnapshot Value)
      → Result (TaskStateError ExecutionError) (Unit {0})
  admit_all old [] = ok tt
  admit_all old (new ∷ snapshots) =
      validate_snapshot_successor encoding new (some old) >> admit_all new snapshots

  -- When each snapshot of a list is admitted after the one before it, the last one's revision is the
  -- first one's plus the length of the list; identity and contracts stay, settled steps are only added
  -- at the end, neither the budget's revision nor a charge falls, the cursor does not go back, and at
  -- the same cursor phase, settled steps and charges are the same.
  pub admit_all-IsAfter :
      (first : TaskSnapshot Value) (snapshots : List (TaskSnapshot Value))
      → admit_all first snapshots ≡ ok tt
      → IsAfter (length snapshots) first (last_of first snapshots)
  unfolding admit_all last_of
  admit_all-IsAfter first [] e = IsAfter-refl first
  admit_all-IsAfter first (new ∷ snapshots) e =
      IsAfter-trans (length snapshots) first new (last_of new snapshots)
        (validate_snapshot_successor-IsAfter {ExecutionError = ExecutionError} encoding first new
          (ground arith))
        (admit_all-IsAfter new snapshots (ground arith))
