-- ===== src/Budget/Checkpoint/Host/Laws.antt =====
-- What a grant that was applied has done.
use jingwei.Base.{
  ◌+◌, ◌≤◌, ◌<◌, ◌≡◌, ◌≢◌, refl, Option-cases, ap, Bool, true, false, ◌⊎◌, inl, inr, Option, none,
  some, arith, is_yes_iff, All,
}
use jingwei.Budget.Vocabulary.{Report}
use jingwei.Budget.Invariant.Reservation.{All-resources}
use jingwei.Budget.Amounts.{Resource, all_resources, Limits, get, Limits-discrete, tightened_by}
use jingwei.Budget.Amounts.Laws.{IsWithin, tightened_by-fixed}
use jingwei.Budget.Audit.{GrantRequest, GrantRecord}
use jingwei.Budget.Checkpoint.{Checkpoint, RestoreContext, Checked, is_quiescent}
use jingwei.Budget.Checkpoint.Transition.{granted, validate_transition}
use jingwei.Budget.Checkpoint.Host.{
  Granting, done, failed, GrantOutcome, applied, Store, ◌>>=◌, ◌>>◌, stop_if, or_failed, find_grant,
  replay, exceeds, check_new_operation, new_record, candidate, grant_new, grant_loaded,
  grant_budget, grant_answered, GrantError, commit_failed,
}

covers_resources :
    (report : Report) (limits : Limits)
    → exceeds report limits ≡ false
    → (report.active_time < limits.active_time)
      × All (λ r. get report.charged r ≤ get limits.resources r) all_resources
unfolding exceeds
covers_resources report limits e = ground arith

module _ {B S : Type 0} where
  >>-done :
      {U : Type 0} (check : Granting B S (Unit {0})) (next : Granting B S U) {value : U}
      → (check >> next) ≡ done value
      → (check ≡ done tt) × (next ≡ done value)
  >>-done (failed problem) next e = cc
  >>-done (done tt) next e = (refl, e)

  stop_if-done :
      (test : Bool) (problem : GrantError B S) → stop_if test problem ≡ done tt → test ≡ false
  stop_if-done true problem e = cc
  stop_if-done false problem e = refl

  candidate-done :
      (request : GrantRequest) (base c : Checkpoint)
      → candidate {B = B} {S = S} request base ≡ done c
      → (c ≡ granted base (new_record request base) (base.revision + 1))
        × (validate_transition c (some base) ≡ Checked.ok tt)
  unfolding candidate
  candidate-done request base c e = ground arith

  -- The checks of a new operation, as what they show.
  checks-done :
      (verify : Checkpoint → Unit {0} ⊎ B) (context : RestoreContext) (request : GrantRequest)
      (base : Checkpoint)
      → check_new_operation {B = B} {S = S} verify context request base ≡ done tt
      → (base.revision ≡ context.revision)
        × (is_quiescent base ≡ true)
        × IsWithin request.new_limits context.host_limits
        × (exceeds base.report request.new_limits ≡ false)
  unfolding check_new_operation
  checks-done verify context request base e =
      let limits = is_yes_iff (
        Limits-discrete (tightened_by request.new_limits context.host_limits) request.new_limits) in
      (
        ground arith,
        ground arith,
        (tightened_by-fixed request.new_limits context.host_limits).0 (ground (arith, limits)),
        ground arith,
      )

-- What an applied grant has done: the image `c` follows the loaded image `base`.
pub record Granted {S C : Type 0} (answers : Store S C) (context : RestoreContext)
    (request : GrantRequest) (base c : Checkpoint) (commit : C) : Type 0 where
  pub loaded : answers.load context.identity ≡ inl (some base)
  pub expected : base.revision ≡ context.revision
  pub quiet : is_quiescent base ≡ true
  pub new_operation : find_grant request.operation_id base.grants ≡ none
  pub in_ceiling : IsWithin request.new_limits context.host_limits
  pub covers_time : base.report.active_time < request.new_limits.active_time
  pub covers : (r : Resource) → get base.report.charged r ≤ get request.new_limits.resources r
  pub exact : c ≡ granted base (new_record request base) (base.revision + 1)
  pub admitted : validate_transition c (some base) ≡ Checked.ok tt
  pub committed : answers.compare_exchange base.revision c ≡ inl commit

module _ {B S C : Type 0} where
  -- The commit of a candidate.
  abbrev commits : Store S C → Checkpoint → Checkpoint → Granting B S (GrantOutcome C)
  commits answers base next =
      or_failed (answers.compare_exchange base.revision next) (commit_failed base.revision next)
      >>= λ m. done (applied next m)

  exchange-done :
      (base next c : Checkpoint) (commit : C) (answer : C ⊎ S)
      → (or_failed {B = B} answer (commit_failed base.revision next) >>= λ m. done (applied next m))
        ≡ done (applied c commit)
      → (next ≡ c) × (answer ≡ inl commit)
  exchange-done base next c commit (inl m) e = (cc, cc)
  exchange-done base next c commit (inr x) e = cc

  commits-done :
      (answers : Store S C) (base c : Checkpoint) (commit : C) (o : Granting B S Checkpoint)
      → (o >>= commits answers base) ≡ done (applied c commit)
      → (o ≡ done c) × (answers.compare_exchange base.revision c ≡ inl commit)
  commits-done answers base c commit (failed x) e = cc
  commits-done answers base c commit (done next) e =
      let (same, exchanged) =
        exchange-done base next c commit (answers.compare_exchange base.revision next) e in
      (ap done same, rw (← same) exchanged)

  grant_new-Granted :
      (answers : Store S C) (verify : Checkpoint → Unit {0} ⊎ B) (context : RestoreContext)
      (request : GrantRequest) (base c : Checkpoint) (commit : C)
      → answers.load context.identity ≡ inl (some base)
      → find_grant request.operation_id base.grants ≡ none
      → grant_new answers verify context request base ≡ done (applied c commit)
      → Granted answers context request base c commit
  unfolding grant_new
  grant_new-Granted answers verify context request base c commit loaded fresh e =
      let (checks, rest) =
        >>-done (check_new_operation {B = B} {S = S} verify context request base) _ e in
      let (expected, quiet, ceiling, enough) = checks-done verify context request base checks in
      let (time, all) = covers_resources base.report request.new_limits enough in
      let (next, exchanged) =
        commits-done answers base c commit (candidate {B = B} {S = S} request base) rest in
      let (exact, admitted) = candidate-done {B = B} {S = S} request base c next in
      record {
        loaded = loaded;
        expected = expected;
        quiet = quiet;
        new_operation = fresh;
        in_ceiling = ceiling;
        covers_time = time;
        covers =
            All-resources (λ r. get base.report.charged r ≤ get request.new_limits.resources r) all;
        exact = exact;
        admitted = admitted;
        committed = exchanged;
      }

  -- A replay applies nothing.
  replay-not-applied :
      (context : RestoreContext) (request : GrantRequest) (g : GrantRecord) (c : Checkpoint)
      (commit : C)
      → replay {B = B} {S = S} {C = C} context request g ≢ done (applied c commit)
  unfolding replay
  replay-not-applied context request g c commit e = ground arith

  grant_loaded-Granted :
      (answers : Store S C) (verify : Checkpoint → Unit {0} ⊎ B) (context : RestoreContext)
      (request : GrantRequest) (base c : Checkpoint) (commit : C)
      → answers.load context.identity ≡ inl (some base)
      → grant_loaded answers verify context request base ≡ done (applied c commit)
      → Granted answers context request base c commit
  unfolding grant_loaded
  grant_loaded-Granted answers verify context request base c commit loaded e =
      elim (Option-cases (find_grant request.operation_id base.grants)) [
        | inl fresh ↦
            grant_new-Granted answers verify context request base c commit loaded fresh
              (ground arith)
        | inr (g, found) ↦ absurd (replay-not-applied context request g c commit (ground arith))
      ]

  -- A grant that `grant_budget` reports as applied has replaced, in the store and at the revision that
  -- the host expects, a quiescent image by the one that differs from it in the grant's limits, the
  -- cleared stop, the audit record, the version and the next revision alone. That image is admitted
  -- after the old one, its limits are within the host's ceiling and cover all consumption, and the
  -- operation is a new one.
  pub grant_budget-Granted :
      (answers : Store S C) (verify : Checkpoint → Unit {0} ⊎ B) (context : RestoreContext)
      (request : GrantRequest) (c : Checkpoint) (commit : C)
      → grant_budget answers verify context request ≡ done (applied c commit)
      → (base : Checkpoint) × Granted answers context request base c commit
  unfolding grant_budget grant_answered
  grant_budget-Granted answers verify context request c commit e =
      from_answer (answers.load context.identity) refl e
    where
      from_answer :
          (answer : Option Checkpoint ⊎ S)
          → answers.load context.identity ≡ answer
          → grant_answered answers verify context request answer ≡ done (applied c commit)
          → (base : Checkpoint) × Granted answers context request base c commit
      from_answer (inr problem) h k = cc
      from_answer (inl none) h k = cc
      from_answer (inl (some base)) h k =
          (base, grant_loaded-Granted answers verify context request base c commit h k)
