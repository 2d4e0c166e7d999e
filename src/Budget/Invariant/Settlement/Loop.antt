-- ===== src/Budget/Invariant/Settlement/Loop.antt =====
-- `settlement` of crates/core/budget/src/lib.rs goes through with the rounds that it should make.
use jingwei.Base.{
  ℕ, ◌+◌, max, ◌≡◌, refl, ap, subst, ◌∙◌, Bool, none, arith, ltb, if◌then◌else◌, get_or_insert, ◌↔◌,
}
use jingwei.Budget.Amounts.{Resource, Amounts, get, set}
use jingwei.Budget.Vocabulary.{
  UsageValue, actual, estimated, unknown, Usage, UsageTotals, UsageReport, Request,
}
use jingwei.Budget.Ledger.Action.{Outcome, ok, err, panicked}
use jingwei.Budget.Ledger.Settlement.{Draft, settle_resource, settlement, ◌>>=◌}
use jingwei.Budget.Invariant.Settlement.{Round, first_over, Rounds}
use jingwei.Budget.Invariant.Settlement.Complete.{settlement_complete}

debit_size : UsageValue → ℕ → ℕ
debit_size (actual amount) reserved = amount
debit_size (estimated amount) reserved = max amount reserved
debit_size unknown reserved = reserved

settle_resource-Round :
    (r : Resource) (v : UsageValue) (applicable : Bool) (reserved : ℕ)
    (totals totals' : UsageTotals) (d d' : Draft)
    → settle_resource r v applicable reserved totals d ≡ ok (totals', d')
    → Round r v applicable reserved totals totals' d d' (debit_size v reserved)
unfolding settle_resource debit_size
settle_resource-Round r (actual n) applicable reserved totals totals' d d' e = ground arith
settle_resource-Round r (estimated n) applicable reserved totals totals' d d' e = ground arith
settle_resource-Round r unknown applicable reserved totals totals' d d' e = ground arith

>>=-eq-ok {ℓ κ} :
    {T : Type ℓ} {U : Type κ} (first : Outcome T) (next : T → Outcome U) {result : U}
    → (first >>= next) ≡ ok result
    → (value : T) × (first ≡ ok value) × (next value ≡ ok result)
>>=-eq-ok panicked next h = cc
>>=-eq-ok (err refusal) next h = cc
>>=-eq-ok (ok value) next h = (value, refl, h)

breach_lem :
    (a : Amounts) (x y z : ℕ) (b c draft : Draft)
    → b.breach ≡ (if ltb a.input_tokens x then get_or_insert none Resource.input_tokens else none)
    → c.breach
      ≡ (if ltb a.output_tokens y then get_or_insert b.breach Resource.output_tokens else b.breach)
    → draft.breach ≡ (
        if ltb a.tool_output_bytes z
        then get_or_insert c.breach Resource.tool_output_bytes
        else c.breach)
    → draft.breach ≡ first_over x y z a
breach_lem a x y z b c draft p q r = ground arith

rounds :
    (charged run_charged : Amounts) (before after : UsageReport) (request : Request) (usage : Usage)
    (draft b c : Draft) (x y z : ℕ)
    → let start : Draft = record { charged = charged; run_charged = run_charged; breach = none } in
      let a = request.amounts in
      Round Resource.input_tokens usage.input_tokens
        (ltb 0 a.model_requests)
        a.input_tokens
        before.input_tokens
        after.input_tokens
        start
        b
        x
      → Round Resource.output_tokens usage.output_tokens
          (ltb 0 a.model_requests)
          a.output_tokens
          before.output_tokens
          after.output_tokens
          b
          c
          y
      → Round Resource.tool_output_bytes usage.tool_output_bytes
          (ltb 0 a.tool_calls)
          a.tool_output_bytes
          before.tool_output_bytes
          after.tool_output_bytes
          c
          draft
          z
      → Rounds charged run_charged before after request.amounts usage draft
unfolding get set
rounds charged run_charged before after request usage draft b c x y z p q r = record {
  input = x;
  output = y;
  bytes = z;
  charged_set =
      r.task_set
      ∙ ap (λ k. set k Resource.tool_output_bytes (get k Resource.tool_output_bytes + z))
          (q.task_set
            ∙ ap (λ k. set k Resource.output_tokens (get k Resource.output_tokens + y)) p.task_set);
  run_set =
      r.run_set
      ∙ ap (λ k. set k Resource.tool_output_bytes (get k Resource.tool_output_bytes + z))
          (q.run_set
            ∙ ap (λ k. set k Resource.output_tokens (get k Resource.output_tokens + y)) p.run_set);
  words = (
    p.task_word,
    omega (arith, q.task_word, ap (λ (k : Amounts). k.output_tokens) p.task_set),
    omega (
      arith,
      r.task_word,
      ap (λ (k : Amounts). k.tool_output_bytes) p.task_set,
      ap (λ (k : Amounts). k.tool_output_bytes) q.task_set,
    ),
  );
  run_words = (
    p.run_word,
    omega (arith, q.run_word, ap (λ (k : Amounts). k.output_tokens) p.run_set),
    omega (
      arith,
      r.run_word,
      ap (λ (k : Amounts). k.tool_output_bytes) p.run_set,
      ap (λ (k : Amounts). k.tool_output_bytes) q.run_set,
    ),
  );
  input_costs = p.costs;
  output_costs = q.costs;
  bytes_costs = r.costs;
  input_evidence = p.evidence;
  output_evidence = q.evidence;
  bytes_evidence = r.evidence;
  breach = breach_lem request.amounts x y z b c draft p.breach q.breach r.breach;
}

ok_value {ℓ} : {A : Type ℓ} → A → Outcome A → A
ok_value d (ok a) = a
ok_value d (err e) = d
ok_value d panicked = d

pub settlement-Rounds :
    (charged run_charged : Amounts) (before after : UsageReport) (request : Request) (usage : Usage)
    (draft : Draft)
    → settlement charged run_charged before request usage ≡ ok (after, draft)
    → Rounds charged run_charged before after request.amounts usage draft
unfolding settlement ok_value debit_size
settlement-Rounds charged run_charged before after request usage draft e =
    let (x, ex, fx) = >>=-eq-ok _ _ e in
    let (y, ey, fy) = >>=-eq-ok _ _ fx in
    let (z, ez, fz) = >>=-eq-ok _ _ fy in
    let made : UsageReport = record {
      input_tokens = x.0;
      output_tokens = y.0;
      tool_output_bytes = z.0;
    } in
    let spent : Rounds charged run_charged before made request.amounts usage z.1 =
      rounds charged run_charged before made request usage z.1 x.1 y.1
        (debit_size usage.input_tokens request.amounts.input_tokens)
        (debit_size usage.output_tokens request.amounts.output_tokens)
        (debit_size usage.tool_output_bytes request.amounts.tool_output_bytes)
        (settle_resource-Round _ _ _ _ _ _ _ _ ex) (settle_resource-Round _ _ _ _ _ _ _ _ ey)
        (settle_resource-Round _ _ _ _ _ _ _ _ ez) in
    subst (λ v. Rounds charged run_charged before v.0 request.amounts usage v.1)
      (ap (ok_value (made, z.1)) fz) spent

-- A settlement goes through exactly with this result: each variable resource is charged its debit, in
-- the task and in the run, where the sums are words; known usage costs its amount, an estimate at least
-- the reservation, unknown usage the whole reservation; evidence is kept by its kind, where the sums are
-- words; the breach is the first resource whose debit is beyond its reservation.
pub settlement_iff :
    (charged run_charged : Amounts) (before after : UsageReport) (request : Request) (usage : Usage)
    (draft : Draft)
    → (settlement charged run_charged before request usage ≡ ok (after, draft))
      ↔ Rounds charged run_charged before after request.amounts usage draft
settlement_iff charged run_charged before after request usage draft = (
  settlement-Rounds charged run_charged before after request usage draft,
  settlement_complete charged run_charged before after request usage draft,
)
