-- ===== src/Budget/Invariant/Settlement/Total.antt =====
-- `settlement` of crates/core/budget/src/lib.rs does not panic.
use jingwei.Base.{◌≢◌, ℕ, refl, Bool, arith}
use jingwei.Budget.Amounts.{Resource, Amounts}
use jingwei.Budget.Vocabulary.{
  UsageValue, actual, estimated, unknown, Usage, UsageTotals, UsageReport, Request,
}
use jingwei.Budget.Ledger.Action.{Outcome, ok, err, panicked}
use jingwei.Budget.Ledger.Settlement.{Draft, settle_resource, settlement, ◌>>=◌}

settle_resource-total :
    (r : Resource) (v : UsageValue) (applicable : Bool) (reserved : ℕ) (totals : UsageTotals)
    (d : Draft)
    → settle_resource r v applicable reserved totals d ≢ panicked
unfolding settle_resource
settle_resource-total r (actual n) applicable reserved totals d = ground arith
settle_resource-total r (estimated n) applicable reserved totals d = ground arith
settle_resource-total r unknown applicable reserved totals d = ground arith

ok-ne-panicked {ℓ} : {A : Type ℓ} (a : A) → Outcome.ok a ≢ panicked
ok-ne-panicked a e = cc

>>=-total {ℓ κ} :
    {A : Type ℓ} {B : Type κ} (m : Outcome A) (f : A → Outcome B)
    → m ≢ panicked
    → ((a : A) → f a ≢ panicked)
    → (m >>= f) ≢ panicked
>>=-total (ok a) f h k = k a
>>=-total (err e) f h k = λ x. cc
>>=-total panicked f h k = absurd (h refl)

pub settlement-total :
    (charged run_charged : Amounts) (evidence : UsageReport) (request : Request) (usage : Usage)
    → settlement charged run_charged evidence request usage ≢ panicked
unfolding settlement
settlement-total charged run_charged evidence request usage =
    >>=-total _ _ (settle_resource-total _ _ _ _ _ _) λ x.
      >>=-total _ _ (settle_resource-total _ _ _ _ _ _)
        λ y. >>=-total _ _ (settle_resource-total _ _ _ _ _ _) λ z. ok-ne-panicked _
