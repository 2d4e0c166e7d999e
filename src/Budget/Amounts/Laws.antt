-- ===== src/Budget/Amounts/Laws.antt =====
-- Laws of the resource vectors: reading after writing, and tightening as a meet of limits.
use jingwei.Base.{ℕ, ◌≤◌, min, ◌≡◌, refl, ap, ◌↔◌, arith, if◌then◌else◌, is_yes}
use jingwei.Budget.Amounts.{Resource, Amounts, get, set, Limits, tightened_by, Resource-discrete}

-- A write is read back at its own resource and nowhere else.
pub get-set :
    (a : Amounts) (r q : Resource) (v : ℕ)
    → get (set a r v) q ≡ (if is_yes (Resource-discrete r q) then v else get a q)
unfolding get set Resource-discrete
get-set a Resource.steps Resource.steps v = refl
get-set a r Resource.steps v = refl
get-set a r q v = refl

-- Vectors that agree at each resource are equal.
pub amounts_ext : (a b : Amounts) → ((r : Resource) → get a r ≡ get b r) → a ≡ b
unfolding get
amounts_ext a b h = λ i. record {
  steps = h Resource.steps i;
  model_requests = h Resource.model_requests i;
  tool_calls = h Resource.tool_calls i;
  corrections = h Resource.corrections i;
  input_tokens = h Resource.input_tokens i;
  output_tokens = h Resource.output_tokens i;
  tool_output_bytes = h Resource.tool_output_bytes i;
}

-- Tightening takes the smaller bound for each resource.
pub get-tightened :
    (l k : Limits) (r : Resource)
    → get (tightened_by l k).resources r ≡ min (get l.resources r) (get k.resources r)
unfolding tightened_by
get-tightened l k Resource.steps = refl
get-tightened l k r = refl

pub time-tightened :
    (l k : Limits) → (tightened_by l k).active_time ≡ min l.active_time k.active_time
unfolding tightened_by
time-tightened l k = refl

-- `l` allows no more than `k` does.
pub record IsWithin (l k : Limits) : Type 0 where
  pub within_resource : (r : Resource) → get l.resources r ≤ get k.resources r
  pub within_time : l.active_time ≤ k.active_time

pub limits_ext :
    (l k : Limits)
    → ((r : Resource) → get l.resources r ≡ get k.resources r)
    → l.active_time ≡ k.active_time
    → l ≡ k
limits_ext l k h t =
    λ i. record { resources = amounts_ext l.resources k.resources h i; active_time = t i }

-- Tightening is the greatest limit below both.
pub tightened_by-IsWithin :
    (m l k : Limits) → IsWithin m (tightened_by l k) ↔ (IsWithin m l × IsWithin m k)
tightened_by-IsWithin m l k = (split, join)
  where
    split : IsWithin m (tightened_by l k) → IsWithin m l × IsWithin m k
    split w = (
      record {
        within_resource = λ r. omega (arith, w.within_resource r, get-tightened l k r);
        within_time = omega (arith, w.within_time, time-tightened l k);
      },
      record {
        within_resource = λ r. omega (arith, w.within_resource r, get-tightened l k r);
        within_time = omega (arith, w.within_time, time-tightened l k);
      },
    )

    join : IsWithin m l × IsWithin m k → IsWithin m (tightened_by l k)
    join (v, w) = record {
      within_resource =
          λ r. omega (arith, v.within_resource r, w.within_resource r, get-tightened l k r);
      within_time = omega (arith, v.within_time, w.within_time, time-tightened l k);
    }

-- Tightening by `k` leaves `l` alone exactly when `l` is within `k`.
pub tightened_by-fixed : (l k : Limits) → (tightened_by l k ≡ l) ↔ IsWithin l k
tightened_by-fixed l k = (within, fixed)
  where
    within : tightened_by l k ≡ l → IsWithin l k
    within e = record {
      within_resource =
          λ r. omega (arith, get-tightened l k r, ap (λ (x : Limits). get x.resources r) e);
      within_time = omega (arith, time-tightened l k, ap (λ (x : Limits). x.active_time) e);
    }

    fixed : IsWithin l k → tightened_by l k ≡ l
    fixed w =
        limits_ext (tightened_by l k) l
          (λ r. omega (arith, get-tightened l k r, w.within_resource r))
          (omega (arith, time-tightened l k, w.within_time))
