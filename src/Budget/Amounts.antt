-- ===== src/Budget/Amounts.antt =====
-- `BudgetResource`, `BudgetAmounts` and `BudgetLimits` of crates/core/core/src/budget.rs. A u64
-- is a natural number and a `Duration` its nanoseconds; their ranges are in the invariants.
pub mod Laws
use jingwei.Base.{ℕ, ◌*◌, min, Bool, true, false, List, [], ◌∷◌, ℕ_discrete, is_yes}

pub data Resource : Type 0 where
  steps model_requests tool_calls corrections : Resource
  input_tokens output_tokens tool_output_bytes : Resource

-- `BudgetResource::ALL`.
abbrev pub all_resources : List Resource
all_resources =
    Resource.steps ∷ Resource.model_requests ∷ Resource.tool_calls ∷ Resource.corrections
    ∷ Resource.input_tokens ∷ Resource.output_tokens ∷ Resource.tool_output_bytes ∷ []

abbrev pub is_attempt : Resource → Bool
is_attempt Resource.steps = true
is_attempt Resource.model_requests = true
is_attempt Resource.tool_calls = true
is_attempt Resource.corrections = true
is_attempt _ = false

pub record Amounts : Type 0 where
  pub steps : ℕ
  pub model_requests : ℕ
  pub tool_calls : ℕ
  pub corrections : ℕ
  pub input_tokens : ℕ
  pub output_tokens : ℕ
  pub tool_output_bytes : ℕ

-- `BudgetAmounts::default()`.
abbrev pub no_amounts : Amounts
no_amounts = record {
  steps = 0;
  model_requests = 0;
  tool_calls = 0;
  corrections = 0;
  input_tokens = 0;
  output_tokens = 0;
  tool_output_bytes = 0;
}

unfoldable pub get : Amounts → Resource → ℕ
get a Resource.steps = a.steps
get a Resource.model_requests = a.model_requests
get a Resource.tool_calls = a.tool_calls
get a Resource.corrections = a.corrections
get a Resource.input_tokens = a.input_tokens
get a Resource.output_tokens = a.output_tokens
get a Resource.tool_output_bytes = a.tool_output_bytes

unfoldable pub set : Amounts → Resource → ℕ → Amounts
set a Resource.steps v = record a { steps = v }
set a Resource.model_requests v = record a { model_requests = v }
set a Resource.tool_calls v = record a { tool_calls = v }
set a Resource.corrections v = record a { corrections = v }
set a Resource.input_tokens v = record a { input_tokens = v }
set a Resource.output_tokens v = record a { output_tokens = v }
set a Resource.tool_output_bytes v = record a { tool_output_bytes = v }

pub record Limits : Type 0 where
  pub resources : Amounts
  pub active_time : ℕ

-- The loop of `tightened_by`: each resource in turn is set to the smaller bound.
unfoldable pub tighten_each : List Resource → Amounts → Amounts → Amounts
tighten_each [] mine other = mine
tighten_each (r ∷ rs) mine other =
    tighten_each rs (set mine r (min (get mine r) (get other r))) other

unfoldable pub tightened_by : Limits → Limits → Limits
unfolding tighten_each get set
tightened_by mine other = record {
  resources = tighten_each all_resources mine.resources other.resources;
  active_time = min mine.active_time other.active_time;
}

-- `BudgetLimits::default()`.
unfoldable pub default_limits : Limits
default_limits = record {
  resources = record {
    steps = 128;
    model_requests = 128;
    tool_calls = 128;
    corrections = 32;
    input_tokens = 4_000_000;
    output_tokens = 1_000_000;
    tool_output_bytes = 16 * 1024 * 1024;
  };
  active_time = 600 * 1_000_000_000;
}

unfoldable pub Resource-discrete : Discrete Resource
Resource-discrete = hlevel

unfoldable pub Amounts-discrete : Discrete Amounts
Amounts-discrete = hlevel ℕ_discrete

unfoldable pub Limits-discrete : Discrete Limits
Limits-discrete = hlevel (Amounts-discrete, ℕ_discrete)

-- The derived `==`.
abbrev pub amounts_eq : Amounts → Amounts → Bool
amounts_eq a b = is_yes (Amounts-discrete a b)

abbrev pub limits_eq : Limits → Limits → Bool
limits_eq a b = is_yes (Limits-discrete a b)
