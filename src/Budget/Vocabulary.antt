-- ===== src/Budget/Vocabulary.antt =====
-- The other types of crates/core/core/src/budget.rs: requests, usage evidence, stop reasons and
-- the reports that the ledger hands out.
use jingwei.Base.{ℕ, Bool, Option, List}
use jingwei.Base.Text.{Text, Text-discrete}
use jingwei.Budget.Amounts.{Resource, Resource-discrete, Amounts, Limits}

pub record Identity : Type 0 where
  pub task_id : Text
  pub session_id : Text
  pub agent_key : Text

unfoldable pub Identity-discrete : Discrete Identity
Identity-discrete = hlevel Text-discrete

pub data TokenMode : Type 0 where
  hard soft : TokenMode

unfoldable pub TokenMode-discrete : Discrete TokenMode
TokenMode-discrete = hlevel

pub data TokenEvidence : Type 0 where
  verified_upper_bound estimate : TokenEvidence

unfoldable pub TokenEvidence-discrete : Discrete TokenEvidence
TokenEvidence-discrete = hlevel

pub record Request : Type 0 where
  pub amounts : Amounts
  pub input_tokens : TokenEvidence
  pub output_tokens : TokenEvidence

-- `BudgetRequest::new`: tokens are estimates until trusted code says otherwise.
unfoldable pub new_request : Amounts → Request
new_request amounts = record {
  amounts = amounts;
  input_tokens = TokenEvidence.estimate;
  output_tokens = TokenEvidence.estimate;
}

-- `BudgetRequest::with_token_evidence`.
unfoldable pub with_token_evidence : Request → TokenEvidence → TokenEvidence → Request
with_token_evidence request input output = record request {
  input_tokens = input;
  output_tokens = output;
}

pub data UsageValue : Type 0 where
  actual estimated : ℕ → UsageValue
  unknown : UsageValue

pub record Usage : Type 0 where
  pub input_tokens : UsageValue
  pub output_tokens : UsageValue
  pub tool_output_bytes : UsageValue

-- `BudgetUsage::actual`.
unfoldable pub actual_usage : ℕ → ℕ → ℕ → Usage
actual_usage input output bytes = record {
  input_tokens = actual input;
  output_tokens = actual output;
  tool_output_bytes = actual bytes;
}

pub record UsageTotals : Type 0 where
  pub actual : ℕ
  pub estimated : ℕ
  pub unknown : ℕ

pub record UsageReport : Type 0 where
  pub input_tokens : UsageTotals
  pub output_tokens : UsageTotals
  pub tool_output_bytes : UsageTotals

pub data StopReason : Type 0 where
  recovery_required : StopReason
  resource_limit : Resource → StopReason
  active_time : StopReason
  usage_exceeded_reservation : Resource → StopReason
  abandoned_reservation run_abandoned clock_moved_backwards accounting_overflow : StopReason
  identity_mismatch invalid_request : StopReason

unfoldable pub StopReason-discrete : Discrete StopReason
StopReason-discrete = hlevel Resource-discrete

pub record EventCounts : Type 0 where
  pub model_requests : ℕ
  pub model_results : ℕ
  pub tool_calls : ℕ
  pub tool_results : ℕ

pub record Metrics : Type 0 where
  pub session_wait : ℕ
  pub model_queue : ℕ
  pub model_execution : ℕ
  pub tool_execution : ℕ
  pub confirmed : EventCounts
  pub unconfirmed : EventCounts

pub data EventKind : Type 0 where
  model_request model_result tool_call tool_result : EventKind

pub record RunReport : Type 0 where
  pub turn_id : Option Text
  pub metrics : Metrics
  pub limits : Limits
  pub charged : Amounts
  pub reserved : Amounts
  pub active_time : ℕ
  pub cleanup_time : ℕ
  pub is_open : Bool
  pub stop : Option StopReason

pub record Pending : Type 0 where
  pub id : ℕ
  pub request : Request
  pub started : Bool
  pub abandoned : Bool
  pub failed_usage : Option Usage

pub record Report : Type 0 where
  pub identity : Identity
  pub limits : Limits
  pub token_mode : TokenMode
  pub charged : Amounts
  pub reserved : Amounts
  pub active_time : ℕ
  pub cleanup_time : ℕ
  pub stop : Option StopReason
  pub usage : UsageReport
  pub run : Option RunReport
  pub pending : List Pending

abbrev pub no_counts : EventCounts
no_counts = record { model_requests = 0; model_results = 0; tool_calls = 0; tool_results = 0 }

abbrev pub no_metrics : Metrics
no_metrics = record {
  session_wait = 0;
  model_queue = 0;
  model_execution = 0;
  tool_execution = 0;
  confirmed = no_counts;
  unconfirmed = no_counts;
}

abbrev pub no_totals : UsageTotals
no_totals = record { actual = 0; estimated = 0; unknown = 0 }

abbrev pub no_usage : UsageReport
no_usage = record {
  input_tokens = no_totals;
  output_tokens = no_totals;
  tool_output_bytes = no_totals;
}
