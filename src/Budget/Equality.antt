-- ===== src/Budget/Equality.antt =====
-- The derived `==` of the reports, the audit records and the images.
unfoldable use jingwei.Base.{ℕ_discrete}
use jingwei.Base.{Bool, Option, List, is_yes}
use jingwei.Base.Text.{Text-discrete}
use jingwei.Budget.Amounts.{Amounts-discrete, Limits-discrete}
use jingwei.Budget.Vocabulary.{
  Identity-discrete, TokenMode-discrete, TokenEvidence-discrete, StopReason, StopReason-discrete,
  Request, Usage, UsageValue, UsageTotals, UsageReport, EventCounts, Metrics, RunReport, Pending,
  Report,
}
use jingwei.Budget.Audit.{
  EventCursor-discrete, GrantRequest, GrantRecord, RecoveryRequest, RecoveryRecord,
}
use jingwei.Budget.Checkpoint.{Checkpoint, Version-discrete}

unfoldable pub stop-discrete : Discrete (Option StopReason)
stop-discrete = hlevel StopReason-discrete

unfoldable pub Request-discrete : Discrete Request
Request-discrete = hlevel (Amounts-discrete, TokenEvidence-discrete)

unfoldable pub UsageValue-discrete : Discrete UsageValue
UsageValue-discrete = hlevel ℕ_discrete

unfoldable pub Usage-discrete : Discrete Usage
Usage-discrete = hlevel UsageValue-discrete

unfoldable pub UsageTotals-discrete : Discrete UsageTotals
UsageTotals-discrete = hlevel ℕ_discrete

unfoldable pub UsageReport-discrete : Discrete UsageReport
UsageReport-discrete = hlevel UsageTotals-discrete

unfoldable pub EventCounts-discrete : Discrete EventCounts
EventCounts-discrete = hlevel ℕ_discrete

unfoldable pub Metrics-discrete : Discrete Metrics
Metrics-discrete = hlevel (EventCounts-discrete, ℕ_discrete)

unfoldable pub RunReport-discrete : Discrete RunReport
RunReport-discrete = hlevel (
  Text-discrete, Metrics-discrete, Limits-discrete, Amounts-discrete, StopReason-discrete,
  ℕ_discrete,
)

unfoldable pub Pending-discrete : Discrete Pending
Pending-discrete = hlevel (Request-discrete, Usage-discrete, ℕ_discrete)

unfoldable pub Report-discrete : Discrete Report
Report-discrete = hlevel (
  Identity-discrete, Limits-discrete, TokenMode-discrete, Amounts-discrete, StopReason-discrete,
  UsageReport-discrete, RunReport-discrete, Pending-discrete, ℕ_discrete,
)

unfoldable pub GrantRequest-discrete : Discrete GrantRequest
GrantRequest-discrete = hlevel (Text-discrete, Limits-discrete)

unfoldable pub GrantRecord-discrete : Discrete GrantRecord
GrantRecord-discrete =
    hlevel (
      GrantRequest-discrete, EventCursor-discrete, Limits-discrete, StopReason-discrete, ℕ_discrete,
    )

unfoldable pub RecoveryRequest-discrete : Discrete RecoveryRequest
RecoveryRequest-discrete = hlevel (Text-discrete, ℕ_discrete)

unfoldable pub RecoveryRecord-discrete : Discrete RecoveryRecord
RecoveryRecord-discrete =
    hlevel
      (RecoveryRequest-discrete, EventCursor-discrete, Report-discrete, Text-discrete, ℕ_discrete)

unfoldable pub Checkpoint-discrete : Discrete Checkpoint
Checkpoint-discrete = hlevel (
  Version-discrete, EventCursor-discrete, Report-discrete, GrantRecord-discrete,
  RecoveryRecord-discrete, Text-discrete, ℕ_discrete,
)

abbrev pub stop_eq : Option StopReason → Option StopReason → Bool
stop_eq a b = is_yes (stop-discrete a b)

unfoldable pub grants-discrete : Discrete (List GrantRecord)
grants-discrete = hlevel GrantRecord-discrete
