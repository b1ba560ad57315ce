-- ===== src/Runtime/Metrics.antt =====
-- internal/runtime/metrics.go: AgentMetrics and MetricsCollector. Durations, `float64` seconds in
-- the code, are whole nanoseconds, and a rate is kept as the pair of its numerator and denominator.
pub mod Counts
use kube_ops_agent.Base.{
  ◌==◌, if◌then◌else◌, lookup, insert, ℕ, suc, ◌+◌, ◌-◌, ◌/◌, String, Bool, Option, none, some,
  List, [],
}

pub record AgentMetrics : Type 0 where
  pub total_executions : ℕ
  pub successful_executions : ℕ
  pub failed_executions : ℕ
  pub total_duration : ℕ
  pub last_duration : ℕ

abbrev pub new_agent_metrics : AgentMetrics
new_agent_metrics = record {
  total_executions = 0;
  successful_executions = 0;
  failed_executions = 0;
  total_duration = 0;
  last_duration = 0;
}

pub record Ratio : Type 0 where
  pub num : ℕ
  pub den : ℕ

unfoldable pub success_rate : AgentMetrics → Ratio
success_rate m =
    if m.total_executions == 0
    then record { num = 1; den = 1 }
    else record { num = m.successful_executions; den = m.total_executions }

unfoldable pub avg_duration : AgentMetrics → Ratio
avg_duration m =
    if m.total_executions == 0
    then record { num = 0; den = 1 }
    else record { num = m.total_duration; den = m.total_executions }

pub record MetricsCollector : Type 0 where
  pub agent_metrics : List (String × AgentMetrics)
  pub start_time : ℕ

unfoldable pub new_metrics_collector : ℕ → MetricsCollector
new_metrics_collector now = record { agent_metrics = []; start_time = now }

abbrev pub metrics_or_new : Option AgentMetrics → AgentMetrics
metrics_or_new none = new_agent_metrics
metrics_or_new (some m) = m

unfoldable pub recorded : Bool → ℕ → AgentMetrics → AgentMetrics
recorded success duration m =
    let timed = record m {
      total_executions = m.total_executions + 1;
      total_duration = m.total_duration + duration;
      last_duration = duration;
    } in
    if success
    then record timed { successful_executions = m.successful_executions + 1 }
    else record timed { failed_executions = m.failed_executions + 1 }

unfoldable pub record_execution : String → Bool → ℕ → MetricsCollector → MetricsCollector
unfolding recorded
record_execution name success duration c =
    let m = metrics_or_new (lookup name c.agent_metrics) in
    record c { agent_metrics = insert name (recorded success duration m) c.agent_metrics }

unfoldable pub uptime : ℕ → MetricsCollector → ℕ
uptime now c = now - c.start_time
