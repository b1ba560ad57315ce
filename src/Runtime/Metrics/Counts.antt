-- ===== src/Runtime/Metrics/Counts.antt =====
-- What a history of executions leaves in the metrics.
use kube_ops_agent.Base.{
  if◌then◌else◌, same, Bool-cases, length, keep, lookup, lookup-insert, ℕ, ◌+◌, ◌≤◌, ◌<◌, String,
  ◌≡◌, refl, inl, inr, Bool, not, List, [], ◌∷◌, arith,
}
use kube_ops_agent.Runtime.Metrics.{
  AgentMetrics, MetricsCollector, new_agent_metrics, new_metrics_collector, metrics_or_new,
  recorded, record_execution, success_rate,
}

pub record Execution : Type 0 where
  pub agent : String
  pub success : Bool
  pub duration : ℕ

pub run : MetricsCollector → List Execution → MetricsCollector
run c [] = c
run c (e ∷ es) = run (record_execution e.agent e.success e.duration c) es

abbrev pub concerns : String → Execution → Bool
concerns agent e = same agent e.agent

abbrev pub succeeded : Execution → Bool
succeeded e = e.success

abbrev pub failed : Execution → Bool
failed e = not e.success

pub total_time : List Execution → ℕ
total_time [] = 0
total_time (e ∷ es) = e.duration + total_time es

abbrev pub metrics_of : String → MetricsCollector → AgentMetrics
metrics_of agent c = metrics_or_new (lookup agent c.agent_metrics)

pub metrics_of-record_execution :
    (agent : String) (e : Execution) (c : MetricsCollector)
    → metrics_of agent (record_execution e.agent e.success e.duration c) ≡ (
        if concerns agent e
        then recorded e.success e.duration (metrics_of agent c)
        else metrics_of agent c)
unfolding record_execution
metrics_of-record_execution agent e c = ground (
  arith,
  lookup-insert e.agent agent (recorded e.success e.duration (metrics_of e.agent c))
      c.agent_metrics,
)

own_run : AgentMetrics → List Execution → AgentMetrics
own_run m [] = m
own_run m (e ∷ es) = own_run (recorded e.success e.duration m) es

metrics_of-run :
    (agent : String) (c : MetricsCollector) (es : List Execution)
    → metrics_of agent (run c es) ≡ own_run (metrics_of agent c) (keep (concerns agent) es)
unfolding run own_run
metrics_of-run agent c [] = refl
metrics_of-run agent c (e ∷ es) =
    let next = record_execution e.agent e.success e.duration c in
    elim (Bool-cases (concerns agent e)) [
      | inl hit ↦ rw (metrics_of-run agent next es, metrics_of-record_execution agent e c, hit) refl
      | inr miss ↦
          rw (metrics_of-run agent next es, metrics_of-record_execution agent e c, miss) refl
    ]

own_run-counts :
    (m : AgentMetrics) (es : List Execution)
    → let n = own_run m es in
      (n.total_executions ≡ m.total_executions + length es)
      × (n.successful_executions ≡ m.successful_executions + length (keep succeeded es))
      × (n.failed_executions ≡ m.failed_executions + length (keep failed es))
      × (n.total_duration ≡ m.total_duration + total_time es)
unfolding own_run recorded total_time
own_run-counts m [] = (omega arith, omega arith, omega arith, omega arith)
own_run-counts m (e ∷ es) = ground (arith, own_run-counts (recorded e.success e.duration m) es)

length-succeeded-failed :
    (es : List Execution) → length (keep succeeded es) + length (keep failed es) ≡ length es
length-succeeded-failed [] = refl
length-succeeded-failed (e ∷ es) = ground (arith, length-succeeded-failed es)

-- After any executions, the metrics of an agent count its executions, those that succeeded and
-- those that failed, which together are all, and sum up their durations.
pub run-counts :
    (now : ℕ) (agent : String) (es : List Execution)
    → let m = metrics_of agent (run (new_metrics_collector now) es) in
      let own = keep (concerns agent) es in
      (m.total_executions ≡ length own)
      × (m.successful_executions ≡ length (keep succeeded own))
      × (m.failed_executions ≡ length (keep failed own))
      × (m.successful_executions + m.failed_executions ≡ m.total_executions)
      × (m.total_duration ≡ total_time own)
unfolding new_metrics_collector lookup
run-counts now agent es =
    let own = keep (concerns agent) es in
    rw (metrics_of-run agent (new_metrics_collector now) es)
      (ground (arith, own_run-counts new_agent_metrics own, length-succeeded-failed own))

-- The success rate of such metrics is a fraction between 0 and 1.
pub success_rate-run :
    (now : ℕ) (agent : String) (es : List Execution)
    → let r = success_rate (metrics_of agent (run (new_metrics_collector now) es)) in
      (r.num ≤ r.den) × (0 < r.den)
unfolding success_rate
success_rate-run now agent es = ground (arith, run-counts now agent es)
