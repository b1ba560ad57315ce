-- ===== src/Operations/Enrichment.antt =====
-- internal/operations/manager.go: GetSummaryWithEnrichment after its first loop: what the metrics, the
-- state and the circuit breaker add to the summaries. `iso` is Format(time.RFC3339) of a Unix time in
-- seconds. The values that toInt and toFloat64 read are those that GetMetrics enters, which have the
-- types that they expect.
pub mod Sources
use kube_ops_agent.Base.{
  ltb, ◌==◌, if◌then◌else◌, same, lookup, insert, ℕ, zero, suc, ◌-◌, ◌/◌, String, ap, Bool, true,
  false, ◌&&◌, Option, none, some, List, [], ◌∷◌, map,
}
use kube_ops_agent.Operations.{ExecutionRecord, Manager}
use kube_ops_agent.Operations.Summaries.{Summary, new_summary, get_summary}
use kube_ops_agent.Runtime.Config.{second}
use kube_ops_agent.Runtime.Circuit.{Breaker, get_status}
use kube_ops_agent.Runtime.Metrics.{
  AgentMetrics, MetricsCollector, Ratio, success_rate, avg_duration,
}
use kube_ops_agent.Runtime.State.{AgentState, StatePersistence, get_state_snapshot}

-- `EnrichmentSources`
pub record EnrichmentSources : Type 0 where
  pub metrics : Option MetricsCollector
  pub state : Option StatePersistence
  pub circuit : Option Breaker

-- A Unix time in seconds: from the epoch on, or that of Go's zero time, which is negative.
pub data Stamp : Type 0 where
  seconds : ℕ → Stamp
  zero_time : Stamp

-- A summary with all its fields.
pub record Enriched : Type 0 where
  pub summary : Summary
  pub success_rate : Ratio
  pub last_run_at : Stamp
  pub last_run_at_iso : String
  pub last_success_at_iso : String
  pub consecutive_failures : ℕ
  pub circuit_breaker_open : Bool

-- `Unix`
abbrev unix : ℕ → ℕ
unix t = t / second

-- LastRunAt after a record of the agent: the code means to skip the zero time, but skips the epoch.
abbrev after_record : Option ℕ → Stamp → Stamp
after_record none t = zero_time
after_record (some f) t = if unix f == 0 then t else seconds (unix f)

-- What the first loop leaves in LastRunAt of an agent.
unfoldable pub last_run_at : String → List ExecutionRecord → Stamp → Stamp
last_run_at name [] t = t
last_run_at name (r ∷ rs) t =
    last_run_at name rs (if same name r.agent_name then after_record r.finished_at t else t)

abbrev plain : Summary → Stamp → Enriched
plain s t = record {
  summary = s;
  success_rate = record { num = 0; den = 1 };
  last_run_at = t;
  last_run_at_iso = "";
  last_success_at_iso = "";
  consecutive_failures = 0;
  circuit_breaker_open = false;
}

unfoldable pub plain_all : List ExecutionRecord → List (String × Summary) → List (String × Enriched)
unfolding last_run_at
plain_all rs [] = []
plain_all rs ((name, s) ∷ more) =
    (name, plain s (last_run_at name rs (seconds 0))) ∷ plain_all rs more

abbrev pub enriched_or_new : String → Option Enriched → Enriched
enriched_or_new name none = plain (new_summary name) (seconds 0)
enriched_or_new name (some e) = e

-- A loop over a source's map: each of its agents has a summary after it, changed by `f`.
unfoldable pub merged :
    {A : Type 0}
    → (A → Enriched → Enriched)
    → List (String × A)
    → List (String × Enriched)
    → List (String × Enriched)
merged f [] agg = agg
merged f ((name, a) ∷ more) agg =
    merged f more (insert name (f a (enriched_or_new name (lookup name agg))) agg)

unfoldable pub with_metrics : AgentMetrics → Enriched → Enriched
unfolding success_rate avg_duration
with_metrics am e = record e {
  summary = record e.summary {
    total_executions = am.total_executions;
    successful_executions = am.successful_executions;
    failed_executions = am.failed_executions;
    avg_num = (avg_duration am).num;
    avg_den = (avg_duration am).den;
    last_duration = am.last_duration;
  };
  success_rate = success_rate am;
}

module _ (iso : ℕ → String) where
  -- The times of the state are Unix times in seconds already.
  unfoldable pub with_state : AgentState → Enriched → Enriched
  with_state ast e = record e {
    last_run_at = if ltb 0 ast.last_run_at then seconds ast.last_run_at else e.last_run_at;
    last_run_at_iso = if ltb 0 ast.last_run_at then iso ast.last_run_at else e.last_run_at_iso;
    last_success_at_iso =
        if ltb 0 ast.last_success_at then iso ast.last_success_at else e.last_success_at_iso;
    consecutive_failures = ast.consecutive_failures;
  }

-- The loop over the open circuits: only agents with a summary are marked.
unfoldable pub marked : List String → List (String × Enriched) → List (String × Enriched)
marked [] agg = agg
marked (name ∷ names) agg = marked names (elim (lookup name agg) [
  | none ↦ agg
  | some e ↦ insert name (record e { circuit_breaker_open = true }) agg
])

-- The success rate of the last loop.
unfoldable pub rated : Enriched → Enriched
rated e =
    if ltb 0 e.summary.total_executions && e.success_rate.num == 0
    then record e {
      success_rate = record {
        num = e.summary.successful_executions;
        den = e.summary.total_executions;
      };
    }
    else e

unfoldable pub rated_all : List (String × Enriched) → List (String × Enriched)
unfolding rated
rated_all [] = []
rated_all ((name, e) ∷ more) = (name, rated e) ∷ rated_all more

module _ (iso : ℕ → String) where
  -- The summaries by agent; `now` is the time of GetStatus.
  unfoldable pub get_summary_with_enrichment :
      ℕ → Option EnrichmentSources → Manager → List (String × Enriched)
  unfolding plain_all merged with_metrics with_state marked rated_all
  get_summary_with_enrichment now src m =
      let agg = plain_all m.records (get_summary m) in
      rated_all (elim src [
        | none ↦ agg
        | some s ↦
            let agg₁ : List (String × Enriched) = elim s.metrics [
              | none ↦ agg
              | some c ↦ merged with_metrics c.agent_metrics agg
            ] in
            let agg₂ : List (String × Enriched) = elim s.state [
              | none ↦ agg₁
              | some st ↦ merged (with_state iso) (get_state_snapshot st) agg₁
            ] in
            elim s.circuit [ none ↦ agg₂ | some cb ↦ marked (get_status now cb).open_circuits agg₂ ]
      ])
