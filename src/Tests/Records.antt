-- ===== src/Tests/Records.antt =====
-- internal/operations, internal/plan and the query of the history in internal/httpapi: a history, its
-- summaries and a plan at concrete inputs.
use mathlib.Core.List.{reverse}
use kube_ops_agent.Base.{
  str_dec, length, take, drop, keep, is_member, lookup, HasDistinctKeys, ℕ, ◌+◌, ◌*◌, String, ◌≡◌,
  refl, Bool, true, false, none, some, List, [], ◌∷◌, arith,
}
use kube_ops_agent.Operations.{ExecutionRecord, Manager, Query, passes}
use kube_ops_agent.Operations.Pages.{walk, walk-all}
use kube_ops_agent.Operations.Enrichment.{EnrichmentSources, Enriched, get_summary_with_enrichment}
use kube_ops_agent.Operations.Enrichment.Sources.{Shows, get_summary_with_enrichment-Shows}
use kube_ops_agent.Runtime.Config.{second}
use kube_ops_agent.Runtime.Metrics.{AgentMetrics, MetricsCollector}
use kube_ops_agent.Runtime.State.{AgentState, StatePersistence, get_state_snapshot}
use kube_ops_agent.Runtime.Circuit.{Breaker, get_status}
use kube_ops_agent.Httpapi.Queries.{OpsQuery, handle_operations, history as answered}
use kube_ops_agent.Httpapi.Queries.Bounds.{asked, handle_operations-history}
use kube_ops_agent.Agent.Orchestration.{
  ok, Chat, without_fence, text_of, plan_of, plan_prompt, plan_question, plan as plan_inspection,
}
use kube_ops_agent.Agent.Orchestration.Plans.{plan-IsReady}
use kube_ops_agent.Plan.Parsing.{IsReady}
use kube_ops_agent.Plan.{
  from_json, from_object, new_steps, legacy_steps, get_string, get_bool, parallel, Step,
  InspectionPlan, JsonDecoder,
}

abbrev format : ℕ → String
format t = "2026-01-01T00:00:00Z"

abbrev made : String → Bool → ℕ → ExecutionRecord
made name success t = record {
  agent_name = name;
  success = success;
  started_at = some t;
  finished_at = some (t + 3);
  executed_at = "";
  timestamp = 0;
  duration = 3;
  error = "";
}

abbrev past : List ExecutionRecord
past = made "pods" true 1 ∷ made "nodes" false 5 ∷ made "pods" false 9 ∷ []

abbrev manager : Manager
manager = record { records = past }

-- The records of "pods".
abbrev query : Query
query = record { agent_name = "pods"; success_only = none; start_time = none; end_time = none }

-- No source adds to the summaries.
abbrev no_sources : EnrichmentSources
no_sources = record { metrics = none; state = none; circuit = none }

-- The second of the records of "pods", as a request asks for it.
abbrev ops : OpsQuery
ops = record {
  query_type = "history";
  agent_name = "pods";
  limit = 1;
  offset = 1;
  success_only = none;
  start_time = none;
  end_time = none;
}

handle_operations-history_example :
    handle_operations format 0 (some manager) no_sources ops
    ≡ some (
        answered
          (length (reverse (keep (passes (asked ops)) manager.records)))
          1
          1
          (take 1 (drop 1 (reverse (keep (passes (asked ops)) manager.records)))))
handle_operations-history_example =
    handle_operations-history format 0 manager no_sources ops refl (omega arith)

walk-all_example : walk query 1 2 manager ≡ some (reverse (keep (passes query) manager.records))
unfolding passes str_dec
walk-all_example = walk-all query 1 2 manager (omega arith) (omega arith)

abbrev counted : AgentMetrics
counted = record {
  total_executions = 5;
  successful_executions = 4;
  failed_executions = 1;
  total_duration = 15;
  last_duration = 3;
}

abbrev kept : AgentState
kept = record {
  agent_name = "nodes";
  last_run_at = 7 * second;
  last_success_at = 0;
  consecutive_failures = 1;
  total_runs = 5;
  total_failures = 1;
}

abbrev metrics : MetricsCollector
metrics = record { agent_metrics = ("nodes", counted) ∷ []; start_time = 0 }

abbrev state : StatePersistence
state = record {
  persist_state = true;
  state_file = "state.json";
  state = record { agents = ("nodes", kept) ∷ []; pipelines = []; last_saved = 0; version = "1.0" };
  dirty = false;
}

-- The circuit of "nodes" is open until the tenth second.
abbrev breaker : Breaker
breaker = record {
  threshold = 1;
  timeout = 10 * second;
  failures = ("nodes", 1) ∷ [];
  open_until = ("nodes", 10 * second) ∷ [];
}

metrics_of_nodes : lookup "nodes" metrics.agent_metrics ≡ some counted
unfolding lookup str_dec
metrics_of_nodes = refl

state_of_nodes : lookup "nodes" (get_state_snapshot state) ≡ some kept
unfolding lookup str_dec get_state_snapshot
state_of_nodes = refl

state_keys : HasDistinctKeys (get_state_snapshot state)
unfolding get_state_snapshot
state_keys = (λ h. h, tt)

get_summary_with_enrichment-Shows_example :
    (e : Enriched) × (lookup "nodes" (
        get_summary_with_enrichment format
          (8 * second)
          (some (record { metrics = some metrics; state = some state; circuit = some breaker }))
          manager)
      ≡ some e)
    × Shows format counted kept
        (is_member "nodes" (get_status (8 * second) breaker).open_circuits)
        e
get_summary_with_enrichment-Shows_example =
    get_summary_with_enrichment-Shows format (8 * second) metrics state breaker manager "nodes"
      counted kept (λ h. h, tt) state_keys metrics_of_nodes state_of_nodes

abbrev step : Step
step = record {
  agents = "pods" ∷ "nodes" ∷ "pods" ∷ [];
  mode = parallel;
  condition = "";
  depends_on = [];
  focus_areas = [];
  timeout_secs = 0;
}

-- The raw values of a plan in the legacy format.
data Raw : Type 0 where
  names : List String → Raw

abbrev strings_of : Raw → List String → List String × Bool
strings_of (names ns) x = (ns, true)

abbrev legacy : JsonDecoder Raw
legacy = record {
  object = λ _. some (("agents_to_invoke", names ("pods" ∷ [])) ∷ []);
  string = λ _ x. (x, false);
  bool = λ _ x. (x, false);
  strings = strings_of;
  steps = λ _. ([], false);
}

abbrev plan : InspectionPlan
plan = record {
  assessment = "";
  priority = "normal";
  steps = record step { agents = "pods" ∷ [] } ∷ [];
  reasoning = "";
  allow_replan = false;
  focus_areas = [];
  skip_agents = [];
  skip_reason = "";
  raw_json = "{\"agents_to_invoke\":[\"pods\"]}";
}

-- The model answers the plan's text, and the state counts its calls.
abbrev answers : Chat ℕ
answers w system user = (w + 1, ok (some "{\"agents_to_invoke\":[\"pods\"]}"))

abbrev same_text : String → String
same_text s = s

plans :
    plan_inspection legacy same_text
      (λ s. none)
      (λ ss. "[]")
      (λ e. "error")
      (some answers)
      []
      "inspect"
      0
    ≡ (1, ok plan)
unfolding plan_inspection plan_of text_of without_fence from_json from_object str_dec lookup
    new_steps legacy_steps get_string get_bool
plans = refl

plan-IsReady_example :
    (t : String) × (answers 0 (plan_prompt "[]") (plan_question "inspect") ≡ (1, ok (some t)))
    × IsReady (without_fence same_text (λ s. none) t) plan
plan-IsReady_example =
    plan-IsReady legacy same_text (λ s. none) (λ ss. "[]") (λ e. "error") answers [] "inspect" 0 1
      plan plans
