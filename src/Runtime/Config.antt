-- ===== src/Runtime/Config.antt =====
-- internal/runtime/production.go: ProductionConfig and its defaults. An `int` or a duration that
-- the code tests by `<= 0` is a natural number, where 0 stands for every value that is not
-- positive. Rates are whole tokens per second.
use kube_ops_agent.Base.{ℕ, ◌*◌, Bool, true, String}

abbrev pub second : ℕ
second = 1000000000

pub record ProductionConfig : Type 0 where
  pub max_concurrent_agents : ℕ
  pub max_concurrent_kubectl : ℕ
  pub kubectl_rate_limit : ℕ
  pub api_rate_limit : ℕ
  pub kubectl_timeout : ℕ
  pub agent_timeout : ℕ
  pub circuit_breaker_threshold : ℕ
  pub circuit_breaker_timeout : ℕ
  pub state_file : String
  pub persist_state : Bool
  pub shutdown_timeout : ℕ
  pub min_backoff : ℕ
  pub max_backoff : ℕ
  pub backoff_multiplier : ℕ

abbrev pub default_config : ProductionConfig
default_config = record {
  max_concurrent_agents = 5;
  max_concurrent_kubectl = 10;
  kubectl_rate_limit = 5;
  api_rate_limit = 10;
  kubectl_timeout = 60 * second;
  agent_timeout = 300 * second;
  circuit_breaker_threshold = 3;
  circuit_breaker_timeout = 300 * second;
  state_file = "/tmp/k8s-ops-agent-go-state.json";
  persist_state = true;
  shutdown_timeout = 30 * second;
  min_backoff = 1 * second;
  max_backoff = 60 * second;
  backoff_multiplier = 2;
}
