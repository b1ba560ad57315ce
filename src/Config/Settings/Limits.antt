-- ===== src/Config/Settings/Limits.antt =====
-- The runtime's configuration that the settings give.
use kube_ops_agent.Base.{if◌then◌else◌, same, ℕ, ◌≤◌, String, ◌≡◌, refl, ◌≢◌, Option, some, arith}
use kube_ops_agent.Config.Settings.{
  Settings, parse_duration, duration, positive, to_production_config,
}
use kube_ops_agent.Runtime.Config.{ProductionConfig, default_config}

-- Every limit is positive.
pub record IsLimited (c : ProductionConfig) : Type 0 where
  pub agents : 1 ≤ c.max_concurrent_agents
  pub kubectl : 1 ≤ c.max_concurrent_kubectl
  pub kubectl_rate : 1 ≤ c.kubectl_rate_limit
  pub api_rate : 1 ≤ c.api_rate_limit
  pub threshold : 1 ≤ c.circuit_breaker_threshold
  pub multiplier : 1 ≤ c.backoff_multiplier

module _ (trim_space : String → String) (parse : String → Option ℕ) where
  -- Whatever the settings say, the numbers of agents and of kubectl processes, both rates, the circuit's threshold
  -- and the multiplier of the backoff are positive.
  pub to_production_config-IsLimited :
      (s : Settings) → IsLimited (to_production_config trim_space parse s)
  unfolding to_production_config
  to_production_config-IsLimited s = record {
    agents = ground arith;
    kubectl = ground arith;
    kubectl_rate = ground arith;
    api_rate = ground arith;
    threshold = ground arith;
    multiplier = ground arith;
  }

  -- The durations of a configuration parse back from their texts, which are not empty.
  pub record IsShown (show : ℕ → String) (d : ℕ) : Type 0 where
    pub not_empty : show d ≢ ""
    pub parses : parse_duration trim_space parse (show d) ≡ some d

  pub record HasShownDurations (show : ℕ → String) (c : ProductionConfig) : Type 0 where
    pub kubectl : IsShown show c.kubectl_timeout
    pub agent : IsShown show c.agent_timeout
    pub circuit : IsShown show c.circuit_breaker_timeout
    pub shutdown : IsShown show c.shutdown_timeout
    pub min : IsShown show c.min_backoff
    pub max : IsShown show c.max_backoff

-- The settings with a configuration written into their runtime section.
abbrev pub written : (ℕ → String) → ProductionConfig → Settings → Settings
written show c s = record s {
  runtime = record {
    max_concurrent_agents = c.max_concurrent_agents;
    max_concurrent_kubectl = c.max_concurrent_kubectl;
    kubectl_rate_limit = c.kubectl_rate_limit;
    api_rate_limit = c.api_rate_limit;
    kubectl_timeout = show c.kubectl_timeout;
    agent_timeout = show c.agent_timeout;
    circuit_breaker_threshold = c.circuit_breaker_threshold;
    circuit_breaker_timeout = show c.circuit_breaker_timeout;
    state_file = c.state_file;
    persist_state = c.persist_state;
    shutdown_timeout = show c.shutdown_timeout;
    min_backoff = show c.min_backoff;
    max_backoff = show c.max_backoff;
    backoff_multiplier = c.backoff_multiplier;
  };
}

module _ (trim_space : String → String) (parse : String → Option ℕ) (show : ℕ → String) where
  positive_self : (n old : ℕ) → 1 ≤ n → positive trim_space parse n old ≡ n
  positive_self n old h = ground (arith, h)

  duration-show :
      (d old : ℕ) → IsShown trim_space parse show d → duration trim_space parse (show d) old ≡ d
  duration-show d old h = ground (arith, h.not_empty, h.parses)

  -- A configuration whose limits are positive, whose state file is named and whose durations parse back from
  -- texts that are not empty, is read back whole from settings that have it in their runtime section.
  pub to_production_config-written :
      (c : ProductionConfig) (s : Settings)
      → IsLimited c
      → c.state_file ≢ ""
      → HasShownDurations trim_space parse show c
      → to_production_config trim_space parse (written show c s) ≡ c
  unfolding to_production_config
  to_production_config-written c s l f h =
      let file : (if same c.state_file "" then default_config.state_file else c.state_file)
          ≡ c.state_file =
        ground (arith, f) in
      rw
        (
          positive_self c.max_concurrent_agents default_config.max_concurrent_agents l.agents,
          positive_self c.max_concurrent_kubectl default_config.max_concurrent_kubectl l.kubectl,
          positive_self c.kubectl_rate_limit default_config.kubectl_rate_limit l.kubectl_rate,
          positive_self c.api_rate_limit default_config.api_rate_limit l.api_rate,
          positive_self c.circuit_breaker_threshold default_config.circuit_breaker_threshold
              l.threshold,
          positive_self c.backoff_multiplier default_config.backoff_multiplier l.multiplier,
          file,
          duration-show c.kubectl_timeout default_config.kubectl_timeout h.kubectl,
          duration-show c.agent_timeout default_config.agent_timeout h.agent,
          duration-show c.circuit_breaker_timeout default_config.circuit_breaker_timeout h.circuit,
          duration-show c.shutdown_timeout default_config.shutdown_timeout h.shutdown,
          duration-show c.min_backoff default_config.min_backoff h.min,
          duration-show c.max_backoff default_config.max_backoff h.max,
        )
        refl
