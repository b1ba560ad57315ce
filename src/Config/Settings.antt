-- ===== src/Config/Settings.antt =====
-- internal/config/settings.go: the settings, from the defaults, a YAML file, `.env` files and the
-- environment. The environment is a map of texts. `trim_space` is strings.TrimSpace, `trim_quotes`
-- is strings.Trim with both quotes, `atoi` is strconv.Atoi with `none` for an error, and a file is its
-- lines or `none`. os.Setenv is taken to succeed. An `int` is a natural number, where 0 stands for
-- every value that is not positive; rates are whole tokens per second, and the threshold is in
-- thousandths.
pub mod Environment
pub mod Limits
use Prim.Native.String.{len, slice}
use text.Mathlib.Text.{starts_with, find?}
use kube_ops_agent.Base.{
  ltb, if◌then◌else◌, same, take, lookup, insert, ℕ, suc, ◌+◌, ◌-◌, ◌/◌, String, ap, ite, Bool,
  true, false, not, ◌&&◌, ◌||◌, Option, none, some, List, [], ◌∷◌, map,
}
use kube_ops_agent.Runtime.Config.{ProductionConfig, default_config}

pub record ServerSettings : Type 0 where
  pub addr : String
  pub read_timeout : String
  pub write_timeout : String

pub record RuntimeSettings : Type 0 where
  pub max_concurrent_agents : ℕ
  pub max_concurrent_kubectl : ℕ
  pub kubectl_rate_limit : ℕ
  pub api_rate_limit : ℕ
  pub kubectl_timeout : String
  pub agent_timeout : String
  pub circuit_breaker_threshold : ℕ
  pub circuit_breaker_timeout : String
  pub state_file : String
  pub persist_state : Bool
  pub shutdown_timeout : String
  pub min_backoff : String
  pub max_backoff : String
  pub backoff_multiplier : ℕ

pub record AgentSettings : Type 0 where
  pub model_provider : String
  pub model_name : String
  pub api_key : String
  pub max_depth : ℕ
  pub max_iterations : ℕ
  pub planning_threshold : ℕ

pub record SkillsSettings : Type 0 where
  pub root_dir : String

pub record ReportSettings : Type 0 where
  pub dir : String
  pub max_reports : ℕ

pub record SecuritySettings : Type 0 where
  pub api_token : String
  pub enable_auth : Bool
  pub allowed_origins : List String

pub record McpSettings : Type 0 where
  pub config_path : String

pub record Settings : Type 0 where
  pub server : ServerSettings
  pub runtime : RuntimeSettings
  pub agent : AgentSettings
  pub skills : SkillsSettings
  pub report : ReportSettings
  pub mcp : McpSettings
  pub security : SecuritySettings

-- `setDefaults` on `&Settings{}`.
unfoldable pub set_defaults : Settings
set_defaults = record {
  server = record { addr = ":8080"; read_timeout = "30s"; write_timeout = "30s" };
  runtime = record {
    max_concurrent_agents = 5;
    max_concurrent_kubectl = 10;
    kubectl_rate_limit = 5;
    api_rate_limit = 10;
    kubectl_timeout = "60s";
    agent_timeout = "300s";
    circuit_breaker_threshold = 3;
    circuit_breaker_timeout = "300s";
    state_file = "/tmp/k8s-ops-agent-go-state.json";
    persist_state = true;
    shutdown_timeout = "30s";
    min_backoff = "1s";
    max_backoff = "60s";
    backoff_multiplier = 2;
  };
  agent = record {
    model_provider = "openai";
    model_name = "gpt-4o-mini";
    api_key = "";
    max_depth = 3;
    max_iterations = 8;
    planning_threshold = 500;
  };
  skills = record { root_dir = "kubernetes-ops-agent/skills" };
  report = record { dir = "kubernetes-ops-agent/report"; max_reports = 0 };
  mcp = record { config_path = "" };
  security = record { api_token = ""; enable_auth = false; allowed_origins = [] };
}

-- `os.Getenv`
abbrev pub getenv : String → List (String × String) → String
getenv key env = elim (lookup key env) [ none ↦ "" | some v ↦ v ]

module _ (trim_space trim_quotes : String → String) where
  -- A line of a `.env` file.
  unfoldable pub load_line : String → List (String × String) → List (String × String)
  load_line raw env =
      let line : String = trim_space raw in
      if same line "" || starts_with line "#" then env else elim (find? line "=") [
        | none ↦ env
        | some idx ↦
            let key : String = trim_space (slice line 0 idx) in
            let val : String = trim_space (slice line (idx + 1) (len line)) in
            if ltb 0 idx && (not (same key "") && same (getenv key env) "")
            then insert key (trim_quotes val) env
            else env
      ]

  unfoldable pub load_lines : List String → List (String × String) → List (String × String)
  unfolding load_line
  load_lines [] env = env
  load_lines (l ∷ ls) env = load_lines ls (load_line l env)

  -- `none` is a file that does not open.
  unfoldable pub load_env_file :
      Option (List String) → List (String × String) → List (String × String)
  unfolding load_lines
  load_env_file none env = env
  load_env_file (some lines) env = load_lines lines env

-- The value of a variable, or `old` if it has none.
abbrev from_env : String → List (String × String) → String → String
from_env key env old = let v = getenv key env in if same v "" then old else v

module _ (atoi : String → Option ℕ) where
  unfoldable pub override_from_env : List (String × String) → Settings → Settings
  override_from_env env s = record {
    server = record s.server { addr = from_env "K8SOPS_HTTP_ADDR" env s.server.addr };
    skills = record { root_dir = from_env "K8SOPS_SKILLS_DIR" env s.skills.root_dir };
    report = record {
      dir = from_env "K8SOPS_REPORT_DIR" env s.report.dir;
      max_reports =
          let v = getenv "K8SOPS_MAX_REPORTS" env in
          if same v "" then s.report.max_reports else elim (atoi v) [
            | none ↦ s.report.max_reports
            | some n ↦ if ltb 0 n then n else s.report.max_reports
          ];
    };
    mcp = record { config_path = from_env "K8SOPS_MCP_CONFIG" env s.mcp.config_path };
    agent = record s.agent {
      api_key = from_env "OPENAI_API_KEY" env s.agent.api_key;
      model_name = from_env "OPENAI_MODEL" env s.agent.model_name;
    };
    runtime = record s.runtime {
      max_concurrent_agents =
          let v = getenv "K8SOPS_MAX_CONCURRENT_AGENTS" env in
          if same v ""
          then s.runtime.max_concurrent_agents
          else elim (atoi v) [ none ↦ s.runtime.max_concurrent_agents | some n ↦ n ];
      agent_timeout = from_env "K8SOPS_AGENT_TIMEOUT" env s.runtime.agent_timeout;
      state_file = from_env "K8SOPS_STATE_FILE" env s.runtime.state_file;
    };
    security =
        let v = getenv "K8SOPS_API_TOKEN" env in
        if same v "" then s.security else record s.security { api_token = v; enable_auth = true };
  }

-- What a read of the configuration file gives: no data, or what yaml.Unmarshal makes of the settings,
-- `none` for its error.
pub data File : Type 0 where
  missing : File
  data_with : (Settings → Option Settings) → File

module _ (trim_space trim_quotes : String → String) (atoi : String → Option ℕ) where
  -- The settings, `none` for an error, and the environment that is left. `here` is `.env`, `beside`
  -- the `.env` in the directory of the configuration file.
  unfoldable pub load_settings :
      String
      → Option (List String)
      → Option (List String)
      → File
      → List (String × String)
      → Option Settings × List (String × String)
  unfolding load_env_file override_from_env set_defaults
  load_settings config_path here beside file env =
      let env₁ = load_env_file trim_space trim_quotes here env in
      if same config_path ""
      then (some (override_from_env atoi env₁ set_defaults), env₁)
      else let env₂ = load_env_file trim_space trim_quotes beside env₁ in
        elim file [
          | missing ↦ (some (override_from_env atoi env₂ set_defaults), env₂)
          | data_with unmarshal ↦ elim (unmarshal set_defaults) [
            | none ↦ (none, env₂)
            | some s ↦ (some (override_from_env atoi env₂ s), env₂)
          ]
        ]

module _ (trim_space : String → String) (parse : String → Option ℕ) where
  -- `parse` is time.ParseDuration.
  unfoldable pub parse_duration : String → Option ℕ
  parse_duration s = parse (trim_space s)

  abbrev pub duration : String → ℕ → ℕ
  duration s old = if same s "" then old else elim (parse_duration s) [ none ↦ old | some d ↦ d ]

  abbrev pub positive : ℕ → ℕ → ℕ
  positive n old = if ltb 0 n then n else old

  unfoldable pub to_production_config : Settings → ProductionConfig
  unfolding parse_duration
  to_production_config s =
      let r = s.runtime in
      let c = default_config in
      record {
        max_concurrent_agents = positive r.max_concurrent_agents c.max_concurrent_agents;
        max_concurrent_kubectl = positive r.max_concurrent_kubectl c.max_concurrent_kubectl;
        kubectl_rate_limit = positive r.kubectl_rate_limit c.kubectl_rate_limit;
        api_rate_limit = positive r.api_rate_limit c.api_rate_limit;
        kubectl_timeout = duration r.kubectl_timeout c.kubectl_timeout;
        agent_timeout = duration r.agent_timeout c.agent_timeout;
        circuit_breaker_threshold =
            positive r.circuit_breaker_threshold c.circuit_breaker_threshold;
        circuit_breaker_timeout = duration r.circuit_breaker_timeout c.circuit_breaker_timeout;
        state_file = if same r.state_file "" then c.state_file else r.state_file;
        persist_state = r.persist_state;
        shutdown_timeout = duration r.shutdown_timeout c.shutdown_timeout;
        min_backoff = duration r.min_backoff c.min_backoff;
        max_backoff = duration r.max_backoff c.max_backoff;
        backoff_multiplier = positive r.backoff_multiplier c.backoff_multiplier;
      }
