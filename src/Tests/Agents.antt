-- ===== src/Tests/Agents.antt =====
-- internal/agent: an executor and a cache at concrete inputs.
use text.Mathlib.TextEquality.{eq_iff}
use kube_ops_agent.Base.{
  leb, str_dec, length, keep, lookup, insert, delete, ℕ, zero, suc, ◌+◌, ◌*◌, String, ◌≡◌, refl,
  ◌≢◌, ◌↔◌, true, false, ◌&&◌, Option, none, some, List, [], ◌∷◌, ◌++◌, map, arith,
}
use kube_ops_agent.Agent.Spec.{Spec, Registry}
use kube_ops_agent.Agent.Cache.{AgentCache, new_agent_cache, make_room, get_or_create}
use kube_ops_agent.Agent.Executor.{
  Error, Reply, answered, Meets, Vars, Env, circuit_open, Returned, execute, attempt,
}
use kube_ops_agent.Agent.Executor.Attempts.{HasValidCache}
use kube_ops_agent.Agent.Executor.Outcomes.{start_vars, execute_first_error, execute_total}
use kube_ops_agent.Agent.Executor.Admission.{HasSuccess, execute_refused, execute_first_ok}
use kube_ops_agent.Agent.Executor.Books.{Agrees, execute-Agrees}
use kube_ops_agent.Agent.Pool.{
  AgentPool, first, later, all_done, one_more, Execute, started, collect, get,
}
use kube_ops_agent.Agent.Pool.Finishes.{Answers, lookup-Execute}
use kube_ops_agent.Operations.{new_manager}
use kube_ops_agent.Runtime.Circuit.{Call, new_breaker, is_open, record_success, record_failure, run}
use kube_ops_agent.Runtime.Circuit.Refines.{concerns}
use kube_ops_agent.Runtime.Circuit.Opens.{succeeds_at, fails_at}
use kube_ops_agent.Runtime.Config.{second, default_config}
use kube_ops_agent.Runtime.Metrics.{new_metrics_collector}
use kube_ops_agent.Runtime.State.{new_state_persistence}

abbrev pods : Spec
pods = record {
  name = "pods";
  skill_name = "pods";
  description = "checks the pods";
  skill_dir = "skills/pods";
  interval_second = 300;
  report_section = "Pods";
  sub_skills = [];
  read_only = true;
}

abbrev reg : Registry
reg = ("pods", pods) ∷ []

abbrev env : Env ℕ
env = record {
  circuit = new_breaker default_config;
  metrics = new_metrics_collector 0;
  state = new_state_persistence default_config;
  ops = some new_manager;
  cache = some (new_agent_cache 0 0 0);
}

-- Three failures after a success, with a call of another agent among them.
abbrev past : List Call
past =
    succeeds_at "pods" (1 * second)
    ∷ fails_at "pods" (2 * second)
    ∷ fails_at "pods" (3 * second)
    ∷ fails_at "dns" (4 * second)
    ∷ fails_at "pods" (5 * second)
    ∷ []

abbrev env_tripped : Env ℕ
env_tripped = record env { circuit = run (new_breaker default_config) past }

abbrev timeout : Error
timeout = record { text = "timeout"; context_ended = false }

abbrev no_sleep : ℕ → Option Error
no_sleep i = none

abbrev format : ℕ → String
format t = "2026-01-01T00:00:00Z"

abbrev answering : Reply String → Meets ℕ String
answering reply = record {
  slot_error = none;
  worker = none;
  now = 11 * second;
  built = some 7;
  build_error = timeout;
  reply = λ _. reply;
}

abbrev answers_at_once : ℕ → Meets ℕ String
answers_at_once i = answering (answered (some "all pods run"))

abbrev fails_once : ℕ → Meets ℕ String
fails_once zero = answering (Reply.failed timeout)
fails_once (suc i) = answering (answered (some "all pods run"))

pods-named : ◌≢◌ {A = String} "pods" ""
pods-named = ground (arith, eq_iff "pods" "")

new-Agrees : Agrees "pods" env
unfolding new_metrics_collector new_state_persistence lookup
new-Agrees = record { runs = refl; failures = refl }

registered : lookup "pods" reg ≡ some pods
unfolding lookup str_dec
registered = refl

refused :
    execute {A = ℕ} format true reg "pods" no_sleep answers_at_once
      (10 * second)
      (12 * second)
      env_tripped
    ≡ some (env_tripped, record { msg = none; err = some (circuit_open "pods") })
unfolding execute is_open record_success record_failure lookup insert delete str_dec new_breaker run
refused = refl

own_past :
    keep (concerns "pods") past
    ≡ []
      ++ succeeds_at "pods" (1 * second)
        ∷ (map (fails_at "pods") (2 * second ∷ 3 * second ∷ [])
            ++ fails_at "pods" (5 * second) ∷ [])
unfolding str_dec
own_past = refl

execute_refused_example :
    ((some (circuit_open "pods") ≡ some (circuit_open "pods")) ↔ (
      leb (new_breaker default_config).threshold (length {A = ℕ} (2 * second ∷ 3 * second ∷ []) + 1)
        && leb (10 * second) (5 * second + (new_breaker default_config).timeout)
      ≡ true))
    × ((some (circuit_open "pods") ≡ some (circuit_open "pods")) → env_tripped ≡ env_tripped)
execute_refused_example =
    execute_refused format reg "pods" pods no_sleep answers_at_once (10 * second) (12 * second)
      env_tripped (new_breaker default_config) past [] (1 * second) (5 * second)
      (2 * second ∷ 3 * second ∷ []) env_tripped
      (record { msg = none; err = some (circuit_open "pods") }) registered refl own_past refused

-- The cache after the first attempt.
abbrev cached : AgentCache ℕ
cached = record {
  entries =
      (
        "pods",
        record { agent = 7; created_at = 11 * second; last_used = 11 * second; use_count = 1 },
      )
      ∷ [];
  max_size = 10;
  ttl_sec = 3600;
  idle_sec = 600;
  hits = 0;
  misses = 1;
  evictions = 0;
}

abbrev after_error : Vars ℕ String
after_error = record { result = none; exec_err = some timeout; cache = some cached }

abbrev after_ok : Vars ℕ String
after_ok = record { result = some "all pods run"; exec_err = none; cache = some cached }

first_fails : attempt "pods" (fails_once 0) (start_vars env) ≡ some (after_error, some timeout)
unfolding attempt new_agent_cache get_or_create make_room lookup insert str_dec
first_fails = refl

first_answers : attempt "pods" (answers_at_once 0) (start_vars env) ≡ some (after_ok, none)
unfolding attempt new_agent_cache get_or_create make_room lookup insert str_dec
first_answers = refl

is_closed : (is_open (10 * second) "pods" (new_breaker default_config)).1 ≡ false
unfolding is_open lookup new_breaker
is_closed = refl

has_cache : HasValidCache env.cache
unfolding new_agent_cache
has_cache = record { positive = omega arith; bounded = omega arith; named = tt; distinct = tt }

execute_total_example :
    (env' : Env ℕ) × (r : Returned String) × (execute format true reg "pods" no_sleep fails_once
        (10 * second)
        (12 * second)
        env
      ≡ some (env', r))
    × HasValidCache env'.cache
execute_total_example =
    execute_total format reg "pods" pods no_sleep fails_once (10 * second) (12 * second) env true
      registered pods-named has_cache

returns :
    (env' : Env ℕ) × (r : Returned String) × (execute format true reg "pods" no_sleep fails_once
        (10 * second)
        (12 * second)
        env
      ≡ some (env', r))
    × HasValidCache env'.cache
returns =
    execute_total format reg "pods" pods no_sleep fails_once (10 * second) (12 * second) env true
      registered pods-named has_cache

abbrev ended : Env ℕ × Returned String
ended = (returns.0, returns.1)

execute_first_error_example : (ended.1.msg ≡ none) × (ended.1.err ≢ none)
execute_first_error_example =
    execute_first_error format reg "pods" pods no_sleep fails_once (10 * second) (12 * second) env
      after_error timeout ended.0 ended.1 registered is_closed first_fails returns.2

execute_first_ok_example :
    (env' : Env ℕ) × (execute format true reg "pods" no_sleep answers_at_once
        (10 * second)
        (12 * second)
        env
      ≡ some (env', record { msg = after_ok.result; err = none }))
    × HasSuccess format reg "pods" pods no_sleep answers_at_once
        (10 * second)
        (12 * second)
        env
        env'
execute_first_ok_example =
    execute_first_ok format reg "pods" pods no_sleep answers_at_once (10 * second) (12 * second) env
      after_ok registered is_closed first_answers

execute-Agrees_example : Agrees "pods" ended.0
execute-Agrees_example =
    execute-Agrees format true reg "pods" "pods" no_sleep fails_once (10 * second) (12 * second) env
      ended.0 ended.1 returns.2 new-Agrees

-- A pool of two agents, which are numbers; the agent 0 fails. The other answers by the position of its run.
abbrev two_agents : AgentPool ℕ
two_agents = record { agents = ("pods", 3) ∷ ("nodes", 0) ∷ [] }

abbrev replies : ℕ → ℕ → Option ℕ
replies i zero = none
replies i (suc k) = some (i + k)

-- "pods" is listed twice, and its second run finishes first.
backwards : Execute replies ("pods" ∷ "dns" ∷ "nodes" ∷ "pods" ∷ []) two_agents (("pods", 2) ∷ [])
unfolding started get lookup str_dec collect insert
backwards =
    one_more _ (("pods", some 2) ∷ ("nodes", none) ∷ []) ("pods", some 5) [] _
      (later _ _ _ _ (later _ _ _ _ (first _ _)))
      (one_more _ (("pods", some 2) ∷ []) ("nodes", none) _ _ (later _ _ _ _ (first _ _))
        (one_more _ [] ("pods", some 2) _ _ (first _ _) (all_done _)))

lookup-Execute_example :
    ((m : ℕ)
      → lookup "pods" (("pods", 2) ∷ []) ≡ some m
      → Answers replies two_agents "pods" 0 ("pods" ∷ "dns" ∷ "nodes" ∷ "pods" ∷ []) m)
    × (lookup {V = ℕ} "pods" (("pods", 2) ∷ []) ≡ none
        → (m : ℕ)
        → ¬ Answers replies two_agents "pods" 0 ("pods" ∷ "dns" ∷ "nodes" ∷ "pods" ∷ []) m)
lookup-Execute_example =
    lookup-Execute replies two_agents "pods" ("pods" ∷ "dns" ∷ "nodes" ∷ "pods" ∷ [])
      (("pods", 2) ∷ []) backwards
