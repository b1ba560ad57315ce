-- ===== src/Httpapi/Health.antt =====
-- internal/httpapi/server.go: what handleHealth and handleReady answer. A time is in nanoseconds, so is
-- the wait for the next run; a Unix time is in seconds, 0 for an agent without a run. The constant texts,
-- the report directory and the scheduler's status, which handleHealth passes on, are left out.
pub mod Waits
use kube_ops_agent.Base.{
  ltb, if◌then◌else◌, length, ℕ, ◌+◌, ◌-◌, ◌*◌, ◌/◌, String, ap, Bool, false, ◌&&◌, Option, none,
  some, List, map,
}
use kube_ops_agent.Agent.Spec.{Spec}
use kube_ops_agent.Runtime.Config.{second}
use kube_ops_agent.Runtime.Circuit.{Breaker, Status, get_status}
use kube_ops_agent.Runtime.Graceful.{GracefulShutdown, is_shutting_down}
use kube_ops_agent.Runtime.Slots.{Controller, active_agent_count}
use kube_ops_agent.Runtime.State.{StatePersistence, get_agent_last_run}

pub data Condition : Type 0 where
  fine shutting_down degraded : Condition

pub record AgentStatus : Type 0 where
  pub agent : String
  pub interval_seconds : ℕ
  pub last_run_at : ℕ
  pub next_run_in : ℕ

pub record Health : Type 0 where
  pub status : Condition
  pub active_agents : ℕ
  pub circuit_breaker : Status
  pub agents : List AgentStatus

-- `d.Env.Graceful != nil && d.Env.Graceful.IsShuttingDown()`
abbrev stops : Option GracefulShutdown → Bool
stops none = false
stops (some g) = is_shutting_down g

unfoldable pub condition : Option GracefulShutdown → List String → List Spec → Condition
condition graceful opened specs =
    if stops graceful
    then shutting_down
    else if ltb (length specs / 2) (length opened)
    then degraded
    else fine

-- A run in the future adds to the wait.
unfoldable pub agent_status : ℕ → Option StatePersistence → Spec → AgentStatus
agent_status now state s =
    let last_run : Option ℕ = elim state [ none ↦ none | some st ↦ get_agent_last_run s.name st ] in
    record {
      agent = s.name;
      interval_seconds = s.interval_second;
      last_run_at = elim last_run [ none ↦ 0 | some t ↦ t / second ];
      next_run_in = elim last_run [
        | none ↦ 0
        | some t ↦ if ltb 0 s.interval_second then (s.interval_second * second + t) - now else 0
      ];
    }

unfoldable pub handle_health :
    ℕ
    → Option GracefulShutdown
    → Breaker
    → Controller
    → Option StatePersistence
    → List Spec
    → Health
unfolding condition agent_status
handle_health now graceful cb slots state specs =
    let circuit = get_status now cb in
    record {
      status = condition graceful circuit.open_circuits specs;
      active_agents = active_agent_count slots;
      circuit_breaker = circuit;
      agents = map (agent_status now state) specs;
    }

-- What handleReady answers.
pub data Ready : Type 0 where
  ready stopping no_scheduler : Ready

unfoldable pub handle_ready : Option GracefulShutdown → Bool → Ready
handle_ready graceful has_scheduler =
    if stops graceful then stopping else if has_scheduler then ready else no_scheduler
