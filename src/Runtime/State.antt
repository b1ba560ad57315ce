-- ===== src/Runtime/State.antt =====
-- internal/runtime/state.go: StatePersistence, the counters of each agent and the file that they
-- are saved to. The `float64` fields hold whole seconds. The files are a map from path to text;
-- encoding/json and the operating system's answers are arguments. The state pointer, which the
-- constructor sets and nothing clears, is not optional here.
pub mod Updates
pub mod Files
pub mod Saves
use Prim.Native.String.{◌++◌ as str_append}
use kube_ops_agent.Base.{
  ◌==◌, if◌then◌else◌, lookup, insert, ℕ, suc, ◌+◌, ◌-◌, ◌*◌, ◌/◌, String, ap, Bool, true, false,
  not, Option, none, some, List, [], map,
}
use kube_ops_agent.Runtime.Config.{ProductionConfig, second}

pub record AgentState : Type 0 where
  pub agent_name : String
  pub last_run_at : ℕ
  pub last_success_at : ℕ
  pub consecutive_failures : ℕ
  pub total_runs : ℕ
  pub total_failures : ℕ

pub record SchedulerState : Type 0 where
  pub agents : List (String × AgentState)
  pub pipelines : List (String × ℕ)
  pub last_saved : ℕ
  pub version : String

pub record StatePersistence : Type 0 where
  pub persist_state : Bool
  pub state_file : String
  pub state : SchedulerState
  pub dirty : Bool

abbrev pub empty_state : SchedulerState
empty_state = record { agents = []; pipelines = []; last_saved = 0; version = "1.0" }

unfoldable pub new_state_persistence : ProductionConfig → StatePersistence
new_state_persistence cfg = record {
  persist_state = cfg.persist_state;
  state_file = cfg.state_file;
  state = empty_state;
  dirty = false;
}

abbrev pub new_agent_state : String → AgentState
new_agent_state name = record {
  agent_name = name;
  last_run_at = 0;
  last_success_at = 0;
  consecutive_failures = 0;
  total_runs = 0;
  total_failures = 0;
}

-- `s.state.Agents[agentName]`, made if it is missing.
abbrev pub agent_or_new : String → Option AgentState → AgentState
agent_or_new name none = new_agent_state name
agent_or_new name (some a) = a

abbrev pub run_time : Option ℕ → ℕ → ℕ
run_time none now = now / second
run_time (some t) now = t / second

-- The assignments that `UpdateAgent` makes to the agent's state.
unfoldable pub updated : ℕ → Bool → AgentState → AgentState
updated t success a =
    if success
    then record a {
      last_run_at = t;
      total_runs = a.total_runs + 1;
      last_success_at = t;
      consecutive_failures = 0;
    }
    else record a {
      last_run_at = t;
      total_runs = a.total_runs + 1;
      consecutive_failures = a.consecutive_failures + 1;
      total_failures = a.total_failures + 1;
    }

unfoldable pub update_agent : ℕ → String → Option ℕ → Bool → StatePersistence → StatePersistence
unfolding updated
update_agent now name last_run success s =
    let a = agent_or_new name (lookup name s.state.agents) in
    record s {
      state = record s.state {
        agents = insert name (updated (run_time last_run now) success a) s.state.agents;
      };
      dirty = true;
    }

unfoldable pub get_agent_last_run : String → StatePersistence → Option ℕ
get_agent_last_run name s = elim (lookup name s.state.agents) [
  | none ↦ none
  | some a ↦ if a.last_run_at == 0 then none else some (a.last_run_at * second)
]

unfoldable pub is_dirty : StatePersistence → Bool
is_dirty s = s.dirty

unfoldable pub get_state_snapshot : StatePersistence → List (String × AgentState)
get_state_snapshot s = s.state.agents
