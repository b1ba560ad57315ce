-- ===== src/Runtime/State/Updates.antt =====
-- What a history of updates leaves in the counters.
use kube_ops_agent.Base.{
  ◌==◌, if◌then◌else◌, same, Bool-cases, length, keep, length-keep-le, lookup, lookup-insert, ℕ,
  ◌+◌, ◌*◌, ◌≤◌, String, ◌≡◌, refl, inl, inr, Bool, not, Option, none, some, List, [], ◌∷◌, arith,
}
use kube_ops_agent.Runtime.Config.{ProductionConfig, second}
use kube_ops_agent.Runtime.State.{
  AgentState, StatePersistence, new_state_persistence, agent_or_new, new_agent_state, updated,
  update_agent, run_time, get_agent_last_run,
}

pub record Update : Type 0 where
  pub agent : String
  pub now : ℕ
  pub last_run : Option ℕ
  pub success : Bool

pub run : StatePersistence → List Update → StatePersistence
run s [] = s
run s (u ∷ us) = run (update_agent u.now u.agent u.last_run u.success s) us

abbrev pub concerns : String → Update → Bool
concerns agent u = same agent u.agent

abbrev pub failed : Update → Bool
failed u = not u.success

-- The failures since the last success, oldest update first.
pub streak : ℕ → List Update → ℕ
streak n [] = n
streak n (u ∷ us) = streak (if u.success then 0 else n + 1) us

abbrev pub state_of : String → StatePersistence → AgentState
state_of agent s = agent_or_new agent (lookup agent s.state.agents)

pub state_of-update_agent :
    (agent : String) (u : Update) (s : StatePersistence)
    → state_of agent (update_agent u.now u.agent u.last_run u.success s) ≡ (
        if concerns agent u
        then updated (run_time u.last_run u.now) u.success (state_of agent s)
        else state_of agent s)
unfolding update_agent
state_of-update_agent agent u s = ground (
  arith,
  lookup-insert u.agent agent (updated (run_time u.last_run u.now) u.success (state_of u.agent s))
      s.state.agents,
)

-- The state of one agent under its own updates.
unfoldable pub own_run : AgentState → List Update → AgentState
own_run a [] = a
own_run a (u ∷ us) = own_run (updated (run_time u.last_run u.now) u.success a) us

pub state_of-run :
    (agent : String) (s : StatePersistence) (us : List Update)
    → state_of agent (run s us) ≡ own_run (state_of agent s) (keep (concerns agent) us)
unfolding run own_run
state_of-run agent s [] = refl
state_of-run agent s (u ∷ us) =
    let next = update_agent u.now u.agent u.last_run u.success s in
    elim (Bool-cases (concerns agent u)) [
      | inl hit ↦ rw (state_of-run agent next us, state_of-update_agent agent u s, hit) refl
      | inr miss ↦ rw (state_of-run agent next us, state_of-update_agent agent u s, miss) refl
    ]

own_run-counts :
    (a : AgentState) (us : List Update)
    → let b = own_run a us in
      (b.total_runs ≡ a.total_runs + length us)
      × (b.total_failures ≡ a.total_failures + length (keep failed us))
      × (b.consecutive_failures ≡ streak a.consecutive_failures us)
      × (b.agent_name ≡ a.agent_name)
unfolding own_run updated streak
own_run-counts a [] = (omega arith, omega arith, refl, refl)
own_run-counts a (u ∷ us) =
    ground (arith, own_run-counts (updated (run_time u.last_run u.now) u.success a) us)

streak-le : (n : ℕ) (us : List Update) → streak n us ≤ n + length (keep failed us)
unfolding streak
streak-le n [] = omega arith
streak-le n (u ∷ us) = ground (arith, streak-le (if u.success then 0 else n + 1) us)

-- After any updates of a new store, an agent's counters are: its updates, those of them that
-- failed, and the failures since its last success; no counter is larger than the one before it.
pub run-counters :
    (cfg : ProductionConfig) (agent : String) (us : List Update)
    → let a = state_of agent (run (new_state_persistence cfg) us) in
      let own = keep (concerns agent) us in
      (a.total_runs ≡ length own)
      × (a.total_failures ≡ length (keep failed own))
      × (a.consecutive_failures ≡ streak 0 own)
      × (a.total_failures ≤ a.total_runs)
      × (a.consecutive_failures ≤ a.total_failures)
unfolding new_state_persistence lookup
run-counters cfg agent us =
    let own = keep (concerns agent) us in
    let start = new_state_persistence cfg in
    let counts = own_run-counts (new_agent_state agent) own in
    rw (state_of-run agent start us)
      (ground (arith, counts, streak-le 0 own, length-keep-le failed own))

-- After an update of `agent`, its last run reads as the time of the update in whole seconds, unless
-- that is zero, and every other agent's last run reads as before.
pub get_agent_last_run-update_agent :
    (now : ℕ) (agent other : String) (last_run : Option ℕ) (success : Bool) (s : StatePersistence)
    → let t = run_time last_run now in
      get_agent_last_run other (update_agent now agent last_run success s) ≡ (
        if same other agent
        then (if t == 0 then none else some (t * second))
        else get_agent_last_run other s)
unfolding update_agent get_agent_last_run
get_agent_last_run-update_agent now agent other last_run success s = ground (
  arith,
  lookup-insert agent other (updated (run_time last_run now) success (state_of agent s))
      s.state.agents,
)
