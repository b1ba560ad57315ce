-- ===== src/Httpapi/Health/Waits.antt =====
-- The health's wait for the next run and the scheduler's test.
use kube_ops_agent.Base.{Option-cases, ℕ, ◌<◌, ◌≡◌, ◌↔◌, inl, inr, true, Option, none, some, arith}
use kube_ops_agent.Agent.Spec.{Spec}
use kube_ops_agent.Runtime.State.{StatePersistence, get_agent_last_run}
use kube_ops_agent.Scheduler.{is_due}
use kube_ops_agent.Httpapi.Health.{agent_status}

-- For an agent with an interval and a scheduler without an override: the health shows no wait for the agent exactly when
-- the scheduler finds it due.
pub agent_status-is_due :
    (now : ℕ) (state : Option StatePersistence) (s : Spec)
    → 0 < s.interval_second
    → ((agent_status now state s).next_run_in ≡ 0) ↔ (is_due now 0 state s ≡ true)
unfolding agent_status is_due
agent_status-is_due now none s h = ground (arith, h)
agent_status-is_due now (some st) s h = elim (Option-cases (get_agent_last_run s.name st)) [
  | inl e ↦ ground (arith, h, e)
  | inr (t, e) ↦ ground (arith, h, e)
]
