-- ===== src/Scheduler/Dues.antt =====
-- When an agent is due again.
use kube_ops_agent.Base.{
  leb, if◌then◌else◌, same, ℕ, ◌+◌, ◌*◌, ◌<◌, String, ◌≡◌, Bool, Option, some, arith,
}
use kube_ops_agent.Agent.Spec.{Spec}
use kube_ops_agent.Runtime.Config.{second}
use kube_ops_agent.Runtime.State.{StatePersistence, run_time, update_agent}
use kube_ops_agent.Runtime.State.Updates.{get_agent_last_run-update_agent}
use kube_ops_agent.Scheduler.{interval, is_due}

-- After the state records a run of `agent` at a time that is not zero in whole seconds, a spec of
-- that name with an interval is due exactly when the interval has passed since that second, and a
-- spec of another name is due exactly when it was.
pub is_due-update_agent :
    (now override at : ℕ) (agent : String) (last_run : Option ℕ) (success : Bool)
    (s : StatePersistence) (sp : Spec)
    → 0 < run_time last_run at
    → 0 < interval override sp
    → is_due now override (some (update_agent at agent last_run success s)) sp ≡ (
        if same sp.name agent
        then leb (run_time last_run at * second + interval override sp * second) now
        else is_due now override (some s) sp)
unfolding is_due
is_due-update_agent now override at agent last_run success s sp set positive =
    let h = get_agent_last_run-update_agent at agent sp.name last_run success s in ground (arith, h)
