-- ===== src/Tests/Schedules.antt =====
-- internal/scheduler: due agents and a plan's execution at concrete inputs.
use text.Mathlib.TextEquality.{eq_iff}
use kube_ops_agent.Scheduler.Orders.{Reorders, Agree, run_plan-Agree}
use kube_ops_agent.Base.{
  leb, if◌then◌else◌, same, lookup, ℕ, ◌+◌, ◌*◌, String, ◌≡◌, refl, ◌≢◌, ◌↔◌, true, false, Option,
  none, some, List, [], ◌∷◌, arith,
}
use kube_ops_agent.Agent.Spec.{Spec}
use kube_ops_agent.Plan.{parallel, sequential, Step, InspectionPlan}
use kube_ops_agent.Plan.Agents.{Among, InStep}
use kube_ops_agent.Runtime.Config.{second, default_config}
use kube_ops_agent.Runtime.State.{StatePersistence, new_state_persistence, run_time, update_agent}
use kube_ops_agent.Scheduler.{interval, is_due, Answers, run_plan}
use kube_ops_agent.Httpapi.Health.{agent_status}
use kube_ops_agent.Httpapi.Health.Waits.{agent_status-is_due}
use kube_ops_agent.Scheduler.Dues.{is_due-update_agent}
use kube_ops_agent.Scheduler.Calls.{AllCalled}
use kube_ops_agent.Scheduler.Launches.{KeepsNames, IsSound, run_plan-allowed, run_plan-IsSound}

abbrev pods : Spec
pods = record {
  name = "pods";
  skill_name = "pods";
  description = "checks the pods";
  skill_dir = "skills/pods";
  interval_second = 300;
  report_section = "Pods";
  sub_skills = [];
  read_only = true;
}

abbrev store : StatePersistence
store = new_state_persistence default_config

is_due-update_agent_example :
    is_due (400 * second) 0 (some (update_agent (100 * second) "pods" none true store)) pods ≡ (
      if same "pods" "pods"
      then leb (run_time none (100 * second) * second + interval 0 pods * second) (400 * second)
      else is_due (400 * second) 0 (some store) pods)
is_due-update_agent_example =
    is_due-update_agent (400 * second) 0 (100 * second) "pods" none true store pods (omega arith)
      (omega arith)

agent_status-is_due_example :
    ((agent_status
        (400 * second)
        (some (update_agent (100 * second) "pods" none true store))
        pods).next_run_in
      ≡ 0)
    ↔ (is_due (400 * second) 0 (some (update_agent (100 * second) "pods" none true store)) pods
        ≡ true)
agent_status-is_due_example =
    agent_status-is_due (400 * second) (some (update_agent (100 * second) "pods" none true store))
      pods (omega arith)

abbrev first : Step
first = record {
  agents = "pods" ∷ "nodes" ∷ [];
  mode = parallel;
  condition = "";
  depends_on = [];
  focus_areas = [];
  timeout_secs = 0;
}

abbrev second_step : Step
second_step = record first { agents = "dns" ∷ []; mode = sequential; depends_on = "pods" ∷ [] }

abbrev plan : InspectionPlan
plan = record {
  assessment = "";
  priority = "normal";
  steps = first ∷ second_step ∷ [];
  reasoning = "";
  allow_replan = false;
  focus_areas = [];
  skip_agents = "nodes" ∷ [];
  skip_reason = "";
  raw_json = "";
}

-- Every agent answers, and parallel answers come in the order of the agents.
abbrev in_order : Answers
in_order = record { text = λ _ _. some "fine"; arrange = λ _ said. said }

in_order-KeepsNames : KeepsNames in_order
in_order-KeepsNames n said k h = h

run_plan-IsSound_example : IsSound (run_plan in_order plan)
run_plan-IsSound_example = run_plan-IsSound in_order plan in_order-KeepsNames

run_plan-allowed_example :
    AllCalled
      (λ a. (¬ Among a plan.skip_agents) × InStep a plan.steps)
      (run_plan in_order plan).launched
run_plan-allowed_example = run_plan-allowed in_order plan

in_order-Reorders : Reorders in_order.arrange
in_order-Reorders n said d = (d, λ k. refl)

-- The answers of two agents, the second first.
abbrev swap : List (String × Option String) → List (String × Option String)
swap [] = []
swap (x ∷ []) = x ∷ []
swap (x ∷ y ∷ []) = y ∷ x ∷ []
swap (x ∷ y ∷ z ∷ more) = x ∷ y ∷ z ∷ more

abbrev swapped : ℕ → List (String × Option String) → List (String × Option String)
swapped n said = swap said

swapped-Reorders : Reorders swapped
unfolding lookup
swapped-Reorders n [] d = (d, λ k. refl)
swapped-Reorders n (x ∷ []) d = (d, λ k. refl)
swapped-Reorders n ((a, s) ∷ (b, t) ∷ []) d =
    ((λ h. ground (arith, h, d), ((λ h. h), tt)), λ k. ground (arith, d))
swapped-Reorders n (x ∷ y ∷ z ∷ more) d = (d, λ k. refl)

nodes-ne : ◌≢◌ {A = String} "pods" "nodes"
nodes-ne = ground (arith, eq_iff "pods" "nodes")

run_plan-Agree_example :
    Agree (run_plan in_order plan) (run_plan (record in_order { arrange = swapped }) plan)
run_plan-Agree_example =
    run_plan-Agree in_order swapped plan in_order-Reorders swapped-Reorders
      (((λ h. ground (arith, h, nodes-ne)), ((λ h. h), tt)), (((λ h. h), tt), tt))
