-- ===== src/Scheduler.antt =====
-- internal/scheduler/scheduler.go: which agents are due, the scheduler's start and stop, the choice
-- of a plan and its execution step by step. What the planners and the agents answer are arguments.
-- A negative interval, at which an agent is never due, is 0 here.
-- The reports, the logging, the timer of the loop and the bound on the executions of a step that
-- go on at once are left out.
pub mod Dues
pub mod Loops
pub mod Calls
pub mod Launches
pub mod Plans
pub mod Orders
use kube_ops_agent.Base.{
  ltb, leb, ◌==◌, if◌then◌else◌, same, drop, keep, is_member, lookup, insert, ℕ, ◌+◌, ◌-◌, ◌*◌, ◌/◌,
  String, ap, Bool, true, false, not, Option, none, some, List, [], ◌∷◌, map,
}
use kube_ops_agent.Agent.Spec.{Spec}
use kube_ops_agent.Plan.{
  ExecutionMode, parallel, sequential, other, Step, InspectionPlan, JsonDecoder, Result, ok, err,
  is_nil, from_json,
}
use kube_ops_agent.Runtime.Config.{second}
use kube_ops_agent.Runtime.State.{StatePersistence, SchedulerState, get_agent_last_run}
use kube_ops_agent.Runtime.State.Files.{ReadResult, load}

-- The interval that the override replaces.
abbrev pub interval : ℕ → Spec → ℕ
interval override sp = if ltb 0 override then override else sp.interval_second

abbrev pub last_run_of : String → Option StatePersistence → Option ℕ
last_run_of name none = none
last_run_of name (some s) = get_agent_last_run name s

-- The test of `runSimpleRound`'s loop.
unfoldable pub is_due : ℕ → ℕ → Option StatePersistence → Spec → Bool
is_due now override state sp =
    if interval override sp == 0 then false else elim (last_run_of sp.name state) [
      | none ↦ true
      | some last ↦ leb (last + interval override sp * second) now
    ]

unfoldable pub due : ℕ → ℕ → Option StatePersistence → List Spec → List Spec
unfolding is_due
due now override state sps = keep (is_due now override state) sps

-- The scheduler's `running`, the number of its loops whose context is not cancelled, and the state
-- that they share.
pub record Scheduler : Type 0 where
  pub running : Bool
  pub loops : ℕ
  pub state : Option StatePersistence

module _ {Text : Type 0} (unmarshal : Text → Option SchedulerState) where
  -- The error of `Load` is dropped.
  abbrev loaded : ReadResult Text → Option StatePersistence → Option StatePersistence
  loaded file none = none
  loaded file (some s) = some (load unmarshal file s).0

  unfoldable pub start : ReadResult Text → Scheduler → Scheduler
  start file s =
      if s.running
      then s
      else record s { state = loaded file s.state; running = true; loops = s.loops + 1 }

unfoldable pub stop : Scheduler → Scheduler
stop s = if not s.running then s else record s { loops = s.loops - 1; running = false }

unfoldable pub create_fallback_plan : List Spec → Option InspectionPlan
create_fallback_plan [] = none
create_fallback_plan (sp ∷ sps) = some (record {
  assessment = "Fallback: full cluster inspection";
  priority = "medium";
  steps =
      record {
        agents = map (λ s. s.name) (sp ∷ sps);
        mode = parallel;
        condition = "";
        depends_on = [];
        focus_areas = [];
        timeout_secs = 0;
      }
      ∷ [];
  reasoning = "Orchestrator failed; using fallback plan";
  allow_replan = false;
  focus_areas = [];
  skip_agents = [];
  skip_reason = "";
  raw_json = "";
})

abbrev pub when_ok : {A : Type 0} → Result A → Option A
when_ok (ok a) = some a
when_ok (err _) = none

abbrev pub or_else : {A : Type 0} → Option A → Option A → Option A
or_else none o = o
or_else (some a) _ = some a

abbrev pub parsed : {Raw : Type 0} → JsonDecoder Raw → Option String → Option InspectionPlan
parsed d none = none
parsed d (some text) = if same text "" then none else when_ok (from_json d text)

abbrev pub loaded_plan : Option (Result InspectionPlan) → Option InspectionPlan
loaded_plan none = none
loaded_plan (some r) = when_ok r

-- `workflow` is what the workflow's file loads as, if it is set; `raw_plan` is the text of the
-- self-driven orchestrator and `planned` the orchestrator's plan, where these exist and answer
-- without an error.
unfoldable pub choose_plan :
    {Raw : Type 0}
    → JsonDecoder Raw
    → Option (Result InspectionPlan)
    → Option String
    → Option InspectionPlan
    → List Spec
    → Option InspectionPlan
unfolding create_fallback_plan
choose_plan d workflow raw_plan planned sps =
    or_else (loaded_plan workflow)
      (or_else (parsed d raw_plan) (or_else planned (create_fallback_plan sps)))

unfoldable pub deps_met : List String → List (String × String) → Bool
deps_met [] results = true
deps_met (d ∷ ds) results =
    let rest = deps_met ds results in elim (lookup d results) [ none ↦ false | some _ ↦ rest ]

-- The agents of a step without those to skip.
unfoldable pub kept_agents : List String → List String → List String
unfolding is_member
kept_agents skips as' = keep (λ a. not (is_member a skips)) as'

-- The results of the dependencies, which the input of each agent gets.
unfoldable pub dep_inputs : List String → List (String × String) → List (String × String)
dep_inputs [] results = []
dep_inputs (d ∷ ds) results =
    let rest = dep_inputs ds results in
    elim (lookup d results) [ none ↦ rest | some r ↦ insert d r rest ]

-- `text i` is the text that the execution at position i gives, if it gives one.
unfoldable pub answers : (ℕ → Option String) → ℕ → List String → List (String × Option String)
answers text i [] = []
answers text i (a ∷ as') = (a, text i) ∷ answers text (i + 1) as'

unfoldable pub store :
    List (String × Option String) → List (String × String) → List (String × String)
store [] results = results
store ((a, none) ∷ more) results = store more results
store ((a, some t) ∷ more) results = store more (insert a t results)

-- One call of `Execute`: the agent, its step's dependencies, and the inputs from these.
pub record Launch : Type 0 where
  pub agent : String
  pub depends_on : List String
  pub inputs : List (String × String)

-- The results, and the calls so far, the latest first.
pub record Progress : Type 0 where
  pub results : List (String × String)
  pub launched : List Launch

unfoldable pub launch_all :
    List String → List String → List (String × String) → List Launch → List Launch
launch_all [] deps inputs before = before
launch_all (a ∷ as') deps inputs before =
    launch_all as' deps inputs (record { agent = a; depends_on = deps; inputs = inputs } ∷ before)

abbrev pub is_sequential : ExecutionMode → Bool
is_sequential sequential = true
is_sequential parallel = false
is_sequential (other _) = false

-- What the agents answer in step n, and `arrange` puts the answers of a parallel step in the order
-- in which they are stored.
pub record Answers : Type 0 where
  pub text : ℕ → ℕ → Option String
  pub arrange : ℕ → List (String × Option String) → List (String × Option String)

-- The body of the loop over the plan's steps.
unfoldable pub run_step : Answers → List String → ℕ → Step → Progress → Progress
unfolding deps_met kept_agents dep_inputs answers store launch_all
run_step w skips n step p =
    let as' = kept_agents skips step.agents in
    let said = answers (w.text n) 0 as' in
    if is_nil step.agents
    then p
    else if not (deps_met step.depends_on p.results)
    then p
    else if is_nil as'
    then p
    else record {
      results = store (if is_sequential step.mode then said else w.arrange n said) p.results;
      launched = launch_all as' step.depends_on (dep_inputs step.depends_on p.results) p.launched;
    }

unfoldable pub run_steps : Answers → List String → ℕ → List Step → Progress → Progress
unfolding run_step
run_steps w skips n [] p = p
run_steps w skips n (s ∷ ss) p = run_steps w skips (n + 1) ss (run_step w skips n s p)

unfoldable pub run_plan : Answers → InspectionPlan → Progress
unfolding run_steps
run_plan w p = run_steps w p.skip_agents 0 p.steps (record { results = []; launched = [] })
