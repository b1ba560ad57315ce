-- ===== src/Reasoning.antt =====
-- internal/reasoning/plan.go: thinking plans, their steps' status, and revisions. `Inputs` stands for
-- a step's inputs and `Sub` for its nested plan, which no operation reads. Identifiers and times are
-- arguments.
pub mod Marks
pub mod Revisions
pub mod Context
use kube_ops_agent.Base.{
  ltb, if◌then◌else◌, length, keep, is_member, ℕ, zero, suc, ◌+◌, ◌-◌, ◌/◌, String, refl, ap, ite,
  Bool, true, false, not, ◌&&◌, Option, none, some, List, [], ◌∷◌, ◌++◌,
}

pub data StepStatus : Type 0 where
  pending_step running_step completed_step failed_step skipped_step timeout_step : StepStatus
  cancelled_step : StepStatus

pub data StepComplexity : Type 0 where
  unset simple medium complex uncertain : StepComplexity

pub record PlanStep (Inputs Sub : Type 0) : Type 0 where
  pub id : String
  pub description : String
  pub action : String
  pub inputs : Inputs
  pub depends_on : List String
  pub expected_outcome : String
  pub verification : String
  pub complexity : StepComplexity
  pub tool_hint : String
  pub sub_plan : Option Sub
  pub status : StepStatus
  pub result : String
  pub error : String
  pub started_at : Option ℕ
  pub finished_at : Option ℕ

pub data PlanStatus : Type 0 where
  planning executing completed failed cancelled : PlanStatus

pub record ThinkingPlan (Inputs Sub : Type 0) : Type 0 where
  pub id : String
  pub goal : String
  pub steps : List (PlanStep Inputs Sub)
  pub current_step : ℕ
  pub status : PlanStatus
  pub created_at : ℕ
  pub updated_at : ℕ

pub record Reflection (Inputs Sub : Type 0) : Type 0 where
  pub iteration : ℕ
  pub observation : String
  pub decision : String
  pub new_plan : Option (ThinkingPlan Inputs Sub)
  pub timestamp : ℕ

pub record ReasoningLoop (Inputs Sub : Type 0) : Type 0 where
  pub id : String
  pub plan : Option (ThinkingPlan Inputs Sub)
  pub iteration : ℕ
  pub max_iterations : ℕ
  pub reflections : List (Reflection Inputs Sub)
  pub created_at : ℕ
  pub updated_at : ℕ

pub record PlanRevision (Inputs Sub : Type 0) : Type 0 where
  pub original_plan : Option (ThinkingPlan Inputs Sub)
  pub reason : String
  pub new_steps : List (PlanStep Inputs Sub)
  pub removed_step_ids : List String

abbrev pub is_completed : StepStatus → Bool
is_completed completed_step = true
is_completed pending_step = false
is_completed running_step = false
is_completed failed_step = false
is_completed skipped_step = false
is_completed timeout_step = false
is_completed cancelled_step = false

module _ {Inputs Sub : Type 0} where
  unfoldable pub new_thinking_plan : String → ℕ → String → ThinkingPlan Inputs Sub
  new_thinking_plan id now goal = record {
    id = id;
    goal = goal;
    steps = [];
    current_step = 0;
    status = planning;
    created_at = now;
    updated_at = now;
  }

  unfoldable pub new_reasoning_loop : String → ℕ → ℕ → ReasoningLoop Inputs Sub
  new_reasoning_loop id now max_iterations = record {
    id = id;
    plan = none;
    iteration = 0;
    max_iterations = max_iterations;
    reflections = [];
    created_at = now;
    updated_at = now;
  }

  unfoldable pub add_step :
      String → ℕ → String → String → Inputs → ThinkingPlan Inputs Sub → ThinkingPlan Inputs Sub
  add_step id now description action inputs p = record p {
    steps =
        p.steps
        ++ record {
          id = id;
          description = description;
          action = action;
          inputs = inputs;
          depends_on = [];
          expected_outcome = "";
          verification = "";
          complexity = unset;
          tool_hint = "";
          sub_plan = none;
          status = pending_step;
          result = "";
          error = "";
          started_at = none;
          finished_at = none;
        }
          ∷ [];
    updated_at = now;
  }

  -- The step at an index changes.
  unfoldable pub change_at :
      (PlanStep Inputs Sub → PlanStep Inputs Sub)
      → ℕ
      → List (PlanStep Inputs Sub)
      → List (PlanStep Inputs Sub)
  change_at f i [] = []
  change_at f zero (s ∷ ss) = f s ∷ ss
  change_at f (suc i) (s ∷ ss) = s ∷ change_at f i ss

  unfoldable pub mark_step_running : ℕ → ℕ → ThinkingPlan Inputs Sub → ThinkingPlan Inputs Sub
  unfolding change_at
  mark_step_running now i p =
      if ltb i (length p.steps)
      then record p {
        steps =
            change_at (λ s. record s { status = running_step; started_at = some now }) i p.steps;
        updated_at = now;
      }
      else p

  unfoldable pub mark_step_completed :
      ℕ → ℕ → String → ThinkingPlan Inputs Sub → ThinkingPlan Inputs Sub
  unfolding change_at
  mark_step_completed now i result p =
      if ltb i (length p.steps)
      then record p {
        steps =
            change_at
              (λ s. record s { status = completed_step; result = result; finished_at = some now }) i
              p.steps;
        current_step = i + 1;
        updated_at = now;
      }
      else p

  unfoldable pub mark_step_failed :
      ℕ → ℕ → String → ThinkingPlan Inputs Sub → ThinkingPlan Inputs Sub
  unfolding change_at
  mark_step_failed now i message p =
      if ltb i (length p.steps)
      then record p {
        steps =
            change_at
              (λ s. record s { status = failed_step; error = message; finished_at = some now }) i
              p.steps;
        status = failed;
        updated_at = now;
      }
      else p

  unfoldable pub add_reflection :
      ℕ
      → String
      → String
      → Option (ThinkingPlan Inputs Sub)
      → ReasoningLoop Inputs Sub
      → ReasoningLoop Inputs Sub
  add_reflection now observation decision new_plan r = record r {
    iteration = r.iteration + 1;
    reflections =
        r.reflections
        ++ record {
          iteration = r.iteration + 1;
          observation = observation;
          decision = decision;
          new_plan = new_plan;
          timestamp = now;
        }
          ∷ [];
    updated_at = now;
    plan = elim new_plan [ none ↦ r.plan | some p ↦ some p ];
  }

  -- The test of `Apply`'s loop.
  unfoldable pub survives : List String → PlanStep Inputs Sub → Bool
  unfolding is_member
  survives removed s = is_completed s.status && not (is_member s.id removed)

  -- A revision that is nil is left to the caller.
  unfoldable pub apply : String → ℕ → PlanRevision Inputs Sub → Option (ThinkingPlan Inputs Sub)
  unfolding survives
  apply id now r = elim r.original_plan [
    | none ↦ none
    | some p ↦
        let kept = keep (survives r.removed_step_ids) p.steps in
        some (record {
          id = id;
          goal = p.goal;
          steps = kept ++ r.new_steps;
          current_step = length kept;
          status = executing;
          created_at = now;
          updated_at = now;
        })
  ]
