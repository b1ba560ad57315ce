-- ===== src/Tests/Thoughts.antt =====
-- internal/reasoning: a plan at concrete inputs.
use kube_ops_agent.Base.{
  str_dec, length, take, drop, keep, is_member, ℕ, String, ◌≡◌, refl, none, some, [], ◌∷◌,
}
use kube_ops_agent.Reasoning.{
  PlanStep, StepStatus, completed_step, pending_step, unset, executing, ThinkingPlan, PlanRevision,
  survives, apply,
}
use kube_ops_agent.Reasoning.Revisions.{AllDone, apply-resumes}

abbrev made : String → StepStatus → PlanStep ℕ ℕ
made id status = record {
  id = id;
  description = "";
  action = "list";
  inputs = 0;
  depends_on = [];
  expected_outcome = "";
  verification = "";
  complexity = unset;
  tool_hint = "";
  sub_plan = none;
  status = status;
  result = "";
  error = "";
  started_at = none;
  finished_at = none;
}

abbrev plan : ThinkingPlan ℕ ℕ
plan = record {
  id = "p1";
  goal = "inspect";
  steps = made "s1" completed_step ∷ made "s2" completed_step ∷ made "s3" pending_step ∷ [];
  current_step = 2;
  status = executing;
  created_at = 0;
  updated_at = 0;
}

abbrev revision : PlanRevision ℕ ℕ
revision = record {
  original_plan = some plan;
  reason = "";
  new_steps = made "s4" pending_step ∷ [];
  removed_step_ids = "s2" ∷ [];
}

abbrev revised : ThinkingPlan ℕ ℕ
revised = record {
  id = "p2";
  goal = "inspect";
  steps = made "s1" completed_step ∷ made "s4" pending_step ∷ [];
  current_step = 1;
  status = executing;
  created_at = 7;
  updated_at = 7;
}

applied : apply "p2" 7 revision ≡ some revised
unfolding apply is_member str_dec
applied = refl

apply-resumes_example :
    AllDone revision.removed_step_ids (take revised.current_step revised.steps)
    × (revised.current_step ≡ length (keep (survives revision.removed_step_ids) plan.steps))
    × (drop revised.current_step revised.steps ≡ revision.new_steps)
    × (revised.goal ≡ plan.goal)
apply-resumes_example = apply-resumes "p2" 7 revision plan revised refl applied
