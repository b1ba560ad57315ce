-- ===== src/Tests/Skills.antt =====
-- internal/agent's skill directories and internal/plan/adaptive.go at concrete inputs.
use kube_ops_agent.Base.{
  if◌then◌else◌, same, str_dec, All, insert, HasDistinctKeys, ℕ, ◌+◌, ◌≡◌, refl, inl, inr, true,
  false, none, some, [], ◌∷◌, arith,
}
use kube_ops_agent.Json.{text, Fields, end, field}
use kube_ops_agent.Agent.Spec.{Spec}
use kube_ops_agent.Agent.Skills.{
  ok, err, Entry, Decoders, new_file_registry, walk, visit, config_of, spec_of,
}
use kube_ops_agent.Agent.Skills.Registered.{IsSound, new_file_registry-IsSound}
use kube_ops_agent.Plan.Adaptive.{
  Thought, thought, step, step_with, done, Executor, report_of, execute,
}
use kube_ops_agent.Plan.Adaptive.Depths.{IsWithin, own_succeed, below, execute-depths}

abbrev matter : Fields
matter = field "name" (text "pods") end

abbrev decode : Decoders ℕ
decode = record {
  agent_yaml = λ d. err "no such file";
  front_matter = λ d. some matter;
  whole = λ n. 60;
}

abbrev entry : Entry ℕ
entry = record {
  walk_error = none;
  is_dir = false;
  dir = "skills/pods";
  dir_base = "pods";
  base = "SKILL.md";
  bytes = ok 0;
  agent_yaml_beside = false;
  sub_skill_entries = none;
}

abbrev spec : Spec
spec = record {
  name = "pods";
  skill_name = "pods";
  description = "";
  skill_dir = "skills/pods";
  interval_second = 0;
  report_section = "pods";
  sub_skills = [];
  read_only = true;
}

builds : new_file_registry decode false "skills" (ok true) (entry ∷ []) ≡ ok (("pods", spec) ∷ [])
unfolding new_file_registry walk visit config_of str_dec spec_of insert
builds = refl

new_file_registry-IsSound_example :
    HasDistinctKeys (("pods", spec) ∷ []) × All (IsSound false) (("pods", spec) ∷ [])
new_file_registry-IsSound_example =
    new_file_registry-IsSound decode false "skills" (ok true) (entry ∷ []) (("pods", spec) ∷ [])
      builds

-- The first step fails and has a plan of its own, whose step succeeds.
abbrev executor : Executor ℕ ℕ
executor = record {
  agent_executor =
      some (λ w action. (w + 1, if same action "bad" then inr "refused" else inl (some 1)));
  plan_creator = some (λ w action reason. (w, none));
  max_depth = 3;
  clock = λ w. w;
  lower = λ s. s;
  content = λ m. "fine";
}

abbrev plan : Thought
plan = thought "look" (step_with "1" "bad" (thought "again" (step "1" "good" done)) done)

execute-depths_example :
    IsWithin 3 (execute executor 0 plan 0).1
    × ((report_of (execute executor 0 plan 0).1).success
        ≡ own_succeed 0 (below (execute executor 0 plan 0).1))
execute-depths_example = execute-depths executor 0 plan 0 (omega arith)

-- The plan fails, although the plan of its failed step succeeds.
plan_fails : (report_of (execute executor 0 plan 0).1).success ≡ false
unfolding execute str_dec
plan_fails = refl
