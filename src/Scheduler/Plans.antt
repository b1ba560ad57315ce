-- ===== src/Scheduler/Plans.antt =====
-- The choice of a plan.
use kube_ops_agent.Base.{
  String, ◌≡◌, refl, sym, ap, ◌↔◌, inl, Option, none, some, List, [], ◌∷◌, map,
}
use mathlib.Core.Option.{some-injective}
use mathlib.Core.Path.{subst}
use kube_ops_agent.Agent.Spec.{Spec}
use kube_ops_agent.Plan.{InspectionPlan, JsonDecoder, Result}
use kube_ops_agent.Plan.Agents.{Among}
use kube_ops_agent.Scheduler.{
  kept_agents, Answers, run_step, run_steps, run_plan, create_fallback_plan, loaded_plan, or_else,
  parsed, choose_plan,
}
use kube_ops_agent.Scheduler.Calls.{Launched, Launched-launch_all}

or_else-none : {A : Type 0} (o p : Option A) → (or_else o p ≡ none) ↔ ((o ≡ none) × (p ≡ none))
or_else-none none p = (λ e. (refl, e), λ e. e.1)
or_else-none (some a) p = (λ e. cc, λ e. e.0)

create_fallback_plan-none : (sps : List Spec) → (create_fallback_plan sps ≡ none) ↔ (sps ≡ [])
unfolding create_fallback_plan
create_fallback_plan-none [] = (λ e. refl, λ e. refl)
create_fallback_plan-none (sp ∷ sps) = (λ e. cc, λ e. cc)

-- There is a plan unless the workflow does not load, the self-driven plan does not parse, the
-- orchestrator has none and there is no agent.
pub choose_plan-none :
    {Raw : Type 0} (d : JsonDecoder Raw) (workflow : Option (Result InspectionPlan))
    (raw_plan : Option String) (planned : Option InspectionPlan) (sps : List Spec)
    → (choose_plan d workflow raw_plan planned sps ≡ none)
      ↔ ((loaded_plan workflow ≡ none) × (parsed d raw_plan ≡ none) × (planned ≡ none) × (sps ≡ []))
unfolding choose_plan
choose_plan-none d workflow raw_plan planned sps =
    let fallback = create_fallback_plan sps in
    let c = create_fallback_plan-none sps in
    let rest = or_else planned fallback in
    let x = or_else-none (loaded_plan workflow) (or_else (parsed d raw_plan) rest) in
    let y = or_else-none (parsed d raw_plan) rest in
    let z = or_else-none planned fallback in
    (
      λ e. let a = x.0 e in let b = y.0 a.1 in let f = z.0 b.1 in (a.0, b.0, f.0, c.0 f.1),
      λ (a, b, f, g). x.1 (a, y.1 (b, z.1 (f, c.1 g))),
    )

kept_agents_of_none : (as' : List String) → kept_agents [] as' ≡ as'
unfolding kept_agents
kept_agents_of_none [] = refl
kept_agents_of_none (a ∷ as') = ap (λ xs. a ∷ xs) (kept_agents_of_none as')

-- The fallback plan calls every agent of the registry.
pub create_fallback_plan-calls :
    (w : Answers) (sps : List Spec) (p : InspectionPlan) (k : String)
    → create_fallback_plan sps ≡ some p
    → Among k (map (λ s. s.name) sps)
    → Launched k (run_plan w p).launched
unfolding create_fallback_plan run_plan run_steps run_step kept_agents
create_fallback_plan-calls w [] p k e at = absurd at
create_fallback_plan-calls w (sp ∷ sps) p k e at = rw (sym (some-injective _ _ e)) (
    Launched-launch_all [] [] k (kept_agents [] (map (λ s. s.name) (sp ∷ sps))) []
      (inl (subst (Among k) (sym (kept_agents_of_none (map (λ s. s.name) (sp ∷ sps)))) at)))
