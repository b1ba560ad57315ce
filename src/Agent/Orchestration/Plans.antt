-- ===== src/Agent/Orchestration/Plans.antt =====
-- What a plan of the orchestrator has.
use kube_ops_agent.Base.{
  same, Bool-cases, ℕ, String, ◌≡◌, refl, ap, ◌∙◌, ◌⊎◌, inl, inr, Option, none, some, List, arith,
}
use kube_ops_agent.Agent.Spec.{Spec}
use kube_ops_agent.Agent.Orchestration.{
  Result, ok, err, Chat, without_fence, text_of, plan_of, plan, plan_prompt, plan_question,
}
use kube_ops_agent.Plan.{InspectionPlan, JsonDecoder, Error, from_json}
use kube_ops_agent.Plan.Parsing.{IsReady, from_json-IsReady}
use kube_ops_agent.Plan as Plan

parsed-cases :
    {A : Type 0} (r : Plan.Result A)
    → ((e : Error) × (r ≡ Plan.err e)) ⊎ ((a : A) × (r ≡ Plan.ok a))
parsed-cases (Plan.ok a) = inr (a, refl)
parsed-cases (Plan.err e) = inl (e, refl)

module _ {W Raw : Type 0} (d : JsonDecoder Raw) (trim_space : String → String)
    (last_fence : String → Option ℕ) (agents_json : List Spec → String)
    (text_of_error : Error → String) (chat : Chat W) where
  plan_of-IsReady :
      (r : Result (Option String)) (p : InspectionPlan)
      → plan_of d trim_space last_fence text_of_error r ≡ ok p
      → (t : String) × (r ≡ ok (some t)) × IsReady (without_fence trim_space last_fence t) p
  unfolding plan_of text_of
  plan_of-IsReady (err e) p h = ground (arith, h)
  plan_of-IsReady (ok none) p h = ground (arith, h)
  plan_of-IsReady (ok (some t)) p h =
      let parsed = from_json d (without_fence trim_space last_fence t) in
      elim (Bool-cases (same t "")) [
        | inl q ↦ ground (arith, h, q)
        | inr q ↦ elim (parsed-cases parsed) [
          | inl (e, r) ↦ ground (arith, h, q, r)
          | inr (a, r) ↦
              let own : a ≡ p = ground (arith, h, q, r) in
              (t, refl, from_json-IsReady d _ p (r ∙ ap (λ x. Plan.ok x) own))
        ]
      ]

  -- A plan that the orchestrator returns has a step and a priority, and its text is what the model answered,
  -- without the fence around it.
  pub plan-IsReady :
      (specs : List Spec) (task : String) (w w' : W) (p : InspectionPlan)
      → plan d trim_space last_fence agents_json text_of_error (some chat) specs task w ≡ (w', ok p)
      → (t : String) × (chat w (plan_prompt (agents_json specs)) (plan_question task)
          ≡ (w', ok (some t)))
        × IsReady (without_fence trim_space last_fence t) p
  unfolding plan
  plan-IsReady specs task w w' p e =
      let (t, r, ready) =
        plan_of-IsReady (chat w (plan_prompt (agents_json specs)) (plan_question task)).1 p
          (ap (λ x. x.1) e) in
      (t, ground (arith, e, r), ready)
