-- ===== src/Plan/Parsing.antt =====
-- What parsing guarantees of a plan.
use text.Mathlib.TextEquality.{eq_iff}
use kube_ops_agent.Base.{Option-cases, String, ◌≡◌, ◌≢◌, inl, inr, List, [], arith}
use kube_ops_agent.Plan.{
  InspectionPlan, JsonDecoder, ok, or_normal, get_string, from_object, from_json,
}

-- A plan that can be executed and shown.
pub record IsReady (text : String) (p : InspectionPlan) : Type 0 where
  pub has_steps : p.steps ≢ []
  pub has_priority : p.priority ≢ ""
  pub keeps_text : p.raw_json ≡ text

normal-ne : ◌≢◌ {A = String} "normal" ""
normal-ne = ground (arith, eq_iff "normal" "")

or_normal-ne : (s : String) → or_normal s ≢ ""
or_normal-ne s = ground (arith, normal-ne)

module _ {Raw : Type 0} (d : JsonDecoder Raw) where
  from_object-IsReady :
      (s : String) (raw : List (String × Raw)) (p : InspectionPlan)
      → from_object d s raw ≡ ok p
      → IsReady s p
  unfolding from_object
  from_object-IsReady s raw p e = ground (arith, or_normal-ne (get_string d "priority" raw ""))

  -- A plan that parses from JSON has at least one step and a priority, and keeps its text.
  pub from_json-IsReady : (s : String) (p : InspectionPlan) → from_json d s ≡ ok p → IsReady s p
  unfolding from_json
  from_json-IsReady s p e = elim (Option-cases (d.object s)) [
    | inl n ↦ ground arith
    | inr (raw, r) ↦ from_object-IsReady s raw p (rw (r, from_json) at e)
  ]
