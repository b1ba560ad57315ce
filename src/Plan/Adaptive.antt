-- ===== src/Plan/Adaptive.antt =====
-- internal/plan/adaptive.go: AdaptivePlanExecutor, which executes plans within plans. A plan holds
-- its steps and a step its plan, so both are types of one block. `W` is the state of what is outside,
-- `clock` reads the time, and a message is its text, if it has one.
pub mod Depths
use Prim.Native.String as Str
use kube_ops_agent.Base.{
  ◌==◌, if◌then◌else◌, All, join, contains, ℕ, zero, suc, ◌+◌, ◌-◌, ◌/◌, String, ap, ◌⊎◌, inl, inr,
  Bool, true, false, not, ◌&&◌, ◌||◌, Option, none, some, List, [], ◌∷◌, ◌++◌,
}

mutual
  -- `reasoning.ThinkingPlan`, with what the executor reads: the goal and the steps.
  pub data Thought : Type 0 where
    thought : (goal : String) → Steps → Thought

  -- The steps: the identifier, the action, and the nested plan, if there is one.
  pub data Steps : Type 0 where
    done : Steps
    step : (id action : String) → Steps → Steps
    step_with : (id action : String) → Thought → Steps → Steps

-- A value of the type `any` as it is used here: nil, a text, or a message, whose pointer may be nil.
pub data Output (Msg : Type 0) : Type 0 where
  nothing : Output Msg
  text : String → Output Msg
  message : Option Msg → Output Msg

-- The fields of `AdaptiveExecutionResult` but the results below it.
pub record Report (Msg : Type 0) : Type 0 where
  pub success : Bool
  pub output : Output Msg
  pub depth : ℕ
  pub step_id : String
  pub needs_replan : Bool
  pub replan_reason : String
  pub duration : ℕ
  pub error : String

mutual
  -- `AdaptiveExecutionResult`
  pub data Result (Msg : Type 0) : Type 0 where
    result : Report Msg → Results Msg → Result Msg

  pub data Results (Msg : Type 0) : Type 0 where
    none_more : Results Msg
    one_more : Result Msg → Results Msg → Results Msg

abbrev pub report_of : {Msg : Type 0} → Result Msg → Report Msg
report_of (result r rs) = r

abbrev output_list : {Msg : Type 0} → Output Msg → List (Output Msg)
output_list nothing = []
output_list (text s) = text s ∷ []
output_list (message m) = message m ∷ []

mutual
  -- `GetAllOutputs`
  pub get_all_outputs : {Msg : Type 0} → Result Msg → List (Output Msg)
  get_all_outputs (result r rs) = output_list r.output ++ outputs_below rs

  pub outputs_below : {Msg : Type 0} → Results Msg → List (Output Msg)
  outputs_below none_more = []
  outputs_below (one_more r rs) = get_all_outputs r ++ outputs_below rs

-- The executor. The context, which it only passes on, belongs to the state of the outside, as does the end of
-- a step's time. `plan_creator` gives none for an error or a nil plan.
pub record Executor (W Msg : Type 0) : Type 0 where
  pub agent_executor : Option (W → String → W × (Option Msg ⊎ String))
  pub plan_creator : Option (W → String → String → W × Option Thought)
  pub max_depth : ℕ
  pub clock : W → ℕ
  pub lower : String → String
  pub content : Option Msg → String

-- `NewAdaptivePlanExecutor`, for the depth.
abbrev pub depth_or_default : ℕ → ℕ
depth_or_default n = if n == 0 then 3 else n

-- Whether a text speaks of complexity.
unfoldable pub is_complex : String → Bool
is_complex t =
    contains t "complex"
    || (contains t "multiple issues"
        || (contains t "further investigation" || contains t "unclear"))

module _ {W Msg : Type 0} (e : Executor W Msg) where
  unfoldable pub execute_step : W → String → String → ℕ → W × Report Msg
  unfolding is_complex
  execute_step w id action depth =
      let start = e.clock w in
      elim e.agent_executor [
        | none ↦ (
          w,
          record {
            success = true;
            output = text (Str.◌++◌ "step recorded: " action);
            depth = depth;
            step_id = id;
            needs_replan = false;
            replan_reason = "";
            duration = e.clock w - start;
            error = "";
          },
        )
        | some run ↦
            let (w', a) = run w action in
            (
              w',
              elim a [
                | inr bad ↦ record {
                  success = false;
                  output = nothing;
                  depth = depth;
                  step_id = id;
                  needs_replan = true;
                  replan_reason = Str.◌++◌ "execution failed: " bad;
                  duration = e.clock w' - start;
                  error = bad;
                }
                | inl msg ↦
                    let found = is_complex (e.lower (e.content msg)) in
                    record {
                      success = true;
                      output = message msg;
                      depth = depth;
                      step_id = id;
                      needs_replan = found;
                      replan_reason = if found then "complexity detected in results" else "";
                      duration = e.clock w' - start;
                      error = "";
                    }
              ],
            )
      ]

  -- The plan that is executed after a step that needs a new one, if there is one: the step's own, or
  -- a created one.
  unfoldable pub sub_plan_for : W → String → Option Thought → Report Msg → W × Option Thought
  sub_plan_for w action nested r = elim e.plan_creator [
    | none ↦ (w, none)
    | some create ↦
        if r.needs_replan
        then elim nested [ some p ↦ (w, some p) | none ↦ create w action r.replan_reason ]
        else (w, none)
  ]

  -- What follows a step: the results of its plan, if one is executed. `deeper` executes a plan one
  -- level down, where the depth allows it.
  unfoldable pub replanned :
      Option (W → Thought → W × Result Msg)
      → W
      → String
      → Option Thought
      → Report Msg
      → W × Option (Result Msg)
  unfolding sub_plan_for
  replanned none w action nested r = (w, none)
  replanned (some deeper) w action nested r =
      let (w₁, plan) = sub_plan_for w action nested r in
      elim plan [ none ↦ (w₁, none) | some p ↦ let (w₂, sub) = deeper w₁ p in (w₂, some sub) ]

  -- The results of a step and of its plan, before those of the later steps.
  abbrev pub joined : Report Msg → Option (Result Msg) → Results Msg → Results Msg
  joined r none rest = one_more (result r none_more) rest
  joined r (some sub) rest = one_more (result r none_more) (one_more sub rest)

  -- The loop over the steps: the results, and `allSuccess`.
  unfoldable pub execute_steps :
      Option (W → Thought → W × Result Msg) → ℕ → W → Steps → W × Results Msg × Bool
  unfolding execute_step replanned
  execute_steps deeper depth w done = (w, none_more, true)
  execute_steps deeper depth w (step id action rest) =
      let (w₁, r) = execute_step w id action depth in
      let (w₂, sub) = replanned deeper w₁ action none r in
      let (w₃, rs, all) = execute_steps deeper depth w₂ rest in
      (w₃, joined r sub rs, r.success && all)
  execute_steps deeper depth w (step_with id action nested rest) =
      let (w₁, r) = execute_step w id action depth in
      let (w₂, sub) = replanned deeper w₁ action (some nested) r in
      let (w₃, rs, all) = execute_steps deeper depth w₂ rest in
      (w₃, joined r sub rs, r.success && all)

  unfoldable pub execute_plan :
      Option (W → Thought → W × Result Msg) → ℕ → W → Thought → W × Result Msg
  unfolding execute_steps
  execute_plan deeper depth w (thought goal steps) =
      let (w', rs, all) = execute_steps deeper depth w steps in
      (
        w',
        result
            (record {
              success = all;
              output = text goal;
              depth = depth;
              step_id = "";
              needs_replan = false;
              replan_reason = "";
              duration = e.clock w' - e.clock w;
              error = "";
            })
            rs,
      )

  -- With the levels that are left, this one included.
  unfoldable pub execute_levels : ℕ → ℕ → W → Thought → W × Result Msg
  unfolding execute_plan
  execute_levels zero depth w plan = (
    w,
    result
        (record {
          success = false;
          output = nothing;
          depth = depth;
          step_id = "";
          needs_replan = false;
          replan_reason = "";
          duration = 0;
          error = "max recursion depth reached";
        })
        none_more,
  )
  execute_levels (suc zero) depth w plan = execute_plan none depth w plan
  execute_levels (suc (suc left)) depth w plan =
      execute_plan (some (execute_levels (suc left) (depth + 1))) depth w plan

  -- `Execute`: at a depth d there are MaxDepth + 1 - d levels left.
  unfoldable pub execute : W → Thought → ℕ → W × Result Msg
  unfolding execute_levels
  execute w plan depth = execute_levels (e.max_depth + 1 - depth) depth w plan
