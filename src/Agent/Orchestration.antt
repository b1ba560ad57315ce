-- ===== src/Agent/Orchestration.antt =====
-- internal/agent/orchestrator.go, summary.go and the tool save_report of summary_builder.go. `W` is the state of
-- what is outside. `chat` is Chat of the model, none where it is nil, on the system's text and the
-- user's: an error, or the text of the response, none where the response is nil.
pub mod Plans
use Prim.Native.String as Str
use Prim.Native.String.{len, slice}
use text.Mathlib.Text.{starts_with}
use kube_ops_agent.Base.{
  if◌then◌else◌, same, join, ℕ, ◌+◌, ◌-◌, ◌/◌, String, ap, ite, false, not, Option, none, some,
  List, [], ◌∷◌, ◌++◌, map,
}
use kube_ops_agent.Json.{Fields, get, as_text}
use kube_ops_agent.Agent.Spec.{Spec}
use kube_ops_agent.Plan.{InspectionPlan, JsonDecoder, Error, from_json}
use kube_ops_agent.Plan as Plan

-- A value, or the text of an error.
pub data Result (A : Type 0) : Type 0 where
  ok : A → Result A
  err : String → Result A

-- What a model answers on a system's text and a user's.
abbrev pub Chat : Type 0 → Type 0
Chat W = W → String → String → W × Result (Option String)

-- `strings.TrimPrefix`
abbrev trim_prefix : String → String → String
trim_prefix text prefix =
    if starts_with text prefix then slice text (len prefix) (len text) else text

-- The text without a fence around it; `last_fence` is strings.LastIndex of "```", none for -1.
unfoldable pub without_fence : (String → String) → (String → Option ℕ) → String → String
without_fence trim_space last_fence text =
    let plan : String = trim_space text in
    if starts_with plan "```"
    then (let inner : String = trim_prefix (trim_prefix plan "```json") "```" in
        trim_space (elim (last_fence inner) [ none ↦ inner | some i ↦ slice inner 0 i ]))
    else plan

-- The text of an answer; `who` names the agent in an error.
unfoldable pub text_of : String → Result (Option String) → Result String
text_of who (err e) = err e
text_of who (ok none) = err (Str.◌++◌ who " returned nil response")
text_of who (ok (some t)) = if same t "" then err (Str.◌++◌ who " returned empty content") else ok t

-- The results of the workers, in the order in which the map is ranged over.
unfoldable pub sections : List (String × String) → String
sections [] = ""
sections ((name, content) ∷ rs) =
    Str.◌++◌ "## "
      (Str.◌++◌ name (Str.◌++◌ "\n\n" (Str.◌++◌ content (Str.◌++◌ "\n\n" (sections rs)))))

-- What Plan makes of the model's answer; an error of FromJSON is a text.
unfoldable pub plan_of :
    {Raw : Type 0}
    → JsonDecoder Raw
    → (String → String)
    → (String → Option ℕ)
    → (Error → String)
    → Result (Option String)
    → Result InspectionPlan
unfolding without_fence text_of from_json
plan_of d trim_space last_fence text_of_error r = elim (text_of "orchestrator" r) [
  | err e ↦ err e
  | ok t ↦ elim (from_json d (without_fence trim_space last_fence t)) [
    | Plan.err e ↦ err (text_of_error e)
    | Plan.ok p ↦ ok p
  ]
]

-- The system's text, with the JSON of the agents, and the user's.
unfoldable pub plan_prompt : String → String
plan_prompt agents =
    Str.◌++◌
      "You are the Kubernetes Cluster Inspection Orchestrator Agent.\n\nYour job:\n- Analyze the task and available worker agents\n- Create a dynamic inspection plan in JSON\n\nAvailable worker agents (name, description, focus_area):\n"
      (Str.◌++◌ agents
        "\n\nYou MUST output ONLY a single valid JSON object, no markdown fences, no extra text.\nThe JSON schema:\n{\n  \"assessment\": \"string\",\n  \"priority\": \"critical|high|normal|low\",\n  \"steps\": [\n    {\n      \"agents\": [\"AgentName1\", \"AgentName2\"],\n      \"mode\": \"parallel|sequential\",\n      \"focus_areas\": [\"...\"],\n      \"depends_on\": [\"AgentName1\"],\n      \"condition\": \"optional text\"\n    }\n  ],\n  \"reasoning\": \"why you chose this\",\n  \"allow_replan\": false,\n  \"skip_agents\": [\"AgentNameX\"],\n  \"skip_reasoning\": \"why skipped\"\n}")

unfoldable pub plan_question : String → String
plan_question task = Str.◌++◌ "Plan a cluster inspection for task: " task

module _ {W : Type 0} where
  -- `Plan`: `agents_json` is the JSON of the specs.
  unfoldable pub plan :
      {Raw : Type 0}
      → JsonDecoder Raw
      → (String → String)
      → (String → Option ℕ)
      → (List Spec → String)
      → (Error → String)
      → Option (Chat W)
      → List Spec
      → String
      → W
      → W × Result InspectionPlan
  unfolding plan_of
  plan d trim_space last_fence agents_json text_of_error none specs task w =
      (w, err "orchestrator chat model is nil")
  plan d trim_space last_fence agents_json text_of_error (some chat) specs task w =
      let (w', r) = chat w (plan_prompt (agents_json specs)) (plan_question task) in
      (w', plan_of d trim_space last_fence text_of_error r)

  -- `Summarize`
  unfoldable pub summarize :
      Option (Chat W) → InspectionPlan → List (String × String) → W → W × Result String
  unfolding sections text_of
  summarize none p results w = (w, err "summary chat model is nil")
  summarize (some chat) p results w =
      let system : String =
        "You are the Kubernetes Operation Summary Agent.\n\nYou will receive:\n- An inspection plan in JSON form\n- A set of section reports from worker agents\n\nYour job:\n- Produce a single, well-structured Markdown report for SREs and platform engineers\n- Highlight critical issues, recommended actions, and overall cluster health\n\nReturn ONLY Markdown, no JSON." in
      let user : String =
        Str.◌++◌ "Inspection plan JSON:\n```json\n"
          (Str.◌++◌ p.raw_json (Str.◌++◌ "\n```\n\nWorker reports:\n" (sections results))) in
      let (w', r) = chat w system user in (w', text_of "summary agent" r)

  -- The tool save_report, which returns the path: `mkdir` and `write` may give an error, `filename` is that of the
  -- present time.
  unfoldable pub save_report :
      (W → String → W × Option String)
      → (W → String → String → W × Option String)
      → (String → String → String)
      → (W → String)
      → String
      → Fields
      → W
      → W × Result String
  unfolding get
  save_report mkdir write join_path filename dir args w = elim (get "content" args) [
    | none ↦ (w, err "content is required")
    | some raw ↦ elim (as_text (some raw)) [
      | none ↦ (w, err "content must be a string")
      | some content ↦
          if same dir ""
          then (w, err "report directory not configured")
          else (let (w₁, made) = mkdir w dir in
              let path = join_path dir (filename w₁) in
              let (w₂, wrote) = write w₁ path content in
              elim made [
                | some e ↦ (w₁, err e)
                | none ↦ elim wrote [ some e ↦ (w₂, err e) | none ↦ (w₂, ok path) ]
              ])
    ]
  ]
