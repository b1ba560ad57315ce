-- ===== src/Agent/Thinking.antt =====
-- internal/agent/thinking.go: analyse, plan, run commands, report, and the retries. `W` is the state
-- of what is outside: `ask` is a call of the model with the messages of a request, `exec` runs a
-- process, and `clock` reads the time. Marshalling and decoding of JSON are arguments.
pub mod Commands
pub mod Safety
pub mod Retries
use Prim.Native.String.{◌++◌}
use kube_ops_agent.Base.{
  ◌==◌, if◌then◌else◌, same, All, insert, delete, ℕ, zero, suc, ◌+◌, ◌-◌, ◌/◌, ◌%◌, String, ◌≡◌,
  refl, ap, ◌⊎◌, inl, inr, ite, Bool, true, false, not, ◌&&◌, Option, none, some, List, [], ◌∷◌,
  map,
}
use kube_ops_agent.Agent.Executor.{Error}
use kube_ops_agent.Agent.Thinking.Commands.{CommandSpec, CmdResult, Process, Ran, run_commands}

pub record ThinkingConfig : Type 0 where
  pub max_iterations : ℕ
  pub constraints : List String

pub record ThinkingAgent : Type 0 where
  pub name : String
  pub config : ThinkingConfig

-- `DefaultThinkingConfig`, without the fields that nothing reads.
abbrev pub default_thinking_config : ThinkingConfig
default_thinking_config = record {
  max_iterations = 8;
  constraints =
      "READ-ONLY inspection only" ∷ "Allowed: kubectl get, describe, logs, top"
      ∷ "Prohibited: apply, delete, patch, edit, create, exec" ∷ [];
}

abbrev pub new_thinking_agent : String → ThinkingConfig → ThinkingAgent
new_thinking_agent name config = record {
  name = name;
  config = if config.max_iterations == 0 then default_thinking_config else config;
}

-- A value of the context: one of the caller's, or one that this code enters.
pub data Value (V : Type 0) : Type 0 where
  given : V → Value V
  number : ℕ → Value V
  text : String → Value V

-- `contextData`; `none` is the nil map.
abbrev pub Context : Type 0 → Type 0
Context V = Option (List (String × Value V))

-- What is asked of the model: the texts of the messages are made from these.
pub data Request (V : Type 0) : Type 0 where
  analysis planning : (task : String) → Context V → Request V
  commands : (name task : String) → Context V → (constraints : List String) → Request V
  report : (task : String) → Context V → List CommandSpec → List CmdResult → Request V

-- The model's answer: an error, no response, or the response's text.
pub data Answer : Type 0 where
  refused : Error → Answer
  no_response : Answer
  answered : String → Answer

pub record AnalysisResult : Type 0 where
  pub complex : Bool
  pub summary : String

pub record AgentResult : Type 0 where
  pub success : Bool
  pub output : Option String
  pub duration : ℕ
  pub agent_name : String
  pub raw_plan_json : String

-- A value or an error.
pub data Result (A : Type 0) : Type 0 where
  ok : A → Result A
  err : Error → Result A

pub Result-cases :
    {A : Type 0} (r : Result A) → ((a : A) × (r ≡ ok a)) ⊎ ((e : Error) × (r ≡ err e))
Result-cases (ok a) = inl (a, refl)
Result-cases (err e) = inr (e, refl)

-- What the two calls return: a pointer to a result, and an error.
pub record Returned : Type 0 where
  pub result : Option AgentResult
  pub error : Option Error

abbrev plain : String → Error
plain t = record { text = t; context_ended = false }

-- `fmt.Errorf(prefix + ": %w", e)`
abbrev wrapped : String → Error → Error
wrapped prefix e = record e { text = prefix ++ e.text }

-- The variables of the retries: the context, `lastErr` and `lastPlan`.
pub record Retry (V : Type 0) : Type 0 where
  pub context : Context V
  pub last_err : Option Error
  pub last_plan : String

-- How the loop ends: with a result that is returned, or with its variables.
pub data Ended (V : Type 0) : Type 0 where
  succeeded : AgentResult → Retry V → Ended V
  exhausted : Retry V → Ended V

pub Ended-cases :
    {V : Type 0} (e : Ended V)
    → ((res : AgentResult) × (v : Retry V) × (e ≡ succeeded res v))
      ⊎ ((v : Retry V) × (e ≡ exhausted v))
Ended-cases (succeeded res v) = inl (res, v, refl)
Ended-cases (exhausted v) = inr (v, refl)

-- What the code calls: package strings, encoding/json, the model, the processes and the clock.
pub record Outside (W V : Type 0) : Type 0 where
  pub lower : String → String
  pub trim_space : String → String
  pub marshal_error : Request V → Option Error
  pub decode_analysis : String → Result AnalysisResult
  pub decode_commands : String → Result (List CommandSpec)
  pub json_error : String → Option Error
  pub ask : W → Request V → W × Answer
  pub exec : W → Process → W × Ran
  pub clock : W → ℕ

module _ {W V : Type 0} (out : Outside W V) (t : ThinkingAgent) where
  -- A call of the model for which an empty response is an error.
  unfoldable pub asked : String → String → W → Request V → W × Result String
  asked on_nil on_empty w r =
      let (w', a) = out.ask w r in
      (
        w',
        elim a [
          | refused e ↦ err e
          | no_response ↦ err (plain on_nil)
          | answered s ↦ if same s "" then err (plain on_empty) else ok s
        ],
      )

  unfoldable pub analyze : W → String → Context V → W × Result AnalysisResult
  unfolding asked
  analyze w task ctx = elim (out.marshal_error (analysis task ctx)) [
    | some e ↦ (w, err (wrapped "marshal analysis payload: " e))
    | none ↦
        let (w', a) =
          asked "analysis returned nil response" "analysis returned empty content" w
            (analysis task ctx) in
        (
          w',
          elim a [
            | err e ↦ err e
            | ok s ↦ elim (out.decode_analysis s) [
              | err e ↦ err (wrapped "parse analysis json: " e)
              | ok ar ↦ ok ar
            ]
          ],
        )
  ]

  unfoldable pub create_plan : W → String → Context V → W × Result String
  unfolding asked
  create_plan w task ctx = elim (out.marshal_error (planning task ctx)) [
    | some e ↦ (w, err (wrapped "marshal plan payload: " e))
    | none ↦
        let (w', a) =
          asked "plan returned nil response" "plan returned empty content" w (planning task ctx) in
        (
          w',
          elim a [
            | err e ↦ err e
            | ok s ↦ elim (out.json_error s) [
              | some e ↦ err (wrapped "plan is not valid json: " e)
              | none ↦ ok s
            ]
          ],
        )
  ]

  -- The third part of `executeDirect`: the report.
  unfoldable pub make_report :
      W → String → Context V → List CommandSpec → List CmdResult → W × Result String
  make_report w task ctx cmds results = elim (out.marshal_error (report task ctx cmds results)) [
    | some e ↦ (w, err (wrapped "marshal report payload: " e))
    | none ↦
        let (w', a) = out.ask w (report task ctx cmds results) in
        (
          w',
          elim a [
            | refused e ↦ err e
            | no_response ↦ err (plain "empty report response from model")
            | answered s ↦ ok s
          ],
        )
  ]

  unfoldable pub execute_direct : W → String → Context V → W × Result String
  unfolding asked make_report run_commands
  execute_direct w task ctx =
      let (w₁, a) =
        asked "model returned nil response" "empty command plan from model" w
          (commands t.name task ctx t.config.constraints) in
      elim a [
        | err e ↦ (w₁, err e)
        | ok s ↦ elim (out.decode_commands (out.trim_space s)) [
          | err e ↦ (w₁, err (wrapped "invalid command JSON: " e))
          | ok cmds ↦
              let (w₂, results) = run_commands out.lower out.trim_space out.exec w₁ cmds in
              make_report w₂ task ctx cmds results
        ]
      ]

  -- What is returned after `executeDirect`, with the plan that it followed, or "".
  unfoldable pub concluded : ℕ → String → W × Result String → W × Returned
  concluded start raw (w, r) = (
    w,
    elim r [
      | ok s ↦ record {
        result = some (record {
          success = true;
          output = some s;
          duration = out.clock w - start;
          agent_name = t.name;
          raw_plan_json = raw;
        });
        error = none;
      }
      | err e ↦ record {
        result = some (record {
          success = false;
          output = none;
          duration = out.clock w - start;
          agent_name = t.name;
          raw_plan_json = raw;
        });
        error = some e;
      }
    ],
  )

  unfoldable pub think_and_execute : W → String → Context V → W × Returned
  unfolding analyze create_plan execute_direct concluded
  think_and_execute w task ctx =
      let start = out.clock w in
      let (w₁, a) = analyze w task ctx in
      elim a [
        | err e ↦ (w₁, record { result = none; error = some e })
        | ok found ↦
            if not found.complex
            then concluded start "" (execute_direct w₁ task ctx)
            else let (w₂, p) = create_plan w₁ task ctx in
              elim p [
                | err e ↦ (w₂, record { result = none; error = some e })
                | ok plan ↦ concluded start plan (
                    execute_direct w₂ task
                      (some (("analysis", text found.summary) ∷ ("plan", text plan) ∷ [])))
              ]
      ]

  -- What a failed round leaves in the context and in the variables.
  unfoldable pub reflected : ℕ → Returned → Retry V → Retry V
  reflected i r v =
      let plan : String = elim r.result [ none ↦ v.last_plan | some res ↦ res.raw_plan_json ] in
      let known : List (String × Value V) = elim v.context [ none ↦ [] | some m ↦ m ] in
      let error : String = elim r.error [ none ↦ "" | some e ↦ e.text ] in
      record {
        context = some (
            insert "_last_plan" (text plan) (
              insert "_last_error" (text error)
                (insert "_retry_iteration" (number (i + 1)) known)));
        last_err = r.error;
        last_plan = plan;
      }

  -- `err == nil && res != nil && res.Success`
  abbrev pub good : Returned → Option AgentResult
  good r = elim r.error [
    | some _ ↦ none
    | none ↦ elim r.result [ none ↦ none | some res ↦ if res.success then some res else none ]
  ]

  -- The loop, with the rounds left and the number of the next one.
  unfoldable pub rounds : ℕ → ℕ → W → String → Retry V → W × Ended V
  unfolding reflected
  rounds zero i w task v = (w, exhausted v)
  rounds (suc left) i w task v =
      let (w', r) = think_and_execute w task v.context in
      elim (good r) [
        | some res ↦ (w', succeeded res v)
        | none ↦ rounds left (i + 1) w' task (reflected i r v)
      ]

  -- A negative number of iterations counts as 0 here.
  abbrev pub max_iter : ℕ
  max_iter = if t.config.max_iterations == 0 then 3 else t.config.max_iterations

  -- After the loop: one more attempt.
  unfoldable pub last_attempt : W → String → Retry V → W × Returned
  last_attempt w task v =
      let (w', r) = think_and_execute w task v.context in
      let last_err : Option Error = elim r.error [ none ↦ v.last_err | some e ↦ some e ] in
      (
        w',
        record {
          result = elim r.result [
            | some res ↦ some res
            | none ↦ some (record {
              success = false;
              output = none;
              duration = 0;
              agent_name = t.name;
              raw_plan_json = "";
            })
          ];
          error = last_err;
        },
      )

  -- The context that is left is that of the caller's map, unless that was nil.
  unfoldable pub think_and_execute_with_retry : W → String → Context V → W × Context V × Returned
  unfolding rounds last_attempt
  think_and_execute_with_retry w task ctx =
      let (w₁, e) =
        rounds max_iter 0 w task (record { context = ctx; last_err = none; last_plan = "" }) in
      elim e [
        | succeeded res v ↦ (w₁, v.context, record { result = some res; error = none })
        | exhausted v ↦ let (w₂, r) = last_attempt w₁ task v in (w₂, v.context, r)
      ]
