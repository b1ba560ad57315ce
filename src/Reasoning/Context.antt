-- ===== src/Reasoning/Context.antt =====
-- internal/reasoning/context.go: thinking contexts and their children, analyses and results. `C` stands
-- for the map of a context, whose empty one is an argument, and `O` for outputs. Identifiers and times
-- are arguments.
pub mod Depths
use kube_ops_agent.Base.{
  ltb, All, ℕ, ◌+◌, ◌-◌, ◌*◌, ◌/◌, String, ap, Bool, false, not, Option, none, some, List, [], ◌∷◌,
  ◌++◌, map,
}
use kube_ops_agent.Json.{Json, Fields, get, as_text, as_array, as_bool, as_number, texts}

-- The fields of ThinkingContext that are set here, but the parent.
pub record Frame (C : Type 0) : Type 0 where
  pub id : String
  pub goal : String
  pub task : String
  pub context : Option C
  pub available_tools : List String
  pub constraints : List String
  pub depth : ℕ
  pub max_depth : ℕ
  pub created_at : ℕ
  pub updated_at : ℕ

-- A context, without a parent or with one.
pub data ThinkingContext (C : Type 0) : Type 0 where
  top : Frame C → ThinkingContext C
  under : ThinkingContext C → Frame C → ThinkingContext C

abbrev pub frame : {C : Type 0} → ThinkingContext C → Frame C
frame (top f) = f
frame (under parent f) = f

unfoldable pub new_thinking_context : {C : Type 0} → String → ℕ → String → ThinkingContext C
new_thinking_context id now goal = top (record {
  id = id;
  goal = goal;
  task = goal;
  context = none;
  available_tools = [];
  constraints = [];
  depth = 0;
  max_depth = 3;
  created_at = now;
  updated_at = now;
})

unfoldable pub create_child_context :
    {C : Type 0} → C → ℕ → String → Option C → ThinkingContext C → ThinkingContext C
create_child_context empty now sub_task sub_context t = under t (record {
  id = "";
  goal = "";
  task = sub_task;
  context = elim sub_context [ none ↦ some empty | some c ↦ some c ];
  available_tools = (frame t).available_tools;
  constraints = (frame t).constraints;
  depth = (frame t).depth + 1;
  max_depth = (frame t).max_depth;
  created_at = now;
  updated_at = now;
})

unfoldable pub can_recurse : {C : Type 0} → ThinkingContext C → Bool
can_recurse t = ltb (frame t).depth (frame t).max_depth

-- `confidence` is the number as it is written.
pub record Analysis : Type 0 where
  pub domain : String
  pub complexity : String
  pub needs_planning : Bool
  pub reasoning : String
  pub missing_information : List String
  pub suggested_approach : String
  pub confidence : String
  pub detected_issues : List String
  pub key_areas : List String
  pub potential_risks : List String
  pub summary : String
  pub recommendations : List String
  pub created_at : ℕ

unfoldable pub new_analysis :
    ℕ → String → String → String → List String → List String → List String → Analysis
new_analysis now domain complexity summary key_areas risks recommendations = record {
  domain = domain;
  complexity = complexity;
  needs_planning = false;
  reasoning = "";
  missing_information = [];
  suggested_approach = "";
  confidence = "0";
  detected_issues = [];
  key_areas = key_areas;
  potential_risks = risks;
  summary = summary;
  recommendations = recommendations;
  created_at = now;
}

abbrev or_else : {A : Type 0} → Option A → A → A
or_else none d = d
or_else (some a) d = a

-- `lower` is strings.ToLower.
unfoldable pub new_analysis_from_dict : (String → String) → ℕ → Fields → Analysis
unfolding get texts
new_analysis_from_dict lower now data_map = record {
  domain = "";
  complexity = elim (as_text (get "complexity" data_map)) [ none ↦ "simple" | some c ↦ lower c ];
  needs_planning = or_else (as_bool (get "needs_planning" data_map)) false;
  reasoning = or_else (as_text (get "reasoning" data_map)) "";
  missing_information = texts (as_array (get "missing_information" data_map));
  suggested_approach = or_else (as_text (get "suggested_approach" data_map)) "";
  confidence = or_else (as_number (get "confidence" data_map)) "0.5";
  detected_issues = texts (as_array (get "detected_issues" data_map));
  key_areas = [];
  potential_risks = [];
  summary = "";
  recommendations = [];
  created_at = now;
}

mutual
  -- `*ThinkingResult`, with what GetAllOutputs reads: nil, or the output, if it is not nil, and the
  -- results below.
  pub data ThinkingResult (O : Type 0) : Type 0 where
    nil : ThinkingResult O
    result : Option O → SubResults O → ThinkingResult O

  pub data SubResults (O : Type 0) : Type 0 where
    end : SubResults O
    next : ThinkingResult O → SubResults O → SubResults O

unfoldable mutual
  pub get_all_outputs : {O : Type 0} → ThinkingResult O → List O
  get_all_outputs nil = []
  get_all_outputs (result none subs) = sub_outputs subs
  get_all_outputs (result (some o) subs) = o ∷ sub_outputs subs

  pub sub_outputs : {O : Type 0} → SubResults O → List O
  sub_outputs end = []
  sub_outputs (next r rs) = get_all_outputs r ++ sub_outputs rs
