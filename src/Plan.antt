-- ===== src/Plan.antt =====
-- internal/plan/plan.go: InspectionPlan. encoding/json and yaml.v3 are parameters: `Raw` is a raw
-- JSON value, and a decoder gives the new value of the variable that it decodes into, which a
-- failed decoding may have changed in part, and whether it had no error.
pub mod Parsing
pub mod Agents
pub mod Adaptive
use kube_ops_agent.Base.{
  if◌then◌else◌, same, lookup, insert, ℕ, ◌-◌, ◌/◌, String, ap, Bool, true, false, not, ◌&&◌,
  Option, none, some, List, [], ◌∷◌, map,
}

pub data ExecutionMode : Type 0 where
  parallel sequential : ExecutionMode
  other : String → ExecutionMode

pub record Step : Type 0 where
  pub agents : List String
  pub mode : ExecutionMode
  pub condition : String
  pub depends_on : List String
  pub focus_areas : List String
  pub timeout_secs : ℕ

pub record InspectionPlan : Type 0 where
  pub assessment : String
  pub priority : String
  pub steps : List Step
  pub reasoning : String
  pub allow_replan : Bool
  pub focus_areas : List String
  pub skip_agents : List String
  pub skip_reason : String
  pub raw_json : String

pub record JsonDecoder (Raw : Type 0) : Type 0 where
  pub object : String → Option (List (String × Raw))
  pub string : Raw → String → String × Bool
  pub bool : Raw → Bool → Bool × Bool
  pub strings : Raw → List String → List String × Bool
  pub steps : Raw → List Step × Bool

pub data Error : Type 0 where
  parse_error no_steps read_error : Error

pub data Result {ℓ} (A : Type ℓ) : Type ℓ where
  ok : A → Result A
  err : Error → Result A

abbrev pub is_nil {ℓ} : {A : Type ℓ} → List A → Bool
is_nil [] = true
is_nil (_ ∷ _) = false

abbrev or_normal : String → String
or_normal s = if same s "" then "normal" else s

module _ {Raw : Type 0} (d : JsonDecoder Raw) where
  -- `if v, ok := raw[key]; ok { _ = json.Unmarshal(v, &x) }`
  unfoldable pub get_string : String → List (String × Raw) → String → String
  get_string key raw x = elim (lookup key raw) [ none ↦ x | some v ↦ (d.string v x).0 ]

  unfoldable pub get_bool : String → List (String × Raw) → Bool → Bool
  get_bool key raw x = elim (lookup key raw) [ none ↦ x | some v ↦ (d.bool v x).0 ]

  unfoldable pub get_strings : String → List (String × Raw) → List String → List String
  get_strings key raw x = elim (lookup key raw) [ none ↦ x | some v ↦ (d.strings v x).0 ]

  -- The steps of the new format, if they decode without an error.
  unfoldable pub new_steps : List (String × Raw) → List Step
  new_steps raw = elim (lookup "steps" raw) [
    | none ↦ []
    | some v ↦ if (d.steps v).1 then (d.steps v).0 else []
  ]

  -- The single step of the legacy format.
  unfoldable pub legacy_steps : List (String × Raw) → List Step
  unfolding get_strings
  legacy_steps raw = elim (lookup "agents_to_invoke" raw) [
    | none ↦ []
    | some v ↦
        let (agents, fine) = d.strings v [] in
        if fine && not (is_nil agents)
        then record {
          agents = agents;
          mode = parallel;
          condition = "";
          depends_on = [];
          focus_areas = get_strings "focus_areas" raw [];
          timeout_secs = 0;
        }
          ∷ []
        else []
  ]

  unfoldable pub from_object : String → List (String × Raw) → Result InspectionPlan
  from_object s raw =
      let assessment = get_string "assessment" raw "" in
      let steps = if is_nil (new_steps raw) then legacy_steps raw else new_steps raw in
      if is_nil steps
      then err no_steps
      else ok (record {
        assessment =
            if same assessment ""
            then get_string "overall_assessment" raw assessment
            else assessment;
        priority = or_normal (get_string "priority" raw "");
        steps = steps;
        reasoning = get_string "reasoning" raw "";
        allow_replan = get_bool "allow_replan" raw false;
        focus_areas = get_strings "focus_areas" raw [];
        skip_agents = get_strings "skip_agents" raw [];
        skip_reason = get_string "skip_reasoning" raw "";
        raw_json = s;
      })

  unfoldable pub from_json : String → Result InspectionPlan
  unfolding from_object
  from_json s = elim (d.object s) [ none ↦ err parse_error | some raw ↦ from_object s raw ]

-- `LoadFromFile` on the file's text, or on none where it cannot be read; `decode` fills the fields
-- from YAML, the raw text aside.
unfoldable pub load_from_file :
    (String → Option InspectionPlan) → Option String → Result InspectionPlan
load_from_file decode none = err read_error
load_from_file decode (some text) = elim (decode text) [
  | none ↦ err parse_error
  | some w ↦
      if is_nil w.steps
      then err no_steps
      else ok (record w { raw_json = text; priority = or_normal w.priority })
]

unfoldable pub note_agents : List String → List (String × Unit {0}) → List (String × Unit {0})
note_agents [] seen = seen
note_agents (a ∷ as') seen = note_agents as' (insert a tt seen)

unfoldable pub note_steps : List Step → List (String × Unit {0}) → List (String × Unit {0})
unfolding note_agents
note_steps [] seen = seen
note_steps (s ∷ ss) seen = note_steps ss (note_agents s.agents seen)

unfoldable pub get_all_agents : InspectionPlan → List String
unfolding note_steps
get_all_agents p = map (λ e. e.0) (note_steps p.steps [])

unfoldable pub all_idle : List Step → Bool
all_idle [] = true
all_idle (s ∷ ss) = let rest = all_idle ss in if is_nil s.agents then rest else false

unfoldable pub is_empty : InspectionPlan → Bool
unfolding all_idle
is_empty p = if is_nil p.steps then true else all_idle p.steps
