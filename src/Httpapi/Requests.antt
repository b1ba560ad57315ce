-- ===== src/Httpapi/Requests.antt =====
-- internal/httpapi/agent_request.go: the text of a request and the parameters in it; and the filter of
-- agents in server.go. `trim_space` and `lower` are functions of package strings, `split` is
-- strings.Split at commas, and `atoi` strconv.Atoi, none for an error, here on numbers that are not
-- negative.
pub mod Params
use Prim.Native.String.{len, slice}
use text.Mathlib.Text.{find?}
use kube_ops_agent.Base.{
  ltb, ◌==◌, if◌then◌else◌, same, length, keep, is_member, lookup, insert, join, ℕ, ◌+◌, ◌-◌, ◌/◌,
  String, ap, Bool, true, false, not, ◌&&◌, Option, none, some, List, [], ◌∷◌, ◌++◌, map,
}
use kube_ops_agent.Agent.Spec.{Spec}

-- A block of a message's content.
pub record Block : Type 0 where
  pub kind : String
  pub text : String

-- `AgentRequest`: the blocks of each message.
abbrev pub AgentRequest : Type 0
AgentRequest = List (List Block)

-- The texts that are not empty, of the blocks of the kind `text`.
unfoldable pub block_texts : List Block → List String
block_texts [] = []
block_texts (b ∷ bs) =
    let rest = block_texts bs in
    if same b.kind "text" && not (same b.text "") then b.text ∷ rest else rest

unfoldable pub parts : AgentRequest → List String
unfolding block_texts
parts [] = []
parts (m ∷ ms) = block_texts m ++ parts ms

-- The merged text, and whether there is any. `none` is a body that does not decode.
unfoldable pub parse_agent_request : Option AgentRequest → String × Bool
unfolding parts join
parse_agent_request none = ("", false)
parse_agent_request (some req) = (join " " (parts req), ltb 0 (length (parts req)))

module _ (trim_space : String → String) (split : String → List String) where
  -- One parameter, in the map.
  unfoldable pub add_param : String → List (String × String) → List (String × String)
  add_param raw out =
      let param : String = trim_space raw in
      elim (find? param ":") [
        | none ↦ out
        | some idx ↦
            let k : String = trim_space (slice param 0 idx) in
            let v : String = trim_space (slice param (idx + 1) (len param)) in
            if ltb 0 idx && not (same k "") then insert k v out else out
      ]

  unfoldable pub add_params : List String → List (String × String) → List (String × String)
  unfolding add_param
  add_params [] out = out
  add_params (p ∷ ps) out = add_params ps (add_param p out)

  unfoldable pub parse_params_from_text : String → List (String × String)
  unfolding add_params
  parse_params_from_text text = add_params (split text) []

module _ (trim_space lower : String → String) (atoi : String → Option ℕ) where
  unfoldable pub get_int : List (String × String) → String → ℕ → ℕ
  get_int params key default = elim (lookup key params) [
    | none ↦ default
    | some v ↦ elim (atoi (trim_space v)) [ none ↦ default | some n ↦ n ]
  ]

  unfoldable pub get_bool : List (String × String) → String → Option Bool
  get_bool params key = elim (lookup key params) [
    | none ↦ none
    | some v ↦
        let w : String = trim_space (lower v) in
        if same w "true" then some true else if same w "false" then some false else none
  ]

  unfoldable pub get_string : List (String × String) → String → String
  get_string params key = elim (lookup key params) [ none ↦ trim_space "" | some v ↦ trim_space v ]

-- `cut` is what follows `agent_names:` in a text, if that occurs in it.
module _ (trim_space : String → String) (split : String → List String)
    (cut : String → Option String) where
  -- The names in the blocks of a trigger request.
  unfoldable pub names_in : List Block → List String
  names_in [] = []
  names_in (b ∷ bs) =
      let rest = names_in bs in
      if same b.kind "text"
      then elim (cut b.text) [
        | none ↦ rest
        | some names ↦ keep (λ n. not (same n "")) (map trim_space (split names)) ++ rest
      ]
      else rest

  unfoldable pub agent_names_filter : AgentRequest → List String
  unfolding names_in
  agent_names_filter [] = []
  agent_names_filter (m ∷ ms) = names_in m ++ agent_names_filter ms

-- What handleTrigger answers.
pub data Trigger : Type 0 where
  no_agents no_matching : Trigger
  triggers : List Spec → Trigger

-- The agents that a trigger request runs.
unfoldable pub select : List String → List Spec → Trigger
unfolding is_member
select names specs =
    if length specs == 0
    then no_agents
    else if length names == 0
    then triggers specs
    else (let filtered = keep (λ s. is_member s.name names) specs in
        if length filtered == 0 then no_matching else triggers filtered)
