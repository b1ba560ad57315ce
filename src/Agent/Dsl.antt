-- ===== src/Agent/Dsl.antt =====
-- internal/agent/dsl.go: the DSL of an agent, its toolkit, its system prompt and its model. `D` stands
-- for the bytes of a file, `T` for the tools of the MCP registry and `M` for chat models; `join_path`
-- is filepath.Join, and `planning` the text of planningSysPromptTmpl with its four places filled.
pub mod Toolkits
use Prim.Native.String as Str
use kube_ops_agent.Base.{
  ltb, ◌==◌, if◌then◌else◌, same, length, All, lookup, insert, delete, join, ℕ, ◌+◌, ◌-◌, ◌/◌,
  String, ap, ite, Bool, true, false, not, ◌&&◌, ◌||◌, Option, none, some, List, [], ◌∷◌, ◌++◌,
}
use kube_ops_agent.Json.{Fields}
use kube_ops_agent.Agent.Skills.{Config, Result, ok, err, of_front_matter}

pub record ModelConfig : Type 0 where
  pub model : String
  pub api_key : String
  pub base_url : String

pub record ToolkitConfig : Type 0 where
  pub main_skill : String
  pub mcp_tools : List String
  pub use_mcp : Bool
  pub use_builtins : Bool

pub record AgentDsl : Type 0 where
  pub config : Config
  pub sys_prompt : String
  pub model : Option ModelConfig
  pub toolkit : Option ToolkitConfig

-- The tools of a toolkit.
pub data Tool (T : Type 0) : Type 0 where
  kubectl shell_command view_text_file : Tool T
  mcp : T → Tool T

module _ {T : Type 0} (name_of : T → String) where
  -- The loop that fills the filter.
  unfoldable pub filter_of : List String → List (String × Unit {0})
  filter_of [] = []
  filter_of (n ∷ ns) = insert n tt (filter_of ns)

  abbrev pub has : String → List (String × Unit {0}) → Bool
  has name filter = elim (lookup name filter) [ none ↦ false | some _ ↦ true ]

  -- The loop over the tools of the registry.
  unfoldable pub passed : List (String × Unit {0}) → List T → List (Tool T)
  passed filter [] = []
  passed filter (t ∷ ts) =
      let rest = passed filter ts in
      if length filter == 0 || has (name_of t) filter then mcp t ∷ rest else rest

  unfoldable pub build_toolkit : AgentDsl → List T → List (Tool T)
  unfolding filter_of passed
  build_toolkit dsl mcp_tools =
      let use_builtins : Bool = elim dsl.toolkit [ none ↦ true | some tk ↦ tk.use_builtins ] in
      let builtins : List (Tool T) =
        if use_builtins then shell_command ∷ view_text_file ∷ [] else [] in
      let chosen : List (Tool T) = elim dsl.toolkit [
        | none ↦ []
        | some tk ↦
            if tk.use_mcp && ltb 0 (length mcp_tools)
            then passed (filter_of tk.mcp_tools) mcp_tools
            else []
      ] in
      kubectl ∷ builtins ++ chosen

module _ (join_path : String → String → String)
    (planning : String → String → String → String → String) where
  -- A line for each sub-skill.
  unfoldable pub sub_skill_lines : String → List String → String
  sub_skill_lines skill_dir [] = ""
  sub_skill_lines skill_dir (p ∷ ps) =
      Str.◌++◌ "  - "
        (Str.◌++◌ (join_path skill_dir p) (Str.◌++◌ "\n" (sub_skill_lines skill_dir ps)))

  abbrev with_sub_skills : String → String → List String → String
  with_sub_skills intro skill_dir ps =
      if length ps == 0 then "" else Str.◌++◌ intro (sub_skill_lines skill_dir ps)

  unfoldable pub build_sys_prompt : AgentDsl → String → String
  unfolding sub_skill_lines
  build_sys_prompt dsl skill_dir =
      let read_only : Bool = elim dsl.config.read_only [ none ↦ true | some b ↦ b ] in
      let constraint : String =
        if read_only
        then "Never modify cluster state. Allowed: get/describe/logs/top. Forbidden: apply/delete/patch/edit/create/exec."
        else "Read-write mode: kubectl exec/cp allowed when necessary." in
      let ps = dsl.config.sub_skills in
      if not (same dsl.sys_prompt "")
      then Str.◌++◌ dsl.sys_prompt (
          Str.◌++◌
            (with_sub_skills "\n\n## Reference Sub-Skills\nYou can use view_text_file to read:\n"
              skill_dir ps)
            (Str.◌++◌ "\n\n## Security Constraints\n" constraint))
      else (let main_skill : String = elim dsl.toolkit [
        | none ↦ "SKILL.md"
        | some tk ↦ if same tk.main_skill "" then "SKILL.md" else tk.main_skill
      ] in
          planning dsl.config.description (join_path skill_dir main_skill)
            "No specific focus areas - perform comprehensive inspection."
            (with_sub_skills
              "\n## Reference Sub-Skills\nYou can also refer to these sub-skills for additional context:\n"
              skill_dir ps))

-- `configured` is NewOpenAIChatModel and `fallback` NewDefaultChatModel, none for an error or nil.
unfoldable pub resolve_model :
    {M : Type 0} → (ModelConfig → Option M) → Option M → AgentDsl → Option M
resolve_model configured fallback dsl = elim dsl.model [
  | none ↦ fallback
  | some m ↦
      if not (same m.api_key "") && not (same m.model "")
      then elim (configured m) [ some made ↦ some made | none ↦ fallback ]
      else fallback
]

-- What agent.yaml and SKILL.md decode to, and the front matter, none for an error or no front matter.
pub record Decoders (D : Type 0) : Type 0 where
  pub agent_yaml : D → Result AgentDsl
  pub front_matter : D → Option Fields
  pub whole : String → ℕ

module _ {D : Type 0} (decode : Decoders D) where
  -- The second half: SKILL.md.
  unfoldable pub load_skill_md : String → Result D → Result AgentDsl
  unfolding of_front_matter
  load_skill_md skill_dir (err e) = err e
  load_skill_md skill_dir (ok bytes) = elim (decode.front_matter bytes) [
    | none ↦ err (Str.◌++◌ "no valid SKILL.md frontmatter in " skill_dir)
    | some fm ↦
        let c = of_front_matter decode.whole fm in
        if same c.name ""
        then err (Str.◌++◌ "agent name required in " skill_dir)
        else ok (record { config = c; sys_prompt = ""; model = none; toolkit = none })
  ]

  -- What a read of agent.yaml gives, and of SKILL.md.
  unfoldable pub load_agent_dsl : String → Result D → Result D → Result AgentDsl
  unfolding load_skill_md
  load_agent_dsl skill_dir (err e) skill_md = load_skill_md skill_dir skill_md
  load_agent_dsl skill_dir (ok bytes) skill_md = elim (decode.agent_yaml bytes) [
    | err e ↦ err e
    | ok dsl ↦
        let fallback = load_skill_md skill_dir skill_md in
        if same dsl.config.name "" then fallback else ok dsl
  ]

-- `exists` is whether SKILL.md is there, and the reads are those of SKILL.md and skill.md.
unfoldable pub register_agent_skill :
    (String → String) → Bool → Result String → Result String → Result String
register_agent_skill trim_space exists upper lower = elim (if exists then upper else lower) [
  | err e ↦ err e
  | ok text ↦ ok (trim_space text)
]
