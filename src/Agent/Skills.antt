-- ===== src/Agent/Skills.antt =====
-- internal/agent/registry.go: what a skill directory says of its agent, and the registry that a walk
-- over the directories builds. `D` stands for the bytes of a file; what the file system, yaml.v3 and
-- the regular expression of the front matter answer are arguments, as are `whole`, which makes an int
-- of a number, and `join_path`, filepath.Join.
pub mod Registered
use Prim.Native.String as Str
use Prim.Native.String.{len, slice}
use kube_ops_agent.Base.{
  leb, ◌==◌, if◌then◌else◌, same, length, insert, join, ℕ, ◌+◌, ◌-◌, ◌/◌, String, ◌≡◌, refl, ◌⊎◌,
  inl, inr, Bool, true, not, ◌&&◌, ◌||◌, Option, none, some, List, [], ◌∷◌, ◌++◌,
}
use kube_ops_agent.Json.{Json, Fields, get, as_text, as_array, as_bool, as_number, texts}
use kube_ops_agent.Agent.Spec.{Spec, Registry}

-- `cfg`, and the fields that AgentDSL has in common with it.
pub record Config : Type 0 where
  pub name : String
  pub description : String
  pub interval_second : ℕ
  pub report_section : String
  pub sub_skills : List String
  pub read_only : Option Bool

-- A value, or the text of an error.
pub data Result (A : Type 0) : Type 0 where
  ok : A → Result A
  err : String → Result A

pub Result-cases :
    {A : Type 0} (r : Result A) → ((a : A) × (r ≡ ok a)) ⊎ ((e : String) × (r ≡ err e))
Result-cases (ok a) = inl (a, refl)
Result-cases (err e) = inr (e, refl)

abbrev or_empty : Option String → String
or_empty none = ""
or_empty (some s) = s

-- The front matter of SKILL.md as a configuration.
unfoldable pub of_front_matter : (String → ℕ) → Fields → Config
unfolding get texts
of_front_matter whole fm =
    let agent_name = or_empty (as_text (get "agent_name" fm)) in
    record {
      name = if same agent_name "" then or_empty (as_text (get "name" fm)) else agent_name;
      description = or_empty (as_text (get "description" fm));
      interval_second = elim (as_number (get "interval_seconds" fm)) [
        | none ↦ 0
        | some n ↦ whole n
      ];
      report_section = or_empty (as_text (get "report_section" fm));
      sub_skills = texts (as_array (get "sub_skills" fm));
      read_only = as_bool (get "read_only" fm);
    }

-- A path of the walk, with what is read about it.
pub record Entry (D : Type 0) : Type 0 where
  pub walk_error : Option String
  pub is_dir : Bool
  pub dir : String
  pub dir_base : String
  pub base : String
  pub bytes : Result D
  pub agent_yaml_beside : Bool
  pub sub_skill_entries : Option (List (Bool × String))

-- `strings.HasSuffix`
abbrev ends_with : String → String → Bool
ends_with text suffix =
    leb (len suffix) (len text) && same (slice text (len text - len suffix) (len text)) suffix

-- The paths of the `.md` files among the entries, which say whether they are directories.
unfoldable pub sub_skill_paths : List (Bool × String) → List String
sub_skill_paths [] = []
sub_skill_paths ((is_dir, name) ∷ es) =
    let rest = sub_skill_paths es in
    if is_dir || not (ends_with name ".md") then rest else Str.◌++◌ "sub-skills/" name ∷ rest

unfoldable pub discover_sub_skills : Option (List (Bool × String)) → List String
unfolding sub_skill_paths
discover_sub_skills none = []
discover_sub_skills (some es) = sub_skill_paths es

-- `firstNonEmpty`
unfoldable pub first_non_empty : List String → String
first_non_empty [] = ""
first_non_empty (v ∷ vs) = let rest = first_non_empty vs in if same v "" then rest else v

-- What a decoder makes of agent.yaml, and of the front matter of SKILL.md, none for an error or no
-- front matter.
pub record Decoders (D : Type 0) : Type 0 where
  pub agent_yaml : D → Result Config
  pub front_matter : D → Option Fields
  pub whole : String → ℕ

module _ {D : Type 0} (decode : Decoders D) (only_interval_positive : Bool) where
  -- The configuration of a file; `none` for a file that is passed over.
  unfoldable pub config_of : Entry D → Result (Option Config)
  unfolding of_front_matter
  config_of en =
      if same en.base "agent.yaml"
      then elim en.bytes [
        | err e ↦ err e
        | ok d ↦ elim (decode.agent_yaml d) [ err e ↦ err e | ok c ↦ ok (some c) ]
      ]
      else if same en.base "SKILL.md"
      then elim en.bytes [
        | err e ↦ err e
        | ok d ↦ elim (decode.front_matter d) [
          | none ↦ ok none
          | some fm ↦ ok (some (of_front_matter decode.whole fm))
        ]
      ]
      else ok none

  -- The spec of a configuration, if it is registered.
  unfoldable pub spec_of : Entry D → Config → Option Spec
  unfolding discover_sub_skills first_non_empty
  spec_of en c =
      if same c.name "" || (same en.base "SKILL.md" && en.agent_yaml_beside)
      then none
      else if only_interval_positive && c.interval_second == 0
      then none
      else some (record {
        name = c.name;
        skill_name = c.name;
        description = c.description;
        skill_dir = en.dir;
        interval_second = c.interval_second;
        report_section = first_non_empty (c.report_section ∷ en.dir_base ∷ []);
        sub_skills =
            if length c.sub_skills == 0
            then discover_sub_skills en.sub_skill_entries
            else c.sub_skills;
        read_only = elim c.read_only [ none ↦ true | some b ↦ b ];
      })

  -- The registry after a file.
  unfoldable pub entered : Entry D → Result (Option Config) → Registry → Result Registry
  entered en (err e) specs = err e
  entered en (ok none) specs = ok specs
  entered en (ok (some c)) specs = elim (spec_of en c) [
    | none ↦ ok specs
    | some s ↦ ok (insert s.name s specs)
  ]

  -- The function of the walk.
  unfoldable pub visit : Entry D → Registry → Result Registry
  unfolding entered
  visit en specs = elim en.walk_error [
    | some e ↦ err e
    | none ↦ if en.is_dir then ok specs else entered en (config_of en) specs
  ]

  unfoldable pub walk : List (Entry D) → Registry → Result Registry
  walk [] specs = ok specs
  walk (en ∷ ens) specs = elim (visit en specs) [ err e ↦ err e | ok specs' ↦ walk ens specs' ]

  -- `root` is what os.Stat answers: whether the root is a directory.
  unfoldable pub new_file_registry : String → Result Bool → List (Entry D) → Result Registry
  new_file_registry skills_root root ens = elim root [
    | err e ↦ err e
    | ok is_dir ↦
        if not is_dir then err (Str.◌++◌ "skills root is not a dir: " skills_root) else walk ens []
  ]

-- The summary's skill directory, or ""; the two tests are those of os.Stat.
unfoldable pub get_summary_skill_dir :
    (String → Bool) → (String → String → String) → String → String
get_summary_skill_dir exists join_path skills_root =
    let dir = join_path skills_root "summary" in
    if exists (join_path dir "SKILL.md")
    then dir
    else if exists (join_path dir "agent.yaml")
    then dir
    else ""
