-- ===== src/Agent/Spec.antt =====
-- internal/agent/registry.go: Spec and the registry's lookups.
use kube_ops_agent.Base.{lookup, ℕ, String, Bool, Option, List, map}

pub record Spec : Type 0 where
  pub name : String
  pub skill_name : String
  pub description : String
  pub skill_dir : String
  pub interval_second : ℕ
  pub report_section : String
  pub sub_skills : List String
  pub read_only : Bool

-- `fileRegistry`: the specs by name.
abbrev pub Registry : Type 0
Registry = List (String × Spec)

abbrev pub specs : Registry → List Spec
specs reg = map (λ e. e.1) reg

abbrev pub spec_by_name : String → Registry → Option Spec
spec_by_name name reg = lookup name reg
