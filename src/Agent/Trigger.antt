-- ===== src/Agent/Trigger.antt =====
-- internal/agent/trigger.go: MakeTriggerMsg. `V` is the values of the input, and `show` what the
-- format %v makes of one; a rune is a character.
use Prim.Native.String as Str
use Prim.Native.String.{len, slice}
use kube_ops_agent.Base.{leb, if◌then◌else◌, same, join, ℕ, String, ◌||◌, List, [], ◌∷◌, map}
use kube_ops_agent.Agent.Spec.{Spec}

-- `truncateStr`
unfoldable pub truncate_str : String → ℕ → String
truncate_str s max = if leb (len s) max then s else Str.◌++◌ (slice s 0 max) "..."

unfoldable pub orchestrator_part : String → String
orchestrator_part context =
    if same context ""
    then ""
    else Str.◌++◌
        "## Orchestrator Assessment\n\nThe Orchestrator Agent has analyzed the cluster and provides this context:\n\n"
        (Str.◌++◌ context "\n\n---\n")

unfoldable pub focus_part : List String → String
unfolding join
focus_part [] = ""
focus_part (a ∷ more) =
    Str.◌++◌
      "## Focus Areas\n\nBased on the orchestrator's analysis, please pay special attention to:\n"
      (Str.◌++◌ (join "\n" (map (λ f. Str.◌++◌ "- " f) (a ∷ more))) "\n\n---\n")

module _ {V : Type 0} (show : V → String) where
  -- The parts of the input but for the two keys that have a part of their own.
  unfoldable pub context_parts : List (String × V) → List String
  unfolding truncate_str
  context_parts [] = []
  context_parts ((k, v) ∷ input) =
      let rest = context_parts input in
      if same k "orchestrator_context" || same k "focus_areas"
      then rest
      else Str.◌++◌ "### Context from " (Str.◌++◌ k (Str.◌++◌ ":\n" (truncate_str (show v) 2000)))
        ∷ rest

  unfoldable pub context_part : List (String × V) → String
  unfolding context_parts join
  context_part input = elim (context_parts input) [
    | [] ↦ ""
    | c ∷ cs ↦
        Str.◌++◌ "## Previous Stage Context\n\n" (Str.◌++◌ (join "\n\n" (c ∷ cs)) "\n\n---\n")
  ]

  unfoldable pub make_trigger_msg :
      (String → String → String) → Spec → List (String × V) → List String → String → String
  unfolding orchestrator_part focus_part context_part join
  make_trigger_msg join_path spec input focus_areas context = join "" (
      "Please execute the ["
      ∷ spec.name
      ∷ "] inspection skill.\n\n"
      ∷ orchestrator_part context
      ∷ focus_part focus_areas
      ∷ context_part input
      ∷ "## Your Tasks\n\n1. **Read your skill file**: Use view_text_file to read "
      ∷ join_path spec.skill_dir "SKILL.md"
      ∷ "\n2. **Create execution plan**: Based on the skill and any focus areas, create a specific plan\n3. **Execute the plan**: Run the necessary kubectl commands systematically\n4. **Analyze results**: Identify issues, patterns, and provide intelligent analysis\n5. **Output report**: Generate a comprehensive Markdown report\n\nBegin by reading your skill file and creating your execution plan."
      ∷ [])
