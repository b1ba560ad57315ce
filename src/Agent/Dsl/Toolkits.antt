-- ===== src/Agent/Dsl/Toolkits.antt =====
-- The toolkit of an agent, and the names of those that load.
use mathlib.Core.Path.{subst}
use kube_ops_agent.Base.{
  ltb, ◌==◌, if◌then◌else◌, same, Bool-cases, Option-cases, length, keep, is_member, lookup, insert,
  lookup-insert, ◌≤◌, String, ◌≡◌, refl, ap, ◌∙◌, ◌≢◌, inl, inr, Bool, true, false, ◌||◌, some,
  List, [], ◌∷◌, ◌++◌, map, arith,
}
use kube_ops_agent.Agent.Skills.{Result, Result-cases, ok, err, of_front_matter}
use kube_ops_agent.Agent.Dsl.{
  ToolkitConfig, AgentDsl, Tool, kubectl, shell_command, view_text_file, mcp, filter_of, has,
  passed, build_toolkit, Decoders, load_skill_md, load_agent_dsl,
}

module _ {T : Type 0} (name_of : T → String) where
  has-filter_of :
      (name : String) (ns : List String)
      → has name_of name (filter_of name_of ns) ≡ is_member name ns
  unfolding filter_of is_member lookup
  has-filter_of name [] = refl
  has-filter_of name (n ∷ ns) =
      ground (arith, lookup-insert n name tt (filter_of name_of ns), has-filter_of name ns)

  -- Whether the names let a tool pass: there are none, or its name is among them.
  abbrev pub lets_pass : List String → T → Bool
  lets_pass ns t = length ns == 0 || is_member (name_of t) ns

  length-insert_pos : (n : String) (m : List (String × Unit {0})) → 1 ≤ length (insert n tt m)
  unfolding insert
  length-insert_pos n [] = ground arith
  length-insert_pos n ((k, u) ∷ m) = ground arith

  length-filter_of : (ns : List String) → (length (filter_of name_of ns) == 0) ≡ (length ns == 0)
  unfolding filter_of
  length-filter_of [] = refl
  length-filter_of (n ∷ ns) = ground (arith, length-insert_pos n (filter_of name_of ns))

  passed-keep :
      (ns : List String) (ts : List T)
      → passed name_of (filter_of name_of ns) ts ≡ map mcp (keep (lets_pass ns) ts)
  unfolding passed
  passed-keep ns [] = refl
  passed-keep ns (t ∷ ts) =
      let filter = filter_of name_of ns in
      let same_test : (length filter == 0 || has name_of (name_of t) filter) ≡ lets_pass ns t =
        ap (λ b. b || has name_of (name_of t) filter) (length-filter_of ns)
        ∙ ap (λ b. length ns == 0 || b) (has-filter_of (name_of t) ns) in
      elim (Bool-cases (lets_pass ns t)) [
        | inl e ↦ rw (same_test ∙ e, passed, e) (ap (λ xs. mcp t ∷ xs) (passed-keep ns ts))
        | inr e ↦ rw (same_test ∙ e, passed, e) (passed-keep ns ts)
      ]

  -- The toolkit of an agent whose configuration has one: kubectl, the built-in tools if it says so,
  -- and, if it uses MCP, those of the registry's tools whose names it lists, or all where it lists none, in the registry's order.
  pub build_toolkit_lem :
      (dsl : AgentDsl) (tk : ToolkitConfig) (ts : List T)
      → dsl.toolkit ≡ some tk
      → build_toolkit name_of dsl ts
        ≡ kubectl ∷ (if tk.use_builtins then shell_command ∷ view_text_file ∷ [] else [])
          ++ (if tk.use_mcp then map mcp (keep (lets_pass tk.mcp_tools) ts) else [])
  unfolding build_toolkit
  build_toolkit_lem dsl tk [] h = ground (arith, h)
  build_toolkit_lem dsl tk (t ∷ ts) h =
      let builtins : List (Tool T) =
        if tk.use_builtins then shell_command ∷ view_text_file ∷ [] else [] in
      let some_there : ltb 0 (length (t ∷ ts)) ≡ true = ground arith in
      elim (Bool-cases tk.use_mcp) [
        | inr off ↦ rw (h, build_toolkit, off) refl
        | inl on ↦
            rw (h, build_toolkit, on, some_there)
              (ap (λ xs. kubectl ∷ builtins ++ xs) (passed-keep tk.mcp_tools (t ∷ ts)))
      ]

not_same : (s t : String) → same s t ≡ false → s ≢ t
not_same s t h = ground arith

abbrev IsNamed : Result AgentDsl → Type 0
IsNamed (err e) = Unit
IsNamed (ok dsl) = dsl.config.name ≢ ""

module _ {D : Type 0} (decode : Decoders D) where
  load_skill_md-IsNamed :
      (skill_dir : String) (skill_md : Result D) → IsNamed (load_skill_md decode skill_dir skill_md)
  unfolding load_skill_md
  load_skill_md-IsNamed skill_dir (err e) = tt
  load_skill_md-IsNamed skill_dir (ok bytes) = elim (Option-cases (decode.front_matter bytes)) [
    | inl nothing ↦ rw (nothing, load_skill_md) tt
    | inr (fm, there) ↦
        let c = of_front_matter decode.whole fm in
        elim (Bool-cases (same c.name "")) [
          | inl unnamed ↦ rw (there, load_skill_md, unnamed) tt
          | inr named ↦ rw (there, load_skill_md, named) (not_same c.name "" named)
        ]
  ]

  load_agent_dsl-IsNamed :
      (skill_dir : String) (agent_yaml skill_md : Result D)
      → IsNamed (load_agent_dsl decode skill_dir agent_yaml skill_md)
  unfolding load_agent_dsl
  load_agent_dsl-IsNamed skill_dir (err e) skill_md = load_skill_md-IsNamed skill_dir skill_md
  load_agent_dsl-IsNamed skill_dir (ok bytes) skill_md =
      elim (Result-cases (decode.agent_yaml bytes)) [
        | inr (e, bad) ↦ rw (bad, load_agent_dsl) tt
        | inl (dsl, good) ↦ elim (Bool-cases (same dsl.config.name "")) [
          | inl unnamed ↦
              rw (good, load_agent_dsl, unnamed) (load_skill_md-IsNamed skill_dir skill_md)
          | inr named ↦ rw (good, load_agent_dsl, named) (not_same dsl.config.name "" named)
        ]
      ]

  -- A DSL that loads has a name that is not empty.
  pub load_agent_dsl-named :
      (skill_dir : String) (agent_yaml skill_md : Result D) (dsl : AgentDsl)
      → load_agent_dsl decode skill_dir agent_yaml skill_md ≡ ok dsl
      → dsl.config.name ≢ ""
  load_agent_dsl-named skill_dir agent_yaml skill_md dsl h =
      subst IsNamed h (load_agent_dsl-IsNamed skill_dir agent_yaml skill_md)
