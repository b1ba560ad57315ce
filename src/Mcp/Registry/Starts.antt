-- ===== src/Mcp/Registry/Starts.antt =====
-- InitializeMCP never panics, and its registry has the tools that it found.
use mathlib.Core.Path.{subst}
use kube_ops_agent.Base.{
  ltb, Bool-cases, Option-cases, str_dec, length, All, lookup, lookup-insert, HasKey,
  HasDistinctKeys, String, ◌≡◌, refl, sym, ap, ◌∙◌, ◌≢◌, inl, inr, ite, if_pos, if_neg, Option,
  none, some, List, [], ◌∷◌, map, arith,
}
use kube_ops_agent.Mcp.Protocol.{Tool, ServerConfig, Result, Result-cases, ok, err}
use kube_ops_agent.Mcp.Client.{Outside, connect}
use kube_ops_agent.Mcp.Runtime.{
  Runtime, Maps, new_runtime, client_for, add_client, initialize_one, initialize_all, initialize,
  get_tools,
}
use kube_ops_agent.Mcp.Runtime.Served.{run-IsServed, run, initializes}
use kube_ops_agent.Mcp.Registry.{
  Registry, Decoders, ServerEntry, ToolEntry, add_entries, add_servers_a, add_servers_b,
  new_registry, init_from_config, load_server_configs, add_runtime_tool, add_runtime_tools,
  initialize_mcp,
}

module _ {W : Type 0} (out : Outside W) where
  -- There is a runtime with its maps.
  abbrev HasMaps : Option Runtime → Type 0
  HasMaps o = (m : Maps) × (o ≡ some (record { maps = some m }))

  initialize_one-HasMaps :
      (w : W) (cfg : ServerConfig) (m : Maps)
      → HasMaps (initialize_one out w cfg (record { maps = some m })).1
  unfolding initialize_one
  initialize_one-HasMaps w cfg m = elim (Bool-cases cfg.enabled) [
    | inr off ↦ rw (off, initialize_one) (m, refl)
    | inl on ↦ elim (Option-cases (client_for cfg)) [
      | inl e ↦ rw (e, initialize_one, on) (m, refl)
      | inr (client, e) ↦ elim (Option-cases (connect out w client).2) [
        | inr (text, bad) ↦ rw (e, initialize_one, bad, on) (m, refl)
        | inl good ↦
            rw (e, initialize_one, good, on) (add_client cfg.name (connect out w client).1 m, refl)
      ]
    ]
  ]

  initialize_all-HasMaps :
      (w : W) (cfgs : List ServerConfig) (m : Maps)
      → HasMaps (initialize_all out w cfgs (record { maps = some m })).1
  unfolding initialize_all
  initialize_all-HasMaps w [] m = (m, refl)
  initialize_all-HasMaps w (cfg ∷ cfgs) m =
      let (m', e) = initialize_one-HasMaps w cfg m in
      rw (e, initialize_all)
        (initialize_all-HasMaps (initialize_one out w cfg (record { maps = some m })).0 cfgs m')

  initialize-HasMaps :
      (w : W) (cfgs : List ServerConfig) → HasMaps (initialize out w cfgs new_runtime).1
  unfolding initialize
  initialize-HasMaps w cfgs =
      initialize_all-HasMaps w cfgs (record { clients = []; tools = []; server = [] })

abbrev get_tool_or : Tool → Option Tool → Tool
get_tool_or t none = t
get_tool_or t (some u) = u

add_runtime_tool-tools :
    (k : String) (t : Tool) (r : Registry)
    → lookup k (add_runtime_tool t r).tools ≡ ite (str_dec k t.name) (some t) (lookup k r.tools)
unfolding add_runtime_tool
add_runtime_tool-tools k t r = lookup-insert t.name k t r.tools

add_runtime_tool-runtime : (t : Tool) (r : Registry) → (add_runtime_tool t r).runtime ≡ r.runtime
unfolding add_runtime_tool
add_runtime_tool-runtime t r = refl

add_runtime_tools_absent :
    (k : String) (l : List (String × Tool)) (r : Registry)
    → All (λ e. e.1.name ≡ e.0) l
    → ¬ HasKey k l
    → lookup k (add_runtime_tools (map (λ e. e.1) l) r).tools ≡ lookup k r.tools
unfolding add_runtime_tools
add_runtime_tools_absent k [] r n h = refl
add_runtime_tools_absent k ((j, t) ∷ l) r n h =
    let rest = add_runtime_tools_absent k l (add_runtime_tool t r) n.1 (λ x. h (inr x)) in
    let apart : k ≢ t.name = λ e. h (inl (e ∙ n.0)) in
    rest ∙ (add_runtime_tool-tools k t r ∙ if_neg (str_dec k t.name) apart _ _)

add_runtime_tools_present :
    (k : String) (t : Tool) (l : List (String × Tool)) (r : Registry)
    → HasDistinctKeys l
    → All (λ e. e.1.name ≡ e.0) l
    → lookup k l ≡ some t
    → lookup k (add_runtime_tools (map (λ e. e.1) l) r).tools ≡ some t
unfolding add_runtime_tools lookup
add_runtime_tools_present k t [] r d n e = ground arith
add_runtime_tools_present k t ((j, u) ∷ l) r d n e =
    let next = add_runtime_tool u r in
    elim (str_dec k j) [
      | yes p ↦
          let fresh : ¬ HasKey k l = subst (λ x. ¬ HasKey x l) (sym p) d.0 in
          let found : u ≡ t = ap (get_tool_or u) (sym (if_pos (str_dec k j) p _ _) ∙ e) in
          add_runtime_tools_absent k l next n.1 fresh
          ∙ (add_runtime_tool-tools k u r
              ∙ (if_pos (str_dec k u.name) (p ∙ sym n.0) _ _ ∙ ap some found))
      | no q ↦ add_runtime_tools_present k t l next d.1 n.1 (sym (if_neg (str_dec k j) q _ _) ∙ e)
    ]

add_runtime_tools-runtime :
    (ts : List Tool) (r : Registry) → (add_runtime_tools ts r).runtime ≡ r.runtime
unfolding add_runtime_tools
add_runtime_tools-runtime [] r = refl
add_runtime_tools-runtime (t ∷ ts) r =
    add_runtime_tools-runtime ts (add_runtime_tool t r) ∙ add_runtime_tool-runtime t r

add_entries-runtime :
    (server : String) (ts : List ToolEntry) (r : Registry)
    → (add_entries server ts r).runtime ≡ r.runtime
unfolding add_entries
add_entries-runtime server [] r = refl
add_entries-runtime server (t ∷ ts) r = add_entries-runtime server ts _

add_servers_a-runtime :
    (srvs : List ServerEntry) (r : Registry) → (add_servers_a srvs r).runtime ≡ r.runtime
unfolding add_servers_a
add_servers_a-runtime [] r = refl
add_servers_a-runtime (srv ∷ srvs) r =
    add_servers_a-runtime srvs _ ∙ add_entries-runtime srv.name srv.tools _

add_servers_b-runtime :
    (scs : List ServerConfig) (r : Registry) → (add_servers_b scs r).runtime ≡ r.runtime
unfolding add_servers_b
add_servers_b-runtime [] r = refl
add_servers_b-runtime (sc ∷ scs) r = add_servers_b-runtime scs _ ∙ ground arith

init_from_config-runtime :
    {D : Type 0} (decode : Decoders D) (first : Result D) (r : Registry)
    → init_from_config decode first ≡ ok r
    → r.runtime ≡ none
unfolding init_from_config
init_from_config-runtime decode (err e) r h = ground arith
init_from_config-runtime decode (ok bytes) r h = elim (Result-cases (decode.config_a bytes)) [
  | inr (e, bad) ↦ ground (arith, bad)
  | inl (srvs, good) ↦
      let clean = add_servers_a-runtime srvs new_registry in
      elim (Result-cases (decode.config_b bytes)) [
        | inr (e, bad) ↦ ground (arith, good, bad, clean)
        | inl (scs, also) ↦
            ground (
              arith,
              good,
              also,
              clean,
              add_servers_b-runtime scs (add_servers_a srvs new_registry),
            )
      ]
]

-- Every tool of the runtime is in the registry.
abbrev pub HasRuntimeTools : Registry → Type 0
HasRuntimeTools r =
    (m : Maps) (k : String) (t : Tool)
    → r.runtime ≡ some (record { maps = some m })
    → lookup k m.tools ≡ some t
    → lookup k r.tools ≡ some t

abbrev get_registry_or : Registry → Result Registry → Registry
get_registry_or r (err e) = r
get_registry_or r (ok s) = s

abbrev get_maps_or : Maps → Option Runtime → Maps
get_maps_or m none = m
get_maps_or m (some r) = elim r.maps [ none ↦ m | some m' ↦ m' ]

module _ {W : Type 0} (out : Outside W) where
  run_once :
      (w : W) (configs : List ServerConfig) (m : Maps)
      → (initialize out w configs new_runtime).1 ≡ some (record { maps = some m })
      → (run out w (initializes configs ∷ []) new_runtime).1 ≡ some (record { maps = some m })
  unfolding run
  run_once w configs m h = rw (h, run) refl

  started-HasRuntimeTools :
      (w : W) (configs : List ServerConfig) (m : Maps) (r : Registry)
      → (initialize out w configs new_runtime).1 ≡ some (record { maps = some m })
      → HasRuntimeTools (
          add_runtime_tools
            (get_tools (record { maps = some m }))
            (record r { runtime = some (record { maps = some m }) }))
  started-HasRuntimeTools w configs m r started m' k t p q =
      let base : Registry = record r { runtime = some (record { maps = some m }) } in
      let (served, listed) =
        run-IsServed out w (initializes configs ∷ []) m (run_once w configs m started) in
      let kept = add_runtime_tools-runtime (get_tools (record { maps = some m })) base in
      let same_maps : m' ≡ m = ap (get_maps_or m) (sym p ∙ kept) in
      let here =
        add_runtime_tools_present k t m.tools base served.distinct served.names
          (ap (λ x. lookup k x.tools) (sym same_maps) ∙ q) in
      ap (λ ts. lookup k (add_runtime_tools ts base).tools) listed ∙ here

module _ {W D : Type 0} (out : Outside W) (decode : Decoders D) where
  -- InitializeMCP does not panic: it returns an error or a registry. In the registry that it returns, every tool of the
  -- runtime is found by its name.
  pub initialize_mcp-returns :
      (w : W) (first second : Result D)
      → (res : Result Registry) × ((initialize_mcp out decode w first second).1 ≡ some res)
        × ((r : Registry) → res ≡ ok r → HasRuntimeTools r)
  unfolding initialize_mcp
  initialize_mcp-returns w first second = elim (Result-cases (init_from_config decode first)) [
    | inr (text, e) ↦ (err text, rw (e, initialize_mcp) refl, λ r h. ground (arith, h))
    | inl (r, e) ↦ elim (Bool-cases (ltb 0 (length (load_server_configs decode second)))) [
      | inr none_there ↦ (
        ok r,
        rw (e, initialize_mcp, none_there) refl,
        λ r' h m k t p q. ground (arith, h, p, init_from_config-runtime decode first r e),
      )
      | inl some_there ↦
          let configs = load_server_configs decode second in
          let (m, started) = initialize-HasMaps out w configs in
          let final =
            add_runtime_tools (get_tools (record { maps = some m }))
              (record r { runtime = some (record { maps = some m }) }) in
          (
            ok final,
            rw (e, initialize_mcp, some_there, started) refl,
            λ r' h.
                subst HasRuntimeTools (ap (get_registry_or final) h)
                  (started-HasRuntimeTools out w configs m r started),
          )
    ]
  ]
