-- ===== src/Mcp/Registry.antt =====
-- internal/mcp/registry.go: the registry of servers and tools, its configuration and its runtime; and
-- internal/mcp/raw_tool.go. `D` stands for the bytes of a file; the decoders are those of yaml.Unmarshal
-- into each type.
pub mod Starts
pub mod Servers
use Prim.Native.String as Str
use kube_ops_agent.Base.{
  ltb, if◌then◌else◌, same, length, take, keep, lookup, insert, ℕ, suc, ◌+◌, ◌-◌, ◌/◌, String, ap,
  Bool, not, ◌&&◌, ◌||◌, Option, none, some, List, [], ◌∷◌, ◌++◌, map,
}
use kube_ops_agent.Json.{Fields}
use kube_ops_agent.Mcp.Protocol.{Tool, ToolResult, ServerConfig, Result, ok, err, get_text}
use kube_ops_agent.Mcp.Client.{Outside, Called, panicked, returned}
use kube_ops_agent.Mcp.Runtime.{Runtime, new_runtime, initialize, shutdown, call_tool, get_tools}

pub record Server : Type 0 where
  pub name : String
  pub description : String
  pub tools : List String

pub record Registry : Type 0 where
  pub servers : List (String × Server)
  pub tools : List (String × Tool)
  pub runtime : Option Runtime

abbrev pub new_registry : Registry
new_registry = record { servers = []; tools = []; runtime = none }

-- The two formats of the configuration.
pub record ToolEntry : Type 0 where
  pub name : String
  pub description : String
  pub input_schema : Option Fields

pub record ServerEntry : Type 0 where
  pub name : String
  pub description : String
  pub tools : List ToolEntry

pub record Decoders (D : Type 0) : Type 0 where
  pub config_a : D → Result (List ServerEntry)
  pub config_b : D → Result (List ServerConfig)
  pub server_configs : D → Result (List ServerConfig)

unfoldable pub add_entries : String → List ToolEntry → Registry → Registry
add_entries server [] r = r
add_entries server (t ∷ ts) r = add_entries server ts (record r {
  tools =
      insert t.name
        (record {
          name = t.name;
          description = t.description;
          server_name = server;
          input_schema = t.input_schema;
        })
        r.tools;
})

-- The first format: servers with the tools that they list.
unfoldable pub add_servers_a : List ServerEntry → Registry → Registry
unfolding add_entries
add_servers_a [] r = r
add_servers_a (srv ∷ srvs) r = add_servers_a srvs (
    add_entries srv.name srv.tools (record r {
      servers =
          insert srv.name
            (record {
              name = srv.name;
              description = srv.description;
              tools = map (λ t. t.name) srv.tools;
            })
            r.servers;
    }))

-- The second format: servers that are enabled and have a name.
unfoldable pub add_servers_b : List ServerConfig → Registry → Registry
add_servers_b [] r = r
add_servers_b (sc ∷ scs) r = add_servers_b scs (
    if not sc.enabled || same sc.name "" then r else record r {
      servers =
          insert sc.name (record { name = sc.name; description = sc.description; tools = [] })
            r.servers;
    })

module _ {D : Type 0} (decode : Decoders D) where
  -- The registry, or the text of an error. The argument is what a read of the file gives.
  unfoldable pub init_from_config : Result D → Result Registry
  unfolding add_servers_a add_servers_b
  init_from_config (err e) = err (Str.◌++◌ "read mcp config: " e)
  init_from_config (ok bytes) = elim (decode.config_a bytes) [
    | err e ↦ err (Str.◌++◌ "parse mcp config: " e)
    | ok srvs ↦
        let r = add_servers_a srvs new_registry in
        if ltb 0 (length r.servers)
        then ok r
        else elim (decode.config_b bytes) [ err e ↦ ok r | ok scs ↦ ok (add_servers_b scs r) ]
  ]

  -- `missing`: os.Stat says that there is no such file.
  unfoldable pub try_init_from_config : Bool → Result D → Option (Result Registry)
  unfolding init_from_config
  try_init_from_config missing read = if missing then none else some (init_from_config read)

  -- The configurations that can be connected.
  unfoldable pub load_server_configs : Result D → List ServerConfig
  load_server_configs (err e) = []
  load_server_configs (ok bytes) = elim (decode.server_configs bytes) [
    | err e ↦ []
    | ok scs ↦ keep (λ s. s.enabled && (not (same s.command "") || not (same s.url ""))) scs
  ]

abbrev pub list_servers : Registry → List Server
list_servers r = map (λ e. e.1) r.servers

abbrev pub list_tools : Registry → List Tool
list_tools r = map (λ e. e.1) r.tools

abbrev pub get_tool : String → Registry → Option Tool
get_tool name r = lookup name r.tools

abbrev pub is_initialized : Registry → Bool
is_initialized r = ltb 0 (length r.servers) || ltb 0 (length r.tools)

abbrev pub connected_servers : Registry → List String
connected_servers r = map (λ e. e.0) r.servers

abbrev pub tool_count : Registry → ℕ
tool_count r = length r.tools

-- What InitializeMCP enters for a tool of the runtime.
unfoldable pub add_runtime_tool : Tool → Registry → Registry
add_runtime_tool t r = record r {
  tools = insert t.name t r.tools;
  servers = elim (lookup t.server_name r.servers) [
    | none ↦ r.servers
    | some srv ↦ insert t.server_name (record srv { tools = srv.tools ++ (t.name ∷ []) }) r.servers
  ];
}

unfoldable pub add_runtime_tools : List Tool → Registry → Registry
add_runtime_tools [] r = r
add_runtime_tools (t ∷ ts) r = add_runtime_tools ts (add_runtime_tool t r)

module _ {W D : Type 0} (out : Outside W) (decode : Decoders D) where
  -- The file is read twice. The outer `none` is a panic.
  unfoldable pub initialize_mcp : W → Result D → Result D → W × Option (Result Registry)
  unfolding init_from_config load_server_configs add_runtime_tools
  initialize_mcp w first second = elim (init_from_config decode first) [
    | err e ↦ (w, some (err e))
    | ok r ↦
        let configs = load_server_configs decode second in
        if ltb 0 (length configs)
        then (let (w', o) = initialize out w configs new_runtime in
            (
              w',
              elim o [
                | none ↦ none
                | some rt ↦
                    some (ok (add_runtime_tools (get_tools rt) (record r { runtime = some rt })))
              ],
            ))
        else (w, some (ok r))
  ]

module _ {W : Type 0} (out : Outside W) where
  unfoldable pub shutdown_mcp : W → Registry → W × Registry
  shutdown_mcp w r = elim r.runtime [
    | none ↦ (w, r)
    | some rt ↦ ((shutdown out w rt).0, record r { runtime = none })
  ]

-- What a tool's function gives: a panic, an error, or the content and its text.
pub data Outcome : Type 0 where
  panics : Outcome
  fails : String → Outcome
  replies : List Fields → String → Outcome

module _ {W : Type 0} (out : Outside W) where
  -- The function of the tool that CreateMCPToolFunction makes, as the raw tool's Execute runs it: an
  -- error takes the place of the value that stands beside it.
  unfoldable pub run_tool : W → String → Fields → Registry → W × Registry × Outcome
  unfolding get_text
  run_tool w name args r = elim r.runtime [
    | none ↦ (w, r, fails (Str.◌++◌ "MCP tool " (Str.◌++◌ name ": runtime not initialized")))
    | some rt ↦
        let (w', rt', res) = call_tool out w name args rt in
        (
          w',
          record r { runtime = some rt' },
          elim res [
            | panicked ↦ panics
            | returned a ↦ elim a [ err e ↦ fails e | ok t ↦ replies t.content (get_text t) ]
          ],
        )
  ]

-- The name and the description of that tool.
abbrev pub described : Tool → String × String
described t =
    (t.name, if same t.description "" then Str.◌++◌ "MCP tool: " t.name else t.description)

abbrev pub mcp_tools_as_agent_tools : Registry → List (String × String)
mcp_tools_as_agent_tools r = map described (list_tools r)
