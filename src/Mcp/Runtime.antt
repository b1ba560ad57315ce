-- ===== src/Mcp/Runtime.antt =====
-- internal/mcp/client.go: Runtime, the clients that are connected and the tools that they offer.
pub mod Served
pub mod Cancelled
use Prim.Native.String as Str
use kube_ops_agent.Base.{
  if◌then◌else◌, same, is_member, lookup, insert, ◌+◌, ◌-◌, ◌/◌, String, ap, true, false, not,
  Option, none, some, List, [], ◌∷◌, ◌++◌, map,
}
use kube_ops_agent.Json.{Fields}
use kube_ops_agent.Mcp.Protocol.{Tool, ServerConfig, Result, err}
use kube_ops_agent.Mcp.Client.{
  Outside, Called, returned, Client, stdio, http, tools, connect, call, close, new_stdio_client,
  new_http_client,
}

-- The three maps: the clients by server, the tools by name, and the server of each tool.
pub record Maps : Type 0 where
  pub clients : List (String × Client)
  pub tools : List (String × Tool)
  pub server : List (String × String)

-- `none`: the maps are nil, after Shutdown.
pub record Runtime : Type 0 where
  pub maps : Option Maps

abbrev pub new_runtime : Runtime
new_runtime = record { maps = some (record { clients = []; tools = []; server = [] }) }

-- The client for a configuration, if it has an address or a command.
unfoldable pub client_for : ServerConfig → Option Client
unfolding new_http_client new_stdio_client
client_for cfg =
    if not (same cfg.url "")
    then elim (new_http_client cfg) [ none ↦ none | some hc ↦ some (http hc) ]
    else if not (same cfg.command "")
    then some (stdio (new_stdio_client cfg))
    else none

unfoldable pub add_tools : String → List Tool → Maps → Maps
add_tools server [] m = m
add_tools server (t ∷ ts) m =
    add_tools server ts
      (record m { tools = insert t.name t m.tools; server = insert t.name server m.server })

-- What is entered for a connected client.
unfoldable pub add_client : String → Client → Maps → Maps
unfolding add_tools
add_client server c m =
    add_tools server (tools c) (record m { clients = insert server c m.clients })

module _ {W : Type 0} (out : Outside W) where
  -- One configuration; `none` is a panic, when an entry is made in a nil map.
  unfoldable pub initialize_one : W → ServerConfig → Runtime → W × Option Runtime
  initialize_one w cfg r = if not cfg.enabled then (w, some r) else elim (client_for cfg) [
    | none ↦ (w, some r)
    | some client ↦
        let (w', c, e) = connect out w client in
        (
          w',
          elim e [
            | some _ ↦ some r
            | none ↦ elim r.maps [
              | none ↦ none
              | some m ↦ some (record { maps = some (add_client cfg.name c m) })
            ]
          ],
        )
  ]

  unfoldable pub initialize_all : W → List ServerConfig → Runtime → W × Option Runtime
  unfolding initialize_one
  initialize_all w [] r = (w, some r)
  initialize_all w (cfg ∷ cfgs) r =
      let (w', o) = initialize_one w cfg r in
      elim o [ none ↦ (w', none) | some r' ↦ initialize_all w' cfgs r' ]

  -- The context of the connections is cancelled when the call returns, and when it panics.
  unfoldable pub initialize : W → List ServerConfig → Runtime → W × Option Runtime
  unfolding initialize_all
  initialize w cfgs r = let (w', o) = initialize_all w cfgs r in (out.cancel w', o)

  unfoldable pub close_all : W → List (String × Client) → W
  unfolding close
  close_all w [] = w
  close_all w ((name, c) ∷ cs) = close_all (close out w c).0 cs

  unfoldable pub shutdown : W → Runtime → W × Runtime
  unfolding close_all
  shutdown w r = elim r.maps [
    | none ↦ (w, record { maps = none })
    | some m ↦ (close_all w m.clients, record { maps = none })
  ]

  -- The call of a tool, and the client's new state in the map.
  unfoldable pub call_tool : W → String → Fields → Runtime → W × Runtime × Called
  unfolding call
  call_tool w name args r = elim r.maps [
    | none ↦ (w, r, returned (err (Str.◌++◌ "tool not found: " name)))
    | some m ↦ elim (lookup name m.server) [
      | none ↦ (w, r, returned (err (Str.◌++◌ "tool not found: " name)))
      | some server ↦ elim (lookup server m.clients) [
        | none ↦ (w, r, returned (err (Str.◌++◌ "server not connected: " server)))
        | some c ↦
            let (w', d, res) = call out w name args c in
            (w', record { maps = some (record m { clients = insert server d m.clients }) }, res)
      ]
    ]
  ]

-- The tools whose names were not seen before.
unfoldable pub unseen : List String → List (String × Tool) → List Tool
unseen seen [] = []
unseen seen ((k, t) ∷ ts) =
    let rest = unseen seen ts in
    let rest' = unseen (t.name ∷ seen) ts in
    elim (is_member t.name seen) [ true ↦ rest | false ↦ t ∷ rest' ]

unfoldable pub get_tools : Runtime → List Tool
unfolding unseen
get_tools r = elim r.maps [ none ↦ [] | some m ↦ unseen [] m.tools ]
