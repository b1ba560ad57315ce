-- ===== src/Tests/Servers.antt =====
-- internal/mcp at concrete inputs: one server with one tool.
use kube_ops_agent.Base.{
  str_dec, lookup, insert, ℕ, ◌≡◌, refl, ap, ◌≢◌, Bool, true, false, none, some, [], ◌∷◌,
}
use kube_ops_agent.Json.{text, array, object, done, item, Fields, end, field}
use kube_ops_agent.Mcp.Protocol.{ServerConfig, Tool, Result, ok, err}
use kube_ops_agent.Mcp.Client.{Outside, StdioClient, stdio, returned, connect, call}
use kube_ops_agent.Mcp.Runtime.{Maps, new_runtime, initialize, call_tool, client_for, add_client}
use kube_ops_agent.Mcp.Runtime.Served.{run}
use kube_ops_agent.Mcp.Runtime.Cancelled.{HasProcesses, call_ops, initialize_cancels}
use kube_ops_agent.Mcp.Registry.{Registry, Decoders, init_from_config, initialize_mcp}
use kube_ops_agent.Mcp.Registry.Starts.{HasRuntimeTools, initialize_mcp-returns}
use kube_ops_agent.Mcp.Registry.Servers.{IsGrounded, init_from_config-IsGrounded}

abbrev response : Fields
response =
    field "result"
      (object (field "tools" (array (item (object (field "name" (text "list") end)) done)) end)) end

abbrev answer : Bool → Result Fields
answer true = ok response
answer false = err "EOF"

-- The outside is whether the processes live.
abbrev outside : Outside Bool
outside = record {
  start = λ w c. (w, ok 7);
  kill = λ w p. false;
  cancel = λ w. false;
  exchange = λ w p r. (w, answer w);
  tell = λ w p r. w;
  post = λ w url r. (w, answer w);
  post_notice = λ w url r. w;
  show = λ v. "";
}

abbrev config : ServerConfig
config = record {
  name = "s1";
  command = "server";
  args = [];
  transport = "stdio";
  url = "";
  env = [];
  enabled = true;
  description = "";
}

abbrev tool : Tool
tool = record { name = "list"; description = ""; server_name = "s1"; input_schema = none }

abbrev client : StdioClient
client = record { config = config; cmd = some (some 7); stdin = some 7; id = 2; tools = tool ∷ [] }

abbrev maps : Maps
maps = record {
  clients = ("s1", stdio client) ∷ [];
  tools = ("list", tool) ∷ [];
  server = ("list", "s1") ∷ [];
}

starts : (initialize outside true (config ∷ []) new_runtime).1 ≡ some (record { maps = some maps })
unfolding initialize client_for str_dec connect add_client insert
starts = refl

-- The client after its first call.
abbrev maps_after : Maps
maps_after = record maps { clients = ("s1", stdio (record client { id = 3 })) ∷ [] }

has_server : lookup "list" maps.server ≡ some "s1"
unfolding lookup str_dec
has_server = refl

has_client : lookup "s1" maps_after.clients ≡ some (stdio (record client { id = 3 }))
unfolding lookup str_dec
has_client = refl

processes : HasProcesses outside (λ w p. w)
processes = record {
  cancel_ends = λ w p. refl;
  no_answer = λ w p r dead. ("EOF", ap answer dead);
  exchange_starts_none = λ w p q r dead. dead;
  post_starts_none = λ w url q r dead. dead;
}

calls_once :
    (run outside
      (initialize outside true (config ∷ []) new_runtime).0
      (call_ops (("list", end) ∷ []))
      (record { maps = some maps })).1
    ≡ some (record { maps = some maps_after })
unfolding run call_tool call initialize lookup insert str_dec
calls_once = refl

initialize_cancels_example :
    (call_tool outside
      (run outside
        (initialize outside true (config ∷ []) new_runtime).0
        (call_ops (("list", end) ∷ []))
        (record { maps = some maps })).0
      "list"
      end
      (record { maps = some maps_after })).2
    ≢ returned (ok (record { content = []; is_error = false }))
initialize_cancels_example =
    initialize_cancels outside (λ w p. w) processes true (config ∷ []) new_runtime
      (record { maps = some maps }) (record { maps = some maps_after }) (("list", end) ∷ [])
      maps_after "list" "s1" (record client { id = 3 }) end
      (record { content = []; is_error = false }) starts calls_once refl has_server has_client

-- The decoders of a file, whose bytes do not matter: a server that is not enabled.
abbrev decode : Decoders ℕ
decode = record {
  config_a = λ d. ok (
      record {
        name = "s1";
        description = "";
        tools = record { name = "list"; description = ""; input_schema = none } ∷ [];
      }
      ∷ []);
  config_b = λ d. ok (record config { enabled = false } ∷ []);
  server_configs = λ d. ok (config ∷ []);
}

initialize_mcp-returns_example :
    (res : Result Registry) × ((initialize_mcp outside decode true (ok 0) (ok 0)).1 ≡ some res)
    × ((r : Registry) → res ≡ ok r → HasRuntimeTools r)
initialize_mcp-returns_example = initialize_mcp-returns outside decode true (ok 0) (ok 0)

abbrev loaded : Registry
loaded = record {
  servers = ("s1", record { name = "s1"; description = ""; tools = "list" ∷ [] }) ∷ [];
  tools = ("list", tool) ∷ [];
  runtime = none;
}

-- A server that the second format does not enable is registered by the first.
loads : init_from_config decode (ok 0) ≡ ok loaded
unfolding init_from_config insert
loads = refl

init_from_config-IsGrounded_example : IsGrounded loaded
init_from_config-IsGrounded_example = init_from_config-IsGrounded decode (ok 0) loaded loads
